-- ===== src/Transport/Options/Accepted.antt =====
-- internal/transport/transport.go: what `NewServer` makes of options that pass its tests.
use g_tun.Prelude.{
  ◌≢◌, ◌&&◌, arith, ap, sym, ◌∙◌, List, [], bytes_eq, bytes_eq_iff, ◌≡◌, refl, Bytes,
  bytes_eq-cases, Bool-cases, true, false, none, some, Option-cases, inl, inr, ◌⊎◌,
}
use g_tun.Result.{
  ok, err, Error, Result-cases, load_key_pair, read_pinned, >>-inv, >>=-inv, fail_if, sni_required,
}
use g_tun.Proto.{parse, stealth, tls, supported}
use g_tun.Proto.Classes.{IsOneOf, parse_iff}
use g_tun.Net.{split_host_port}
use g_tun.Tls.{pinned_client_config, TlsFiles, ClientTls, server_config}
use g_tun.Transport.Options.{
  ServerOptions, ClientOptions, client_tls, new_client, Server, Client, new_server, check_site,
  server_tls, alpn,
}

-- The server has the options, and a TLS configuration exactly if the protocol needs one.
abbrev pub Made : TlsFiles → ServerOptions → Server → Type 0
Made files o s =
    (s.opts ≡ o)
    × (((tls o.protocol ≡ false) × (s.tls ≡ none))
        ⊎ ((tls o.protocol ≡ true)
            × ((cert : Bytes) × (files.load_x509_key_pair o.cert_path o.key_path ≡ some cert)
                × (s.tls ≡ some (record { certificate = cert; next_protos = alpn o.protocol })))))

-- The protocol needs a key pair, and its files do not give one.
abbrev pub NoKeyPair : TlsFiles → ServerOptions → Type 0
NoKeyPair files o =
    (tls o.protocol ≡ true) × (files.load_x509_key_pair o.cert_path o.key_path ≡ none)

site_passes :
    (o : ServerOptions)
    → (o.protocol ≡ stealth → (p : Bytes × Bytes) × (split_host_port o.stealth_handshake ≡ some p))
    → check_site o ≡ ok tt
unfolding check_site
site_passes o site = elim (bytes_eq-cases o.protocol stealth) [
  | inl (e, p) ↦ rw (e, (site p).1)
  | inr (e, p) ↦ rw e
]

-- Options with a supported protocol and, for stealth, a site of the form host:port give a server,
-- unless the protocol needs a key pair that cannot be loaded.
pub new_server_cases :
    (files : TlsFiles) (o : ServerOptions)
    → IsOneOf o.protocol supported
    → (o.protocol ≡ stealth → (p : Bytes × Bytes) × (split_host_port o.stealth_handshake ≡ some p))
    → ((s : Server) × (new_server files o ≡ ok s) × Made files o s)
      ⊎ ((new_server files o ≡ err load_key_pair) × NoKeyPair files o)
unfolding new_server server_tls server_config
new_server_cases files o known site = elim (Bool-cases (tls o.protocol)) [
  | inl e ↦ elim (Option-cases (files.load_x509_key_pair o.cert_path o.key_path)) [
    | inl absent ↦ inr (rw (passes, site_passes o site, e, absent), (e, absent))
    | inr (cert, found) ↦ inl (
      record {
        opts = o;
        tls = some (record { certificate = cert; next_protos = alpn o.protocol });
      },
      rw (passes, site_passes o site, e, found),
      (refl, inr (e, (cert, found, refl))),
    )
  ]
  | inr e ↦
      inl
        (record { opts = o; tls = none }, rw (passes, site_passes o site, e), (refl, inl (e, refl)))
]
  where
    passes : parse o.protocol ≡ ok o.protocol
    passes = (parse_iff o.protocol o.protocol).1 (refl, known)

pinned_error :
    (files : TlsFiles) (path : Bytes) (protos : List Bytes) (e : Error)
    → pinned_client_config files path protos ≡ err e
    → e ≡ read_pinned
unfolding pinned_client_config
pinned_error files path protos e h = ground arith

client_tls_error :
    (files : TlsFiles) (o : ClientOptions) (e : Error)
    → client_tls files o ≡ err e
    → e ≡ read_pinned
unfolding client_tls
client_tls_error files o e h = ground (arith, pinned_error files o.cert_path (alpn o.protocol) e)

pub new_client_error :
    (files : TlsFiles) (o : ClientOptions) (e : Error)
    → IsOneOf o.protocol supported
    → (o.protocol ≡ stealth → o.stealth_sni ≢ [])
    → new_client files o ≡ err e
    → e ≡ read_pinned
unfolding new_client
new_client_error files o e known sni h = elim (Result-cases (client_tls files o)) [
  | inl (t, made) ↦ cc (rw (passes, named, made) at h)
  | inr (x, failed) ↦
      let same : x ≡ e = cc (rw (passes, named, failed) at h) in
      client_tls_error files o e (failed ∙ ap err same)
]
  where
    passes : parse o.protocol ≡ ok o.protocol
    passes = (parse_iff o.protocol o.protocol).1 (refl, known)

    named : (bytes_eq o.protocol stealth && bytes_eq o.stealth_sni []) ≡ false
    named = ground (arith, sni, bytes_eq_iff o.protocol stealth, bytes_eq_iff o.stealth_sni [])

pinned_protos :
    (files : TlsFiles) (path : Bytes) (protos : List Bytes) (t : ClientTls)
    → pinned_client_config files path protos ≡ ok t
    → t.next_protos ≡ protos
unfolding pinned_client_config
pinned_protos files path protos t h = ground arith

-- The client has the options, and offers the protocol's application protocols if it uses TLS.
abbrev pub Pinned : ClientOptions → Client → Type 0
Pinned o c =
    (c.opts ≡ o)
    × (((tls o.protocol ≡ false) × (c.tls ≡ none))
        ⊎ ((tls o.protocol ≡ true)
            × ((t : ClientTls) × (c.tls ≡ some t) × (t.next_protos ≡ alpn o.protocol))))

pub new_client-Pinned :
    (files : TlsFiles) (o : ClientOptions) (c : Client) → new_client files o ≡ ok c → Pinned o c
unfolding new_client client_tls
new_client-Pinned files o c h = >>-inv (parse o.protocol) _ h λ n known h1.
    >>-inv (fail_if (bytes_eq o.protocol stealth && bytes_eq o.stealth_sni []) sni_required) _ h1
      λ _ named h2. >>=-inv (client_tls files o) _ h2 λ config made h3.
        let same : record { opts = o; tls = config } ≡ c = cc h3 in
        let opts : c.opts ≡ o = ap (λ (x : Client). x.opts) (sym same) in
        let its : c.tls ≡ config = ap (λ (x : Client). x.tls) (sym same) in
        elim (Bool-cases (tls o.protocol)) [
          | inr e ↦
              let absent : none ≡ config = cc (rw e at made) in (opts, inl (e, its ∙ sym absent))
          | inl e ↦
              >>=-inv (pinned_client_config files o.cert_path (alpn o.protocol)) _ (rw e at made)
                λ t pinned found.
                  let present : some t ≡ config = cc found in
                  (
                    opts,
                    inr (e, (t, its ∙ sym present, pinned_protos files o.cert_path _ t pinned)),
                  )
        ]
