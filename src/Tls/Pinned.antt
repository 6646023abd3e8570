-- ===== src/Tls/Pinned.antt =====
-- internal/tlsutil/tlsutil.go: which servers a client with a pinned certificate accepts.
use g_tun.Prelude.{
  ◌≡◌, ◌↔◌, ap, ◌∙◌, Bytes, codes, bytes_eq_iff, some, List, [], ◌∷◌, arith, Option-cases, inl, inr,
}
use g_tun.Result.{ok}
use g_tun.Tls.{TlsFiles, ClientTls, pinned_client_config, pinned_file, verify_connection}

-- The first PEM block of the file at the path is a certificate with these bytes.
abbrev pub Stored : TlsFiles → Bytes → Bytes → Type 0
Stored files path cert =
    (text : Bytes) × (files.read_file path ≡ some text)
    × (files.decode_pem text ≡ some (record { kind = codes "CERTIFICATE"; bytes = cert }))

pinned-Stored :
    (files : TlsFiles) (path : Bytes) (protos : List Bytes) (c : ClientTls)
    → pinned_client_config files path protos ≡ ok c
    → Stored files path c.pinned
unfolding pinned_client_config
pinned-Stored files path protos c h = elim (Option-cases (files.read_file path)) [
  | inl missing ↦ cc (rw missing at h)
  | inr (text, found) ↦ elim (Option-cases (files.decode_pem text)) [
    | inl bad ↦ cc (rw (found, pinned_file, bad) at h)
    | inr (b, good) ↦
        (text, found, ground (arith, found, good, bytes_eq_iff b.kind (codes "CERTIFICATE")))
  ]
]

accepts_iff :
    (c : ClientTls) (peer : List Bytes)
    → (verify_connection c peer ≡ ok tt) ↔ ((rest : List Bytes) × (peer ≡ c.pinned ∷ rest))
unfolding verify_connection
accepts_iff c [] = (λ h. cc, λ h. cc h.1)
accepts_iff c (leaf ∷ chain) = (
  λ h. (chain, ground (arith, bytes_eq_iff leaf c.pinned)),
  λ h. ground (arith, h.1, bytes_eq_iff leaf c.pinned),
)

Stored-unique :
    (files : TlsFiles) (path a b : Bytes) → Stored files path a → Stored files path b → a ≡ b
Stored-unique files path a b (t, read, decoded) (t', read', decoded') = ground arith

-- A client with a pinned certificate accepts a connection exactly if the first certificate that the
-- peer presents is, byte for byte, the one in the client's file; without one it accepts none.
verify_connection_pinned :
    (files : TlsFiles) (path : Bytes) (protos : List Bytes) (c : ClientTls) (peer : List Bytes)
    → pinned_client_config files path protos ≡ ok c
    → (verify_connection c peer ≡ ok tt)
      ↔ ((cert : Bytes) × (rest : List Bytes) × Stored files path cert × (peer ≡ cert ∷ rest))
verify_connection_pinned files path protos c peer h = (
  λ accepted.
      let (rest, e) = (accepts_iff c peer).0 accepted in
      (c.pinned, rest, pinned-Stored files path protos c h, e),
  λ s. (accepts_iff c peer).1 (
    s.1,
    s.3
        ∙ ap (λ (cert : Bytes). cert ∷ s.1)
            (Stored-unique files path s.0 c.pinned s.2 (pinned-Stored files path protos c h)),
  ),
)
