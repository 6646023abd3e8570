-- ===== src/Client/Control/Matches.antt =====
-- internal/client/runner.go and internal/server/server.go: the transport that the client makes of the
-- announced settings, and the one that the server runs.
use g_tun.Prelude.{
  ◌≡◌, ◌≢◌, refl, sym, subst, ap, ◌∙◌, Bytes, bytes_eq-cases, Option, [], none, some, true, false,
  ◌⊎◌, inl, inr,
}
use g_tun.Result.{ok, >>=-inv}
use g_tun.Proto.{utcp_mux, tls}
use g_tun.Net.{join_host_port}
use g_tun.Tls.{TlsFiles, ServerTls, ClientTls}
use g_tun.Config.Server
use g_tun.Config.Client
use g_tun.Transport.Options
use g_tun.Transport.Options.{ClientOptions, ServerOptions, new_client, alpn}
use g_tun.Proto.Classes.{parse_iff}
use g_tun.Transport.Options.Accepted.{Pinned, new_client-Pinned}
use g_tun.Control.{Settings}
use g_tun.Config.Kcp.{Kcp}
use g_tun.Transport.Plan.{serve, run_plan}
use g_tun.Transport.Plan.Match.{serve-run_plan}
use g_tun.Server.{Service, announce, server_options, start}
use g_tun.Server.Start.{Serves, start_cases}
use g_tun.Client.Runner.{World, client_options, make, root_cas, announced_kcp}

made-Pinned :
    (w : World) (cfg : Client.Client) (settings : Settings) (c : Options.Client)
    → make w cfg settings ≡ ok c
    → (roots : Option Bytes) × Pinned (client_options cfg settings roots) c
unfolding make
made-Pinned w cfg settings c e = >>=-inv (root_cas w cfg) _ e λ roots found made.
    (roots, new_client-Pinned w.files (client_options cfg settings roots) c made)

-- Both transports use TLS, with the same application protocols, or neither does.
abbrev pub SameTls : Options.Server → Options.Client → Type 0
SameTls s c =
    ((s.tls ≡ none) × (c.tls ≡ none))
    ⊎ ((st : ServerTls) × (ct : ClientTls) × (s.tls ≡ some st)
        × (c.tls ≡ some ct)
        × (ct.next_protos ≡ st.next_protos))

kcp_same :
    (scfg : Server.Server) (kcp : Kcp)
    → scfg.kcp ≡ some kcp
    → (scfg.protocol ≢ utcp_mux) ⊎ (announced_kcp (announce scfg).kcp ≡ kcp)
unfolding announce
kcp_same scfg kcp configured = elim (bytes_eq-cases scfg.protocol utcp_mux) [
  | inl (e, p) ↦ inr (rw (e, configured) refl)
  | inr (e, ne) ↦ inl ne
]

same-SameTls :
    (p : Bytes) (s : Options.Server) (c : Options.Client) (Cert : Bytes → Type 0)
    → ((tls p ≡ false) × (s.tls ≡ none))
      ⊎ ((tls p ≡ true)
          × ((cert : Bytes) × Cert cert
              × (s.tls ≡ some (record { certificate = cert; next_protos = alpn p }))))
    → ((tls p ≡ false) × (c.tls ≡ none))
      ⊎ ((tls p ≡ true) × ((t : ClientTls) × (c.tls ≡ some t) × (t.next_protos ≡ alpn p)))
    → SameTls s c
same-SameTls p s c Cert (inl (e, a)) (inl (e', b)) = inl (a, b)
same-SameTls p s c Cert (inr (e, (cert, _, a))) (inr (e', (t, b, same))) = inr (_, t, a, b, same)
same-SameTls p s c Cert (inl (e, a)) (inr (e', b)) = cc
same-SameTls p s c Cert (inr (e, a)) (inl (e', b)) = cc

module _ (w : World) (files : TlsFiles) (cfg : Client.Client) (scfg : Server.Server) where
  started-Serves :
      (s : Service) → Server.IsValid scfg → start files scfg ≡ ok s → Serves files scfg s
  started-Serves s valid started = elim (start_cases files scfg valid) [
    | inl (s', made, serves) ↦
        let same : s' ≡ s = cc (sym made ∙ started) in subst (Serves files scfg) same serves
    | inr (kcp, failed, pair) ↦ cc
  ]

  -- The transport that a client makes of the settings which a server with a valid configuration
  -- announces fits the one that this server runs: it dials the server's data port on the configured
  -- host, over the carrier that the server listens on and with the same kind of streams; it has the
  -- same KCP parameters, if the protocol is `utcpmux`, and the same token, if both configurations
  -- have it; and both use TLS with the same application protocols, or neither does.
  pub announced_matches :
      (s : Service) (c : Options.Client)
      → Server.IsValid scfg
      → start files scfg ≡ ok s
      → make w cfg (announce scfg) ≡ ok c
      → cfg.token ≡ scfg.token
      → (serve s.transport.opts.protocol ≡ ok (run_plan c.opts.protocol))
        × (s.transport.opts.listen_addr ≡ join_host_port [] scfg.data_port)
        × (c.opts.server_addr ≡ join_host_port cfg.remote_host scfg.data_port)
        × ((scfg.protocol ≢ utcp_mux) ⊎ (c.opts.kcp ≡ s.transport.opts.kcp))
        × (c.opts.token ≡ s.transport.opts.token)
        × SameTls s.transport c
  unfolding server_options client_options announce
  announced_matches s c valid started made token =
      let serves : Serves files scfg s = started-Serves s valid started in
      let (roots, (opts, c_tls)) = made-Pinned w cfg (announce scfg) c made in
      let (s_opts, s_tls) = serves.made in
      let sp : s.transport.opts.protocol ≡ scfg.protocol =
        ap (λ (o : ServerOptions). o.protocol) s_opts in
      let cp : c.opts.protocol ≡ scfg.protocol = ap (λ (o : ClientOptions). o.protocol) opts in
      (
        rw (sp, cp)
            (serve-run_plan scfg.protocol scfg.protocol
              ((parse_iff scfg.protocol scfg.protocol).1 (refl, valid.known))),
        ap (λ (o : ServerOptions). o.listen_addr) s_opts,
        ap (λ (o : ClientOptions). o.server_addr) opts,
        elim (kcp_same scfg serves.kcp serves.configured) [
          | inl ne ↦ inl ne
          | inr same ↦ inr (
              ap (λ (o : ClientOptions). o.kcp) opts
              ∙ same
              ∙ sym (ap (λ (o : ServerOptions). o.kcp) s_opts))
        ],
        ap (λ (o : ClientOptions). o.token) opts
            ∙ token
            ∙ sym (ap (λ (o : ServerOptions). o.token) s_opts),
        same-SameTls scfg.protocol s.transport c _ s_tls c_tls,
      )
