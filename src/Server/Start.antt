-- ===== src/Server/Start.antt =====
-- internal/server/server.go: a validated configuration starts, and announces what clients accept.
use g_tun.Prelude.{
  ◌≡◌, ◌≢◌, [], bytes_eq-cases, bytes_ne, bytes_eq_iff, none, some, inl, inr, ◌⊎◌, subst,
}
use g_tun.Result.{ok, err, load_key_pair}
use g_tun.Proto.{utcp_mux, stealth}
use g_tun.Net.{join_host_port}
use g_tun.Tls.{TlsFiles}
use g_tun.Config.Kcp.{Kcp, IsUsable}
use g_tun.Config.Server.{Server, IsValid}
use g_tun.Control.Receive.{IsRunnable}
use g_tun.Transport.Options.Accepted.{Made, NoKeyPair, new_server_cases}
use g_tun.Server.{Service, server_options, announce, control_listener, start}

pub announce-IsRunnable : (cfg : Server) → IsValid cfg → IsRunnable (announce cfg)
unfolding announce
announce-IsRunnable cfg v = record {
  known = v.known;
  kcp = λ k e. elim (bytes_eq-cases cfg.protocol utcp_mux) [
    | inl (is, p) ↦
        let (l, found, usable) = v.kcp in
        let same : l ≡ k = cc (rw is at e) in subst IsUsable same usable
    | inr (is, ne) ↦ cc (rw is at e)
  ];
}

-- The transport has the options of the configuration. Stealth has no control listener, and every
-- other protocol has one that announces the protocol and the data port of the configuration.
pub record Serves (files : TlsFiles) (cfg : Server) (s : Service) : Type 0 where
  pub kcp : Kcp
  pub configured : cfg.kcp ≡ some kcp
  pub made : Made files (server_options cfg kcp) s.transport
  pub silent : cfg.protocol ≡ stealth → s.control ≡ none
  pub announces :
      cfg.protocol ≢ stealth → s.control ≡ some (join_host_port [] cfg.control_port, announce cfg)
  pub runnable : IsRunnable (announce cfg)

module _ (files : TlsFiles) (cfg : Server) (v : IsValid cfg) where
  no_control : cfg.protocol ≡ stealth → control_listener cfg ≡ none
  unfolding control_listener
  no_control p = rw ((bytes_eq_iff cfg.protocol stealth).1 p)

  has_control :
      cfg.protocol ≢ stealth
      → control_listener cfg ≡ some (join_host_port [] cfg.control_port, announce cfg)
  unfolding control_listener
  has_control ne = rw (bytes_ne cfg.protocol stealth ne)

  -- `Run` starts from every validated configuration, unless the protocol needs a key pair whose
  -- files cannot be loaded. It then runs the configured transport, and announces it (but for
  -- stealth) in settings that a client accepts.
  pub start_cases :
      ((s : Service) × (start files cfg ≡ ok s) × Serves files cfg s)
      ⊎ ((kcp : Kcp) × (start files cfg ≡ err load_key_pair)
          × NoKeyPair files (server_options cfg kcp))
  unfolding start server_options
  start_cases =
      let (k, found, usable) = v.kcp in
      elim (new_server_cases files (server_options cfg k) v.known
        λ p. let (host, port, split, _, _) = v.handshake_site p in ((host, port), split)) [
          | inl (t, made, is_made) ↦ inl (
            record { transport = t; control = control_listener cfg },
            rw (found, made),
            record {
              kcp = k;
              configured = found;
              made = is_made;
              silent = no_control;
              announces = has_control;
              runnable = announce-IsRunnable cfg v;
            },
          )
          | inr (failed, no_pair) ↦ inr (k, rw (found, failed), no_pair)
        ]
