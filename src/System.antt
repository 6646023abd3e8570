-- ===== src/System.antt =====
-- The server and the client together, from their configurations (internal/server/server.go,
-- internal/client/client.go, internal/client/runner.go) to an accepted data connection
-- (internal/transport).
use g_tun.Prelude.{ℕ, ◌≤◌, ◌≡◌, refl, subst, Bytes, length, Bool, true, false, List, [], some, inl}
use g_tun.Result.{Result, ok}
use g_tun.Auth.Mac.{Hmac}
use g_tun.Auth.Io.{return, pure}
use g_tun.Auth.Io.Duplex.{End, duplex, more}
use g_tun.Auth.Io.Wire.{wire}
use g_tun.Net.{join_host_port}
use g_tun.Tls.{TlsFiles}
use g_tun.Control.{Settings, Json}
use g_tun.Config.Server
use g_tun.Config.Client
use g_tun.Transport.Options
use g_tun.Transport.Plan.{serve, run_plan}
use g_tun.Transport.Conn.Joined.{end_with, accepted}
use g_tun.Transport.Conn.Ended.{joined, data_connection_ends}
use g_tun.Server.{Service, announce, greet, start}
use g_tun.Client.Control.{fetch}
use g_tun.Client.Control.Joined.{exchange_completes}
use g_tun.Client.Control.Matches.{announced_matches}
use g_tun.Client.Runner.{World, new_runner, make, apply, keeps, stop}

first_transport :
    (w : World) (cfg : Client.Client) (settings : Settings) (c : Options.Client)
    → make w cfg settings ≡ ok c
    → apply w cfg settings new_runner ≡ (
      ok tt,
      record {
        current = some (record { settings = settings; number = 0; transport = c });
        started = 1;
        stopped = [];
      },
    )
unfolding apply keeps stop
first_transport w cfg settings c made = rw made refl

module _ (h : Hmac) (json : Json) (cfg : Client.Client) (scfg : Server.Server) where
  -- The two ends of the control connection.
  abbrev pub client_control : Bytes → End (Result Settings)
  client_control nonce = record { program = fetch h json cfg; input = []; entropy = nonce }

  abbrev pub server_control : Bytes → End (Result (Unit {0}))
  server_control nonce = record {
    program = greet h json scfg.token (announce scfg);
    input = [];
    entropy = nonce;
  }

  settings_arrive :
      (nc ns body : Bytes) (fuel : ℕ)
      → Server.IsValid scfg
      → cfg.token ≡ scfg.token
      → length nc ≡ 32
      → length ns ≡ 32
      → json.marshal (announce scfg) ≡ some body
      → json.unmarshal body ≡ some (announce scfg)
      → length body ≤ 4096
      → duplex (more 15 fuel) (client_control nc) (server_control ns)
        ≡ (end_with (return (announce scfg)) [], end_with (return tt) [])
  settings_arrive nc ns body fuel valid one_token nc_size ns_size encoded decoded small =
      subst
        (λ (t : Bytes).
          duplex (more 15 fuel) (client_control nc)
            (record { program = greet h json t (announce scfg); input = []; entropy = ns })
          ≡ (end_with (return (announce scfg)) [], end_with (return tt) []))
        one_token
        (exchange_completes h json cfg scfg nc ns body fuel valid nc_size ns_size encoded decoded
          small)

  -- A server with a valid configuration that starts, and a client that has its token and can make the
  -- transport for its settings, work together. On the control connection the client's exchange ends
  -- with the settings that the server announces. The client's runner then starts the transport for
  -- them, which dials the server's data port, on the carrier that the server's transport listens on
  -- there. And a data connection between these two transports, if the protocol is one that gives it
  -- to `handleConn`, is accepted: the client's end is open, and the server goes on to its stream, or to
  -- the streams of its smux session if that starts. This holds whatever the nonces are; it needs JSON that decodes what
  -- it encodes, in at most 4096 bytes.
  pub tunnel_opens :
      (w : World) (files : TlsFiles) (s : Service) (c : Options.Client)
      (nc ns data_nc data_ns body : Bytes) (direct starts : Bool) (dials : List Bool) (fuel : ℕ)
      → Server.IsValid scfg
      → cfg.token ≡ scfg.token
      → start files scfg ≡ ok s
      → make w cfg (announce scfg) ≡ ok c
      → length nc ≡ 32
      → length ns ≡ 32
      → (data_nc_size : length data_nc ≡ 32) → (data_ns_size : length data_ns ≡ 32)
      → json.marshal (announce scfg) ≡ some body
      → json.unmarshal body ≡ some (announce scfg)
      → length body ≤ 4096
      → (duplex (more 15 fuel) (client_control nc) (server_control ns)
          ≡ (end_with (return (announce scfg)) [], end_with (return tt) []))
        × (apply w cfg (announce scfg) new_runner ≡ (
          ok tt,
          record {
            current = some (record { settings = announce scfg; number = 0; transport = c });
            started = 1;
            stopped = [];
          },
        ))
        × (serve s.transport.opts.protocol ≡ ok (run_plan c.opts.protocol))
        × (s.transport.opts.listen_addr ≡ join_host_port [] scfg.data_port)
        × (c.opts.server_addr ≡ join_host_port cfg.remote_host scfg.data_port)
        × (wire (more 13 fuel) (
              joined h c.opts.token s.transport.opts.token data_nc data_ns s.transport.opts.protocol
                direct starts dials data_nc_size data_ns_size)
            ≡ record {
              left = end_with (return tt) [];
              right = end_with (pure (accepted s.transport.opts.protocol direct starts dials)) [];
              left_closed = false;
              right_closed = true;
            })
  tunnel_opens w files s c nc ns data_nc data_ns body direct starts dials fuel valid one_token
        started made nc_size ns_size data_nc_size data_ns_size encoded decoded small =
      let (plan, listens, dials_it, _, same, _) =
        announced_matches w files cfg scfg s c valid started made one_token in
      (
        settings_arrive nc ns body fuel valid one_token nc_size ns_size encoded decoded small,
        first_transport w cfg (announce scfg) c made,
        plan,
        listens,
        dials_it,
        data_connection_ends h c.opts.token s.transport.opts.token data_nc data_ns
            s.transport.opts.protocol direct starts dials data_nc_size data_ns_size (inl same) fuel,
      )
