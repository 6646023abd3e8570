-- ===== src/Server.antt =====
-- internal/server/server.go: what `Run` starts, the announcement, and `handleControl`.
pub mod Start
pub mod Greet
pub mod Run
use g_tun.Prelude.{Bytes, bytes_eq, true, false, Option, none, some, [], if◌then◌else◌}
use g_tun.Result.{Result, ok, err, Error, nil_dereference}
use g_tun.Result
use g_tun.Proto.{utcp_mux, stealth}
use g_tun.Net.{join_host_port}
use g_tun.Tls.{TlsFiles}
use g_tun.Config.Kcp.{Kcp}
use g_tun.Config.Server
use g_tun.Control.{Settings, Json, send}
use g_tun.Auth.Mac.{Hmac}
use g_tun.Auth.Io.{Io, pure, bind, close, drain, ◌>>=◌, ◌>>◌, sets_deadline}
use g_tun.Auth.Handshake.{server_handshake}
use g_tun.Transport.Options.{ServerOptions, new_server}
use g_tun.Transport.Options

unfoldable pub server_options : Server.Server → Kcp → ServerOptions
server_options cfg kcp = record {
  protocol = cfg.protocol;
  listen_addr = join_host_port [] cfg.data_port;
  target = cfg.target_address;
  token = cfg.token;
  cert_path = cfg.tls_cert_path;
  key_path = cfg.tls_key_path;
  kcp = kcp;
  stealth_handshake = cfg.stealth_handshake_server;
}

-- What `serveControl` announces.
unfoldable pub announce : Server.Server → Settings
announce cfg = record {
  protocol = cfg.protocol;
  port = cfg.data_port;
  kcp = if bytes_eq cfg.protocol utcp_mux then cfg.kcp else none;
}

-- The listeners of `Run`: the data listener, and the address and the announcement of the control
-- listener if there is one.
pub record Service : Type 0 where
  pub transport : Options.Server
  pub control : Option (Bytes × Settings)

control_listener : Server.Server → Option (Bytes × Settings)
unfolding announce
control_listener cfg =
    if bytes_eq cfg.protocol stealth
    then none
    else some (join_host_port [] cfg.control_port, announce cfg)

-- `*cfg.KCP`.
abbrev dereference : Option Kcp → Result Kcp
dereference none = err nil_dereference
dereference (some k) = ok k

-- `Run` up to the start of the listeners.
unfoldable pub start : TlsFiles → Server.Server → Result Service
unfolding server_options control_listener
start files cfg = Result.◌>>=◌ (dereference cfg.kcp) λ kcp.
    Result.◌>>=◌ (new_server files (server_options cfg kcp))
      λ transport. ok (record { transport = transport; control = control_listener cfg })

-- How `handleControl` ends.
pub data Greeted : Type 0 where
  rejected : Error → Greeted
  connected : Greeted

after_greeting : Result (Unit {0}) → Io Greeted
after_greeting (err e) = close (pure (rejected e))
after_greeting (ok u) = drain (close (pure connected))

module _ (h : Hmac) (json : Json) (token : Bytes) where
  -- `handleControl` up to the wait for the client's end.
  unfoldable pub greet : Settings → Io (Result (Unit {0}))
  greet announced = do
    sets_deadline true Result.set_deadline
    channel ← server_handshake h token
    send h json token channel announced
    sets_deadline false Result.set_deadline

  unfoldable pub handle_control : Settings → Io Greeted
  unfolding greet after_greeting
  handle_control announced = bind (greet announced) after_greeting
