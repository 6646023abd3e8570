-- ===== src/Transport/Options.antt =====
-- internal/transport/transport.go: the options of a transport, `NewServer` and `NewClient`.
pub mod Accepted
use g_tun.Prelude.{Bytes, codes, bytes_eq, ◌&&◌, Option, none, some, List, [], ◌∷◌, if◌then◌else◌}
use g_tun.Result.{Result, ok, err, ◌>>=◌, ◌>>◌, fail_if, sni_required, handshake_site}
use g_tun.Proto.{Name, parse, quic, stealth, tls}
use g_tun.Net.{split_host_port}
use g_tun.Config.Kcp.{Kcp}
use g_tun.Tls.{TlsFiles, ServerTls, ClientTls, server_config, pinned_client_config}

pub record ServerOptions : Type 0 where
  pub protocol : Name
  pub listen_addr : Bytes
  pub target : Bytes
  pub token : Bytes
  pub cert_path : Bytes
  pub key_path : Bytes
  pub kcp : Kcp
  pub stealth_handshake : Bytes

-- The pool of root certificates is the text of its file.
pub record ClientOptions : Type 0 where
  pub protocol : Name
  pub server_addr : Bytes
  pub listen_addr : Bytes
  pub token : Bytes
  pub cert_path : Bytes
  pub kcp : Kcp
  pub stealth_sni : Bytes
  pub stealth_root_cas : Option Bytes

-- A transport: its options, and the TLS configuration if the protocol uses TLS.
pub record Server : Type 0 where
  pub opts : ServerOptions
  pub tls : Option ServerTls

pub record Client : Type 0 where
  pub opts : ClientOptions
  pub tls : Option ClientTls

abbrev quic_alpn : Bytes
quic_alpn = codes "h3"

unfoldable pub alpn : Name → List Bytes
alpn p = if bytes_eq p quic then quic_alpn ∷ [] else []

splits : Option (Bytes × Bytes) → Result (Unit {0})
splits none = err handshake_site
splits (some p) = ok tt

check_site : ServerOptions → Result (Unit {0})
unfolding splits
check_site o =
    if bytes_eq o.protocol stealth then splits (split_host_port o.stealth_handshake) else ok tt

server_tls : TlsFiles → ServerOptions → Result (Option ServerTls)
unfolding alpn
server_tls files o =
    if tls o.protocol
    then (do
      config ← server_config files o.cert_path o.key_path (alpn o.protocol)
      ok (some config))
    else ok none

unfoldable pub new_server : TlsFiles → ServerOptions → Result Server
unfolding check_site server_tls
new_server files o = do
  parse o.protocol
  check_site o
  config ← server_tls files o
  ok (record { opts = o; tls = config })

client_tls : TlsFiles → ClientOptions → Result (Option ClientTls)
unfolding alpn
client_tls files o =
    if tls o.protocol
    then (do config ← pinned_client_config files o.cert_path (alpn o.protocol); ok (some config))
    else ok none

unfoldable pub new_client : TlsFiles → ClientOptions → Result Client
unfolding client_tls
new_client files o = do
  parse o.protocol
  fail_if (bytes_eq o.protocol stealth && bytes_eq o.stealth_sni []) sni_required
  config ← client_tls files o
  ok (record { opts = o; tls = config })
