-- ===== src/Tests/Configs.antt =====
-- The configuration files, and the protocols' names.
use g_tun.Prelude.{◌≡◌, ◌↔◌, refl, codes, Bytes, some, none, [], ◌++◌}
use g_tun.Result.{ok}
use g_tun.Proto.{quic, stealth, parse, tls, udp_based}
use g_tun.Prelude.Int.{pos}
use g_tun.Net.{
  atoi, split_host_port, join_host_port, magnitude, digits_value, last_index_byte, index_byte,
  contains,
}
use g_tun.Config.Kcp.{default_kcp, validate_kcp}
use g_tun.Config.Fields.{validate_port, validate_host_port, validate_token}
use g_tun.Config.Server
use g_tun.Config.Server.{server_validate_iff}
use g_tun.Config.Client
use g_tun.Config.Client.{client_validate_iff}
use g_tun.Config.Load.{Files}
use g_tun.Tests.Samples.{token}

atoi_sign : atoi (codes "+0443") ≡ some (pos 443)
unfolding atoi magnitude digits_value
atoi_sign = refl

split_bracketed_test : split_host_port (codes "[::1]:80") ≡ some (codes "::1", codes "80")
unfolding split_host_port last_index_byte index_byte contains
split_bracketed_test = refl

split_colons_test : split_host_port (codes "::1:80") ≡ none
unfolding split_host_port last_index_byte index_byte contains
split_colons_test = refl

join_test : join_host_port (codes "::1") (codes "80") ≡ codes "[::1]:80"
unfolding join_host_port contains
join_test = refl

abbrev pub quic_server : Server.Server
quic_server = record {
  control_port = codes "8080";
  data_port = codes "8080";
  protocol = quic;
  target_address = codes "127.0.0.1:443";
  token = token;
  tls_cert_path = codes "cert.pem";
  tls_key_path = codes "key.pem";
  stealth_handshake_server = [];
  kcp = some default_kcp;
}

-- A UDP based protocol may use one number for both ports.
pub quic_server_valid : Server.validate quic_server ≡ ok tt
unfolding Server.validate parse validate_port validate_host_port validate_token validate_kcp tls
    udp_based atoi magnitude digits_value split_host_port last_index_byte index_byte contains
quic_server_valid = refl

abbrev pub static_client : Client.Client
static_client = record {
  control_address = [];
  remote_host = codes "192.0.2.1";
  listen_address = codes ":1080";
  token = token;
  protocol = stealth;
  data_port = codes "443";
  stealth_sni = codes "example.org";
  stealth_ca_file = [];
  tls_cert_path = [];
}

static_client_valid : Client.validate static_client ≡ ok tt
unfolding Client.validate parse validate_port validate_host_port validate_token atoi magnitude
    digits_value split_host_port last_index_byte index_byte contains
static_client_valid = refl

server_validate_iff_example : (Server.validate quic_server ≡ ok tt) ↔ Server.IsValid quic_server
server_validate_iff_example = server_validate_iff quic_server

client_validate_iff_example : (Client.validate static_client ≡ ok tt) ↔ Client.IsValid static_client
client_validate_iff_example = client_validate_iff static_client

abbrev pub server_files : Files Server.Server
server_files = record {
  read = λ p. some [];
  decode = λ t. some (record quic_server { kcp = none });
}

abbrev pub beside : Bytes → Bytes → Bytes
beside path name = codes "/etc/g-tun/" ++ name
