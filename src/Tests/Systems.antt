-- ===== src/Tests/Systems.antt =====
-- The server and the client together, with the protocol `tcpmux`.
use g_tun.Prelude.{◌≡◌, refl, arith, codes, Bytes, true, false, none, some, [], ◌∷◌}
use g_tun.Result.{ok}
use g_tun.Proto.{tcp_mux, parse, tls, udp_based}
use g_tun.Net.{
  atoi, split_host_port, join_host_port, magnitude, digits_value, last_index_byte, index_byte,
  contains,
}
use g_tun.Config.Kcp.{default_kcp, validate_kcp}
use g_tun.Config.Fields.{validate_port, validate_host_port, validate_token}
use g_tun.Config.Server
use g_tun.Config.Server.{server_validate_iff}
use g_tun.Config.Client
use g_tun.Control.{Settings, Json}
use g_tun.Auth.Io.{return, pure}
use g_tun.Auth.Io.Duplex.{duplex}
use g_tun.Auth.Io.Wire.{wire}
use g_tun.Transport.Options
use g_tun.Transport.Plan.{serve, run_plan}
use g_tun.Transport.Conn.Joined.{end_with, accepted}
use g_tun.Transport.Conn.Ended.{joined}
use g_tun.Server.{Service, announce, server_options, start}
use g_tun.Client.Runner.{new_runner, client_options, make, apply}
use g_tun.System.{client_control, server_control, tunnel_opens}
use g_tun.Tests.Samples.{sample_hmac, client_nonce, server_nonce}
use g_tun.Tests.Configs.{quic_server, static_client}
use g_tun.Tests.Control.{files, world}

abbrev mux_server : Server.Server
mux_server = record quic_server { protocol = tcp_mux; control_port = codes "8081" }

abbrev mux_client : Client.Client
mux_client = record static_client { control_address = codes "192.0.2.1:8081" }

mux_server_valid : Server.validate mux_server ≡ ok tt
unfolding Server.validate parse validate_port validate_host_port validate_token validate_kcp tls
    udp_based atoi magnitude digits_value split_host_port last_index_byte index_byte contains
mux_server_valid = refl

abbrev settings : Settings
settings = announce mux_server

abbrev body : Bytes
body = codes "{\"protocol\":\"tcpmux\",\"port\":\"8080\"}"

abbrev json : Json
json = record { marshal = λ s. some body; unmarshal = λ b. some settings }

abbrev service : Service
service = record {
  transport = record { opts = server_options mux_server default_kcp; tls = none };
  control = some (join_host_port [] mux_server.control_port, settings);
}

started : start files mux_server ≡ ok service
unfolding start Options.new_server parse tls server_options
started = refl

abbrev transport : Options.Client
transport = record { opts = client_options mux_client settings none; tls = none }

made : make world mux_client settings ≡ ok transport
unfolding make Options.new_client parse announce tls
made = refl

tunnel_opens_example :
    (duplex 15
        (client_control sample_hmac json mux_client mux_server client_nonce)
        (server_control sample_hmac json mux_client mux_server server_nonce)
      ≡ (end_with (return settings) [], end_with (return tt) []))
    × (apply world mux_client settings new_runner ≡ (
      ok tt,
      record {
        current = some (record { settings = settings; number = 0; transport = transport });
        started = 1;
        stopped = [];
      },
    ))
    × (serve service.transport.opts.protocol ≡ ok (run_plan transport.opts.protocol))
    × (service.transport.opts.listen_addr ≡ join_host_port [] mux_server.data_port)
    × (transport.opts.server_addr ≡ join_host_port mux_client.remote_host mux_server.data_port)
    × (wire 13 (
          joined sample_hmac transport.opts.token service.transport.opts.token client_nonce
            server_nonce service.transport.opts.protocol true true
            (true ∷ [])
            refl
            refl)
        ≡ record {
          left = end_with (return tt) [];
          right =
              end_with (pure (accepted service.transport.opts.protocol true true (true ∷ []))) [];
          left_closed = false;
          right_closed = true;
        })
tunnel_opens_example =
    tunnel_opens sample_hmac json mux_client mux_server world files service transport client_nonce
      server_nonce client_nonce server_nonce body true true (true ∷ []) 0
      ((server_validate_iff mux_server).0 mux_server_valid) refl started made refl refl refl refl
      refl refl (omega arith)
