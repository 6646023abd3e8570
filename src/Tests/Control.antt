-- ===== src/Tests/Control.antt =====
-- The control connection, the start of the server and the client's runner.
use g_tun.Prelude.{◌≡◌, ◌↔◌, ◌⊎◌, refl, Bytes, codes, true, false, none, some, [], ◌∷◌, ◌≢◌}
use g_tun.Tls.{TlsFiles, server_config, pinned_client_config}
use g_tun.Config.Server.{server_validate_iff}
use g_tun.Config.Server
use g_tun.Control.{Settings, Json}
use g_tun.Auth.Io.{run}
use g_tun.Result.{ok}
use g_tun.Proto.{utcp_mux, parse, tls}
use g_tun.Net.{join_host_port, contains}
use g_tun.Config.Kcp.{default_kcp}
use g_tun.Transport.Options
use g_tun.Transport.Plan.{serve, run_plan}
use g_tun.Server.{Service, connected, announce, server_options, start, handle_control}
use g_tun.Server.Greet.{Welcomed, handle_control_iff}
use g_tun.Client.Runner.{World, new_runner, client_options, make}
use g_tun.Client.Control.{run_control}
use g_tun.Client.Control.Trusted.{Applied, Untouched, run_control_trusted}
use g_tun.Client.Control.Matches.{SameTls, announced_matches}
use g_tun.Tests.Samples.{sample_hmac, token, client_nonce, server_nonce, conn}
use g_tun.Tests.Configs.{quic_server, quic_server_valid, static_client}

abbrev pub files : TlsFiles
files = record {
  load_x509_key_pair = λ cert key. some (codes "certificate");
  read_file = λ path. some (codes "pem");
  decode_pem = λ text. some (record { kind = codes "CERTIFICATE"; bytes = codes "certificate" });
}

abbrev pub world : World
world = record { files = files; has_certificates = λ pem. true; done = λ n. false }

valid : Server.IsValid quic_server
valid = (server_validate_iff quic_server).0 quic_server_valid

abbrev announced : Settings
announced = announce quic_server

abbrev pub body : Bytes
body = codes "{\"protocol\":\"quic\",\"port\":\"8080\"}"

abbrev pub json : Json
json = record { marshal = λ s. some body; unmarshal = λ b. some announced }

handle_control_iff_example :
    (run (handle_control sample_hmac json token announced) (conn client_nonce server_nonce)
      ≡ (connected, conn [] []))
    ↔ ((mid : _) × Welcomed sample_hmac json token announced (conn client_nonce server_nonce) mid
        × (conn [] [] ≡ record mid { input = []; closed = true }))
handle_control_iff_example =
    handle_control_iff sample_hmac json token announced (conn client_nonce server_nonce)
      (conn [] [])

run_control_trusted_example :
    (Applied world static_client sample_hmac json new_runner
        (conn body client_nonce)
        (run
          (run_control world static_client sample_hmac json new_runner)
          (conn body client_nonce)).0
      ⊎ Untouched new_runner
          (run
            (run_control world static_client sample_hmac json new_runner)
            (conn body client_nonce)).0)
    × ((run
          (run_control world static_client sample_hmac json new_runner)
          (conn body client_nonce)).1.closed
        ≡ true)
run_control_trusted_example =
    run_control_trusted world static_client sample_hmac json new_runner (conn body client_nonce)

-- The two transports of the announced settings.
abbrev server_transport : Options.Server
server_transport = record {
  opts = server_options quic_server default_kcp;
  tls = some (record { certificate = codes "certificate"; next_protos = codes "h3" ∷ [] });
}

abbrev client_transport : Options.Client
client_transport = record {
  opts = client_options static_client announced none;
  tls = some (record { pinned = codes "certificate"; next_protos = codes "h3" ∷ [] });
}

abbrev service : Service
service = record { transport = server_transport; control = some (codes ":8080", announced) }

started : start files quic_server ≡ ok service
unfolding start Options.new_server parse tls server_config join_host_port contains
started = refl

made : make world static_client announced ≡ ok client_transport
unfolding make Options.new_client parse announce tls pinned_client_config
made = refl

announced_matches_example :
    (serve server_transport.opts.protocol ≡ ok (run_plan client_transport.opts.protocol))
    × (server_transport.opts.listen_addr ≡ join_host_port [] quic_server.data_port)
    × (client_transport.opts.server_addr
        ≡ join_host_port static_client.remote_host quic_server.data_port)
    × ((quic_server.protocol ≢ utcp_mux) ⊎ (client_transport.opts.kcp ≡ server_transport.opts.kcp))
    × (client_transport.opts.token ≡ server_transport.opts.token)
    × SameTls server_transport client_transport
announced_matches_example =
    announced_matches world files static_client quic_server service client_transport valid started
      made refl
