-- ===== src/Tests/Servers.antt =====
-- The listeners of the server, and the server's command.
use g_tun.Prelude.{
  ◌≡◌, ◌≤◌, ◌<◌, ◌⊎◌, refl, codes, true, false, Option, none, some, List, [], ◌∷◌, length, arith,
  All,
}
use g_tun.Result.{Result, Error, ok, err, listen_control, accept, load_key_pair}
use g_tun.Proto.{quic, parse, tls}
use g_tun.Config.Kcp.{default_kcp}
use g_tun.Config.Load.{load_server}
use g_tun.Config.Server
use g_tun.Config.Server.{server_validate_iff}
use g_tun.Net.{join_host_port}
use g_tun.Tls.{server_config}
use g_tun.Transport.Options.{new_server, alpn}
use g_tun.Server.{Service, announce, server_options, start as start_service}
use g_tun.Server.Start.{Serves}
use g_tun.Server.Run.{
  Listener, data_listener, control_listener, listeners, Report, returned, Process, push_report,
  take_report, joining, Surroundings, listener_result, Without, here, there, Step, ends, first,
  joins, finishes, Reach, start, next, init,
}
use g_tun.Server.Run.Reasons.{IsReported, Reason, run_reasons}
use g_tun.Server.Run.Joins.{errors_of, count, senders, run_joins}
use g_tun.Server.Run.Ends.{HasReturned, run_ends}
use g_tun.Transport.Serve.{Site, still_serving, accepted, failed, serve_quic, serving}
use g_tun.Command.{Flags, server_command}
use g_tun.Command.Check.{check_predicts}
use g_tun.Transport.Kcp.{TakesKeys}
use g_tun.Tests.Samples.{sample_hmac, token}
use g_tun.Tests.Configs.{quic_server, quic_server_valid, server_files}
use g_tun.Tests.Control.{files}
use g_tun.Tests.Carriers.{ciphers}

abbrev service : Service
service = record {
  transport = record {
    opts = server_options quic_server default_kcp;
    tls = some (record { certificate = codes "certificate"; next_protos = alpn quic });
  };
  control = some (join_host_port [] quic_server.control_port, announce quic_server);
}

service_started : start_service files quic_server ≡ ok service
unfolding start_service server_options new_server parse server_config tls
service_started = refl

-- The control listener fails first, and then the data listener ends.
abbrev failure : Report
failure = record { from = control_listener; error = some listen_control }

abbrev success : Report
success = record { from = data_listener; error = none }

abbrev both_started : Process
both_started = init (listeners service)

abbrev over : Process
over =
    record (take_report (joining 0 (listen_control ∷ [])) [] (
      push_report success
        (record (take_report (joining 1 (listen_control ∷ [])) []
          (push_report failure (record both_started { running = data_listener ∷ [] }))) {
            running = [];
          }))) { stage = returned (listen_control ∷ []) }

over-Reach : Reach (listeners service) 5 over
unfolding listeners
over-Reach =
    next
      (next
        (next
          (next
            (next start (
              ends control_listener (some listen_control) (data_listener ∷ [])
                (there data_listener (control_listener ∷ []) [] (here [])) (omega arith)))
            (first failure [] 1 refl refl refl))
          (ends data_listener none [] (here []) (omega arith)))
        (joins success [] 0 (listen_control ∷ []) refl refl))
      (finishes (listen_control ∷ []) refl)

run_joins_example :
    (over.cancelled ≡ true)
    × (over.running ≡ [])
    × (listen_control ∷ [] ≡ errors_of over.sent)
    × ((l : Listener) → count l (senders over.sent) ≡ count l (listeners service))
run_joins_example = run_joins service 5 over (listen_control ∷ []) over-Reach refl

run_ends_example :
    (5 ≤ 5)
    × ((l : Listener) (error : Option Error) (rest : List Listener)
        → Without l over.running rest
        → Step
            (length (listeners service))
            over
            (push_report (record { from = l; error = error }) (record over { running = rest })))
    × (HasReturned over
        ⊎ ((q : Process) × Step (length (listeners service)) over q)
        ⊎ (0 < length over.running))
run_ends_example = run_ends service 5 over over-Reach

-- The QUIC listener accepts a connection and fails.
abbrev site : Site
site = record {
  listens = true;
  creates = true;
  resolves = true;
  events = [];
  quic_events = accepted 4 ∷ failed false ∷ [];
  requests = [];
  http_end = still_serving;
  relay = none;
}

takes_keys : TakesKeys ciphers
takes_keys key h = (key, refl)

serves_until_error :
    (serving sample_hmac ciphers token default_kcp quic site).result ≡ some (err accept)
unfolding serving serve_quic
serves_until_error = refl

-- The control port cannot be opened, and the QUIC listener ends with the context.
abbrev surroundings : Surroundings
surroundings = record {
  site = record site { quic_events = failed true ∷ [] };
  control_listens = false;
  control_events = [];
}

reports-IsReported :
    All (IsReported sample_hmac ciphers takes_keys files quic_server service surroundings) over.sent
unfolding listener_result serving serve_quic server_options
reports-IsReported = (refl, (refl, tt))

run_reasons_example :
    All
      (Reason sample_hmac ciphers takes_keys files quic_server service surroundings)
      (listen_control ∷ [])
run_reasons_example =
    run_reasons sample_hmac ciphers takes_keys files quic_server service surroundings 5 over
      (listen_control ∷ []) ((server_validate_iff quic_server).0 quic_server_valid) service_started
      over-Reach refl reports-IsReported

abbrev flags : Flags
flags = record {
  config_path = codes "server_config.json";
  debug = false;
  check_only = false;
  show_version = false;
}

abbrev serves_on : Service → Option (Result (Unit {0}))
serves_on s = none

check_predicts_example :
    ((e : Error) × ((server_command server_files files serves_on []
          (record flags { check_only = true })).result
        ≡ some (err e))
      × ((server_command server_files files serves_on []
            (record flags { check_only = false })).result
          ≡ some (err e)))
    ⊎ ((cfg : Server.Server) × Server.IsValid cfg
        × (load_server server_files (codes "server_config.json") ≡ ok cfg)
        × ((server_command server_files files serves_on []
              (record flags { check_only = true })).result
            ≡ some (ok tt))
        × (((s : Service) × Serves files cfg s
              × ((server_command server_files files serves_on []
                    (record flags { check_only = false })).result
                  ≡ serves_on s))
            ⊎ ((server_command server_files files serves_on []
                  (record flags { check_only = false })).result
                ≡ some (err load_key_pair))))
check_predicts_example = check_predicts server_files files serves_on [] flags refl
