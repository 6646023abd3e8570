-- ===== src/Client/Runner.antt =====
-- internal/client/runner.go: the runner, `apply` and `stop`.
-- Transports are numbered in the order of their starts. A mutex guards both operations, so each is
-- one step.
pub mod Single
pub mod Apply
pub mod Threads
pub mod Slot
use g_tun.Prelude.{
  ℕ, zero, suc, ◌+◌, Bytes, bytes_eq, Bool, true, false, ◌&&◌, not, Option, none, some, List, [],
  ◌∷◌, if◌then◌else◌,
}
use g_tun.Result.{Result, ok, err, ◌>>=◌, read_ca_file, no_certificates}
use g_tun.Net.{join_host_port}
use g_tun.Tls.{TlsFiles}
use g_tun.Config.Kcp.{Kcp, default_kcp}
use g_tun.Config.Client
use g_tun.Control.{Settings, equal}
use g_tun.Transport.Options.{ClientOptions, new_client}
use g_tun.Transport.Options

pub record Running : Type 0 where
  pub settings : Settings
  pub number : ℕ
  pub transport : Options.Client

-- `stopped` holds the transports that were cancelled and waited for.
pub record Runner : Type 0 where
  pub current : Option Running
  pub started : ℕ
  pub stopped : List ℕ

abbrev pub new_runner : Runner
new_runner = record { current = none; started = 0; stopped = [] }

-- The files, whether a PEM text holds a certificate that can be added to a pool
-- (x509.AppendCertsFromPEM), and which transports have given up, their `done` being closed.
pub record World : Type 0 where
  pub files : TlsFiles
  pub has_certificates : Bytes → Bool
  pub done : ℕ → Bool

stop_current : Option Running → Runner → Runner
stop_current none r = r
stop_current (some run) r = record r { current = none; stopped = run.number ∷ r.stopped }

-- `stopLocked`.
unfoldable pub stop : Runner → Runner
unfolding stop_current
stop r = stop_current r.current r

pem_pool : World → Option Bytes → Result Bytes
pem_pool w none = err read_ca_file
pem_pool w (some pem) = if not (w.has_certificates pem) then err no_certificates else ok pem

unfoldable pub load_cert_pool : World → Bytes → Result Bytes
unfolding pem_pool
load_cert_pool w path = pem_pool w (w.files.read_file path)

-- `config.DefaultKCP()`, unless the settings have parameters.
abbrev pub announced_kcp : Option Kcp → Kcp
announced_kcp none = default_kcp
announced_kcp (some k) = k

unfoldable pub client_options : Client.Client → Settings → Option Bytes → ClientOptions
client_options cfg settings roots = record {
  protocol = settings.protocol;
  server_addr = join_host_port cfg.remote_host settings.port;
  listen_addr = cfg.listen_address;
  token = cfg.token;
  cert_path = cfg.tls_cert_path;
  kcp = announced_kcp settings.kcp;
  stealth_sni = cfg.stealth_sni;
  stealth_root_cas = roots;
}

unfoldable pub root_cas : World → Client.Client → Result (Option Bytes)
root_cas w cfg =
    if not (bytes_eq cfg.stealth_ca_file [])
    then (do pool ← load_cert_pool w cfg.stealth_ca_file; ok (some pool))
    else ok none

-- The transport for the settings, or the error of its files.
unfoldable pub make : World → Client.Client → Settings → Result Options.Client
unfolding root_cas client_options
make w cfg settings = do
  roots ← root_cas w cfg
  new_client w.files (client_options cfg settings roots)

run_new : Settings → Result Options.Client → Runner → Result (Unit {0}) × Runner
run_new settings (err e) r = (err e, r)
run_new settings (ok tr) r = (
  ok tt,
  record r {
    current = some (record { settings = settings; number = r.started; transport = tr });
    started = suc r.started;
  },
)

-- The transport that runs has the settings, and has not given up.
unfoldable pub keeps : World → Settings → Option Running → Bool
keeps w settings none = false
keeps w settings (some run) = equal run.settings settings && not (w.done run.number)

unfoldable pub apply : World → Client.Client → Settings → Runner → Result (Unit {0}) × Runner
unfolding run_new
apply w cfg settings r =
    if keeps w settings r.current
    then (ok tt, r)
    else run_new settings (make w cfg settings) (stop r)
