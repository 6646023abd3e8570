-- ===== src/Command.antt =====
-- cmd/g-tun-server/main.go, cmd/g-tun-client/main.go, cmd/g-tun-gencert/main.go and
-- internal/logging/logging.go: the commands, from their flags to their exit status.
pub mod Check
pub mod Outcome
use g_tun.Prelude.{
  ℕ, Bytes, codes, Bool, true, false, Option, none, some, List, [], ◌∷◌, ◌++◌, if◌then◌else◌,
}
use g_tun.Result.{Result, ok, err}
use g_tun.Tls.{TlsFiles}
use g_tun.Tls.Generate.{Crypto, Disk, Writes, generate_self_signed}
use g_tun.Config.Load.{Files, load_server, load_client}
use g_tun.Config.Server
use g_tun.Config.Client
use g_tun.Server.{Service, start}

pub record Flags : Type 0 where
  pub config_path : Bytes
  pub debug : Bool
  pub check_only : Bool
  pub show_version : Bool

pub data Level : Type 0 where
  level_info level_debug : Level

unfoldable init_logging : Bool → Level
init_logging debug = if debug then level_debug else level_info

-- What was printed, the level of the logger if it was installed, and what `run` returned: `none`
-- while the tunnel runs.
pub record CommandRun : Type 0 where
  pub printed : List Bytes
  pub level : Option Level
  pub result : Option (Result (Unit {0}))

-- `main`: the exit status.
unfoldable exit_status : Result (Unit {0}) → ℕ
exit_status (ok u) = 0
exit_status (err e) = 1

module _ {Cfg : Type 0} (load : Bytes → Result Cfg) (serve : Cfg → Option (Result (Unit {0})))
    (version : Bytes) where
  loaded : Flags → Result Cfg → CommandRun
  unfolding init_logging
  loaded flags (err e) = record {
    printed = [];
    level = some (init_logging flags.debug);
    result = some (err e);
  }
  loaded flags (ok cfg) =
      if flags.check_only
      then record {
        printed = codes "configuration is valid" ∷ [];
        level = some (init_logging flags.debug);
        result = some (ok tt);
      }
      else record { printed = []; level = some (init_logging flags.debug); result = serve cfg }

  -- `run` of both commands.
  unfoldable pub run_command : Flags → CommandRun
  unfolding loaded
  run_command flags =
      if flags.show_version
      then record { printed = version ∷ []; level = none; result = some (ok tt) }
      else loaded flags (load flags.config_path)

serve_started : (Service → Option (Result (Unit {0}))) → Result Service → Option (Result (Unit {0}))
serve_started waits (err e) = some (err e)
serve_started waits (ok s) = waits s

-- The server: `waits` is what `Run` returns once its listeners are started.
unfoldable pub server_command :
    Files Server.Server
    → TlsFiles
    → (Service → Option (Result (Unit {0})))
    → Bytes
    → Flags
    → CommandRun
unfolding serve_started
server_command files tls_files waits version flags =
    run_command (load_server files) (λ cfg. serve_started waits (start tls_files cfg)) version flags

-- The client: `beside` gives a name in the directory of a path.
unfoldable pub client_command :
    (Bytes → Bytes → Bytes)
    → Files Client.Client
    → (Client.Client → Option (Result (Unit {0})))
    → Bytes
    → Flags
    → CommandRun
client_command beside files runs version flags =
    run_command (load_client beside files) runs version flags

-- The line that is printed on success, and the exit status.
generated_line : Bytes → Bytes → Result (Unit {0}) × Disk → List Bytes × ℕ × Disk
unfolding exit_status
generated_line cert_path key_path (ok u, d) =
    ((codes "wrote " ++ (cert_path ++ (codes " and " ++ key_path))) ∷ [], exit_status (ok u), d)
generated_line cert_path key_path (err e, d) = ([], exit_status (err e), d)

unfoldable gencert_command : Crypto → ℕ → Writes → Bytes → Bytes → Disk → List Bytes × ℕ × Disk
unfolding generated_line
gencert_command lib now ends cert_path key_path d =
    generated_line cert_path key_path (generate_self_signed lib now ends cert_path key_path d)
