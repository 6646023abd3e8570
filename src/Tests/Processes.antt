-- ===== src/Tests/Processes.antt =====
-- The client's `Run`: a dial that fails, a server that announces its settings, and the end.
use g_tun.Prelude.{
  codes, ◌≤◌, ◌⊎◌, ◌≡◌, refl, true, false, List, none, some, [], ◌∷◌, ltb, if◌then◌else◌,
}
use g_tun.Result.{ok, err, Error}
use g_tun.Command.{Flags}
use g_tun.Command.Outcome.{checked, real, tunnel, client_check_predicts}
use g_tun.Config.Load.{Files, load_client}
use g_tun.Client.Process.Outcome.{Outcome}
use g_tun.Config.Client.{Client, IsValid}
use g_tun.Client.Loop.Backoff.{expected, ends}
use g_tun.Client.Runner.{Runner, new_runner, apply}
use g_tun.Client.Runner.Threads
use g_tun.Client.Runner.Threads.{
  Threads, gone, start_new, run_returned, cancel_current, Step, starts, returns, cancels, Reach,
  start, next,
}
use g_tun.Client.Runner.Threads.Joined.{stop_returns, here}
use g_tun.Client.Runner.Slot
use g_tun.Client.Runner.Slot.Refined.{slot_of, view, runner-Slot}
use g_tun.Client.Runner.Single
use g_tun.Client.Control.Static.{fixed}
use g_tun.Client.Runner.Single.{stops_of}
use g_tun.Client.Process.{Turn, run_client}
use g_tun.Client.Process.Stops.{run_client_stops}
use g_tun.Client.Process.Refines.{rounds, has_returned, run_client-Refines}
use g_tun.Client.Control.Agreement.{client_side}
use g_tun.Tests.Samples.{sample_hmac, token, client_nonce, server_nonce}
use g_tun.Tests.Configs.{static_client, beside}
use g_tun.Tests.Control.{world, json, body}

abbrev dynamic_client : Client
dynamic_client = record static_client { protocol = []; data_port = [] }

abbrev turns : List Turn
turns =
    record { conn = none; world = world; done = false; cancelled = false }
    ∷ record {
      conn = some (client_side sample_hmac json token client_nonce server_nonce body);
      world = world;
      done = false;
      cancelled = true;
    }
    ∷ []

run_client-Refines_example :
    ((run_client sample_hmac json dynamic_client world false turns).waits
      ≡ expected 0 (rounds sample_hmac json dynamic_client new_runner turns))
    × (has_returned (run_client sample_hmac json dynamic_client world false turns).result
        ≡ ends (rounds sample_hmac json dynamic_client new_runner turns))
run_client-Refines_example =
    run_client-Refines sample_hmac json dynamic_client world false turns refl

returned : (run_client sample_hmac json dynamic_client world false turns).result ≡ some (ok tt)
unfolding run_client
returned = refl

run_client_stops_example :
    stops_of 0 (run_client sample_hmac json dynamic_client world false turns).runner.stopped ≡ (
      if ltb 0 (run_client sample_hmac json dynamic_client world false turns).runner.started
      then 1
      else 0)
run_client_stops_example =
    run_client_stops sample_hmac json dynamic_client world false turns (ok tt) 0 returned

-- A transport is started, fails, and is stopped while it waits.
abbrev failing : Threads
failing = run_returned 0 3 (start_new Threads.init)

failing-Reach : Reach failing
unfolding start_new
failing-Reach = next (next start (starts refl)) (returns 0 3 refl)

-- The same of the runner: the settings are applied once.
abbrev applied : Runner
applied = (apply world static_client (fixed static_client) new_runner).1

runner-Slot_example :
    Slot.Reach (slot_of applied)
    × Slot.Reach (view failing)
    × ((failing.phases 0 ≡ gone) ⊎ ((view failing).current ≡ some 0))
runner-Slot_example =
    runner-Slot applied failing 0
      (Single.next Single.start (Single.applies world static_client (fixed static_client)))
      failing-Reach

abbrev stopping : Threads
stopping = cancel_current 0 failing

stopping-Reach : Reach stopping
unfolding start_new run_returned
stopping-Reach = next failing-Reach (cancels 0 refl refl)

stop_returns_example : (0 ≤ 4) × ((stopping.stopping ≡ false) ⊎ ((v : Threads) × Step stopping v))
stop_returns_example = stop_returns stopping stopping 0 stopping-Reach here

abbrev client_files : Files Client
client_files = record { read = λ p. some []; decode = λ t. some static_client }

abbrev flags : Flags
flags = record {
  config_path = codes "client_config.json";
  debug = false;
  check_only = false;
  show_version = false;
}

client_check_predicts_example :
    ((e : Error) × ((checked beside client_files sample_hmac json world false [] [] flags).result
        ≡ some (err e))
      × ((real beside client_files sample_hmac json world false [] [] flags).result ≡ some (err e)))
    ⊎ ((cfg : Client) × IsValid cfg
        × (load_client beside client_files (codes "client_config.json") ≡ ok cfg)
        × ((checked beside client_files sample_hmac json world false [] [] flags).result
            ≡ some (ok tt))
        × ((real beside client_files sample_hmac json world false [] [] flags).result
            ≡ tunnel beside client_files sample_hmac json world false [] [] flags cfg)
        × Outcome cfg (tunnel beside client_files sample_hmac json world false [] [] flags cfg))
client_check_predicts_example =
    client_check_predicts beside client_files sample_hmac json world false [] [] flags refl
