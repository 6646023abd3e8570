-- ===== src/Command/Outcome.antt =====
-- cmd/g-tun-client/main.go: what `-check` says of a run of the client.
use g_tun.Prelude.{◌≡◌, Bytes, true, false, Bool, List, some, Option, ◌⊎◌, inl, inr}
use g_tun.Result.{Result, ok, err, Error, Result-cases}
use g_tun.Auth.Mac.{Hmac}
use g_tun.Control.{Json}
use g_tun.Config.Load.{Files, load_client, load_client_iff}
use g_tun.Config.Client
use g_tun.Client.Runner.{World}
use g_tun.Client.Process.{Turn, run_client}
use g_tun.Client.Process.Outcome.{Outcome, run-Outcome}
use g_tun.Command.{Flags, CommandRun, client_command}
use g_tun.Command.Check.{loads, loads_not}

module _ (beside : Bytes → Bytes → Bytes) (files : Files Client.Client) (h : Hmac) (json : Json)
    (w : World) (done : Bool) (turns : List Turn) (version : Bytes) (flags : Flags) where
  -- The tunnel of a configuration, and the two runs of the command.
  abbrev pub tunnel : Client.Client → Option (Result (Unit {0}))
  tunnel cfg = (run_client h json cfg w done turns).result

  abbrev pub checked : CommandRun
  checked = client_command beside files tunnel version (record flags { check_only = true })

  abbrev pub real : CommandRun
  real = client_command beside files tunnel version (record flags { check_only = false })

  -- Where the client command is not asked for its version, `-check` predicts the run without it. If
  -- `-check` fails, the run fails with the same error. If it succeeds, the run goes on until it
  -- returns nil, whatever the servers and the network do, or fails since a file that a fixed
  -- protocol needs, which `-check` does not read, is unusable.
  pub client_check_predicts :
      flags.show_version ≡ false
      → ((e : Error) × (checked.result ≡ some (err e)) × (real.result ≡ some (err e)))
        ⊎ ((cfg : Client.Client) × Client.IsValid cfg
            × (load_client beside files flags.config_path ≡ ok cfg)
            × (checked.result ≡ some (ok tt))
            × (real.result ≡ tunnel cfg)
            × Outcome cfg (tunnel cfg))
  unfolding client_command
  client_check_predicts asked = elim (Result-cases (load_client beside files flags.config_path)) [
    | inr (e, found) ↦
        let (check, run) =
          loads_not (load_client beside files) tunnel version flags asked e found in
        inl (e, check, run)
    | inl (cfg, found) ↦
        let (check, run) = loads (load_client beside files) tunnel version flags asked cfg found in
        let (raw, stored, filled, valid) =
          (load_client_iff beside files flags.config_path cfg).0 found in
        inr (cfg, valid, found, check, run, run-Outcome h json cfg w done turns valid)
  ]
