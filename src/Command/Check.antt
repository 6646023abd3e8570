-- ===== src/Command/Check.antt =====
-- cmd/g-tun-server/main.go and cmd/g-tun-client/main.go: what `-check` says of a run.
use g_tun.Prelude.{◌≡◌, refl, ◌∙◌, Bytes, true, false, Option, some, ◌⊎◌, inl, inr}
use g_tun.Result.{Result, ok, err, Error, load_key_pair, Result-cases}
use g_tun.Tls.{TlsFiles}
use g_tun.Config.Load.{Files, load_server, load_server_iff}
use g_tun.Config.Server
use g_tun.Server.{Service, start}
use g_tun.Server.Start.{Serves, start_cases}
use g_tun.Command.{Flags, CommandRun, run_command, loaded, server_command, serve_started}

module _ {Cfg : Type 0} (load : Bytes → Result Cfg) (serve : Cfg → Option (Result (Unit {0})))
    (version : Bytes) (flags : Flags) where
  abbrev with_check : CommandRun
  with_check = run_command load serve version (record flags { check_only = true })

  abbrev without_check : CommandRun
  without_check = run_command load serve version (record flags { check_only = false })

  pub loads :
      flags.show_version ≡ false
      → (cfg : Cfg) → load flags.config_path ≡ ok cfg
      → (with_check.result ≡ some (ok tt)) × (without_check.result ≡ serve cfg)
  unfolding run_command loaded
  loads asked cfg e = (rw (asked, e) refl, rw (asked, e) refl)

  pub loads_not :
      flags.show_version ≡ false
      → (x : Error) → load flags.config_path ≡ err x
      → (with_check.result ≡ some (err x)) × (without_check.result ≡ some (err x))
  unfolding run_command loaded
  loads_not asked x e = (rw (asked, e) refl, rw (asked, e) refl)

module _ (files : Files Server.Server) (tls_files : TlsFiles)
    (waits : Service → Option (Result (Unit {0}))) (version : Bytes) (flags : Flags) where
  abbrev pub checked : CommandRun
  checked = server_command files tls_files waits version (record flags { check_only = true })

  abbrev pub real : CommandRun
  real = server_command files tls_files waits version (record flags { check_only = false })

  -- Where the server command is not asked for its version, `-check` predicts the run without it. If
  -- `-check` fails, the run fails with the same error and starts nothing. If it succeeds, the run
  -- waits for the listeners of a transport that serves the configuration, or fails on the key pair's
  -- files, which `-check` does not read.
  pub check_predicts :
      flags.show_version ≡ false
      → ((e : Error) × (checked.result ≡ some (err e)) × (real.result ≡ some (err e)))
        ⊎ ((cfg : Server.Server) × Server.IsValid cfg
            × (load_server files flags.config_path ≡ ok cfg)
            × (checked.result ≡ some (ok tt))
            × (((s : Service) × Serves tls_files cfg s × (real.result ≡ waits s))
                ⊎ (real.result ≡ some (err load_key_pair))))
  unfolding server_command serve_started
  check_predicts asked = elim (Result-cases (load_server files flags.config_path)) [
    | inr (e, found) ↦
        let (check, run) =
          loads_not (load_server files) (λ c. serve_started waits (start tls_files c)) version flags
            asked e found in
        inl (e, check, run)
    | inl (cfg, found) ↦
        let (check, run) =
          loads (load_server files) (λ c. serve_started waits (start tls_files c)) version flags
            asked cfg found in
        let (raw, stored, filled, valid) = (load_server_iff files flags.config_path cfg).0 found in
        inr (
          cfg,
          valid,
          found,
          check,
          elim (start_cases tls_files cfg valid) [
            | inl (s, ok_s, serves) ↦ inl (s, serves, run ∙ rw ok_s refl)
            | inr (kcp, failed, no_pair) ↦ inr (run ∙ rw failed refl)
          ],
        )
  ]
