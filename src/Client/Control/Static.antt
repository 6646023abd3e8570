-- ===== src/Client/Control/Static.antt =====
-- internal/client/client.go: a validated configuration with a fixed protocol.
use g_tun.Prelude.{◌≡◌, ◌≢◌, ◌⊎◌, inl, inr, Bytes, none, some, [], arith, ap, ◌∙◌}
use g_tun.Result.{Result, ok, err, Error, Result-cases, read_ca_file, no_certificates, read_pinned}
use g_tun.Config.Client.{Client, IsValid}
use g_tun.Transport.Options
use g_tun.Transport.Options.Accepted.{new_client_error}
use g_tun.Client.Runner.{Runner, World, stop, client_options, root_cas, load_cert_pool, make}
use g_tun.Client.Runner.Apply.{apply_cases}
use g_tun.Control.{Settings}
use g_tun.Client.Control.{run_static}

-- An error of the files that the configuration names: the roots, or the pinned certificate.
abbrev pub IsFileError : Error → Type 0
IsFileError e = (e ≡ read_ca_file) ⊎ (e ≡ no_certificates) ⊎ (e ≡ read_pinned)

pool_error : (w : World) (path : Bytes) (e : Error) → load_cert_pool w path ≡ err e → IsFileError e
unfolding load_cert_pool
pool_error w path e h = ground arith

root_cas_error : (w : World) (cfg : Client) (e : Error) → root_cas w cfg ≡ err e → IsFileError e
unfolding root_cas
root_cas_error w cfg e h = ground (arith, pool_error w cfg.stealth_ca_file e)

-- The settings of a fixed transport.
abbrev pub fixed : Client → Settings
fixed cfg = record { protocol = cfg.protocol; port = cfg.data_port; kcp = none }

module _ (w : World) (cfg : Client) (r : Runner) (valid : IsValid cfg) where
  make_error : cfg.protocol ≢ [] → (e : Error) → make w cfg (fixed cfg) ≡ err e → IsFileError e
  unfolding make client_options
  make_error named e h = elim (Result-cases (root_cas w cfg)) [
    | inl (roots, made) ↦ inr (
        inr (
          new_client_error w.files (client_options cfg (fixed cfg) roots) e
            (valid.static named).known (valid.static named).sni (rw made at h)))
    | inr (x, failed) ↦
        let same : x ≡ e = cc (rw failed at h) in root_cas_error w cfg e (failed ∙ ap err same)
  ]

  stop_nothing : r.current ≡ none → stop r ≡ r
  unfolding stop
  stop_nothing idle = rw idle

  -- With a validated configuration that names a protocol, `runStatic` starts the transport, or fails
  -- for one reason only: a file that the configuration names, the roots or the pinned certificate,
  -- cannot be read or holds no certificate.
  pub run_static_starts :
      cfg.protocol ≢ []
      → r.current ≡ none
      → ((tr : Options.Client) × ((run_static w cfg r).0 ≡ ok tt)
          × ((run_static w cfg r).1.current
              ≡ some (record { settings = fixed cfg; number = r.started; transport = tr })))
        ⊎ ((e : Error) × (run_static w cfg r ≡ (err e, r)) × IsFileError e)
  unfolding run_static
  run_static_starts named idle = elim (apply_cases w cfg (fixed cfg) r) [
    | inl (run, found, _, _, _) ↦ cc
    | inr (inl (tr, _, out)) ↦ inl (
      tr,
      ap (λ (x : Result (Unit {0}) × Runner). x.0) out,
      ap (λ (x : Result (Unit {0}) × Runner). x.1.current) out,
    )
    | inr (inr (e, failed, out)) ↦
        inr
          (e, out ∙ ap (λ (s : Runner). (err e, s)) (stop_nothing idle), make_error named e failed)
  ]
