-- ===== src/Client/Runner/Apply.antt =====
-- internal/client/runner.go: what `apply` does.
use g_tun.Prelude.{◌≡◌, ◌⊎◌, inl, inr, true, false, Bool-cases, Option-cases, some, suc, arith}
use g_tun.Result.{Result, ok, err, Error, Result-cases}
use g_tun.Control.{Settings}
use g_tun.Control.Equal.{equal_iff}
use g_tun.Config.Client.{Client}
use g_tun.Transport.Options
use g_tun.Client.Runner.{Running, Runner, World, stop, make, keeps, run_new, apply}

-- The three ends of `apply`: the transport that runs has the settings, and is kept; the one that ran
-- was stopped and a new one runs with the settings; it was stopped, and no new one could be made.
abbrev Kept : World → Settings → Runner → Result (Unit {0}) × Runner → Type 0
Kept w settings r out =
    (run : Running) × (r.current ≡ some run)
    × (run.settings ≡ settings)
    × (w.done run.number ≡ false)
    × (out ≡ (ok tt, r))

abbrev Replaced : World → Client → Settings → Runner → Result (Unit {0}) × Runner → Type 0
Replaced w cfg settings r out =
    (tr : Options.Client) × (make w cfg settings ≡ ok tr)
    × (out ≡ (
      ok tt,
      record (stop r) {
        current = some (record { settings = settings; number = r.started; transport = tr });
        started = suc r.started;
      },
    ))

abbrev Failed : World → Client → Settings → Runner → Result (Unit {0}) × Runner → Type 0
Failed w cfg settings r out = (e : Error) × (make w cfg settings ≡ err e) × (out ≡ (err e, stop r))

module _ (w : World) (cfg : Client) (settings : Settings) (r : Runner) where
  kept : keeps w settings r.current ≡ true → Kept w settings r (apply w cfg settings r)
  unfolding apply keeps
  kept h = elim (Option-cases r.current) [
    | inl absent ↦ cc (rw absent at h)
    | inr (run, found) ↦ (
      run,
      found,
      (equal_iff run.settings settings).0 (ground (arith, rw found at h)),
      ground (arith, rw found at h),
      rw h,
    )
  ]

  started-stop : (stop r).started ≡ r.started
  unfolding stop
  started-stop = ground arith

  -- `apply` keeps the transport that runs if it has the announced settings and has not given up, and
  -- then changes nothing. Otherwise it stops the one that runs and starts one for the settings, or
  -- reports why there is none, and then nothing runs.
  pub apply_cases :
      Kept w settings r (apply w cfg settings r)
      ⊎ Replaced w cfg settings r (apply w cfg settings r)
      ⊎ Failed w cfg settings r (apply w cfg settings r)
  unfolding apply run_new
  apply_cases = elim (Bool-cases (keeps w settings r.current)) [
    | inl h ↦ inl (kept h)
    | inr h ↦ elim (Result-cases (make w cfg settings)) [
      | inl (tr, e) ↦ inr (inl (tr, e, rw (h, e, started-stop)))
      | inr (x, e) ↦ inr (inr (x, e, rw (h, e)))
    ]
  ]
