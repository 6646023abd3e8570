-- ===== src/Client/Process/Outcome.antt =====
-- internal/client/client.go: how `Run` ends.
use g_tun.Prelude.{
  ℕ, ◌*◌, min, ◌≡◌, ◌≢◌, refl, bytes_eq-cases, Bool, true, false, Option, none, some, List, [], ◌∷◌,
  ◌⊎◌, inl, inr, if◌then◌else◌,
}
use g_tun.Result.{Result, ok, err, Error}
use g_tun.Auth.Mac.{Hmac}
use g_tun.Control.{Json}
use g_tun.Config.Client.{Client, IsValid}
use g_tun.Client.Loop.{max_backoff, min_backoff, reset}
use g_tun.Client.Runner.{Runner, World, new_runner}
use g_tun.Client.Control.{run_static}
use g_tun.Client.Control.Static.{IsFileError, run_static_starts}
use g_tun.Client.Process.{Turn, Ended, attempt, finish_static, run_turns, run_client, sleep}

abbrev Quiet : Option (Result (Unit {0})) → Type 0
Quiet x = (x ≡ none) ⊎ (x ≡ some (ok tt))

if-Quiet :
    (b : Bool) (x y : Ended) → Quiet x.result → Quiet y.result → Quiet (if b then x else y).result
if-Quiet true x y qx qy = qx
if-Quiet false x y qx qy = qy

sleep-Quiet :
    (n : ℕ) (b : Bool) (r : Runner) (rest : Ended)
    → Quiet rest.result
    → Quiet (sleep n b r rest).result
sleep-Quiet n true r rest q = inr refl
sleep-Quiet n false r rest q = q

-- `Run` goes on or has returned nil, or one of the files that a fixed protocol needs is unusable.
abbrev pub Outcome : Client → Option (Result (Unit {0})) → Type 0
Outcome cfg x =
    (x ≡ none)
    ⊎ (x ≡ some (ok tt))
    ⊎ ((e : Error) × (x ≡ some (err e)) × (cfg.protocol ≢ []) × IsFileError e)

quiet : (cfg : Client) (x : Option (Result (Unit {0}))) → Quiet x → Outcome cfg x
quiet cfg x (inl q) = inl q
quiet cfg x (inr q) = inr (inl q)

module _ (h : Hmac) (json : Json) (cfg : Client) where
  turns-Quiet : (ts : List Turn) (b : ℕ) (r : Runner) → Quiet (run_turns h json cfg b r ts).result
  unfolding run_turns
  turns-Quiet [] b r = inl refl
  turns-Quiet (t ∷ ts) b r =
      let a = attempt h json cfg t.world t.conn r in
      if-Quiet t.done _ _ (inr refl) (
        sleep-Quiet _ t.cancelled _ _
          (turns-Quiet ts (min (2 * reset a.established b) max_backoff) a.runner))

  finish-Quiet :
      (done : Bool) (out : Result (Unit {0}) × Runner)
      → out.0 ≡ ok tt
      → Quiet (finish_static done out).result
  unfolding finish_static
  finish-Quiet done (err e, r) h = cc
  finish-Quiet true (ok u, r) h = inr refl
  finish-Quiet false (ok u, r) h = inl refl

  static-Outcome :
      (w : World) (done : Bool)
      → IsValid cfg
      → cfg.protocol ≢ []
      → Outcome cfg (finish_static done (run_static w cfg new_runner)).result
  unfolding finish_static
  static-Outcome w done valid named = elim (run_static_starts w cfg new_runner valid named refl) [
    | inl (tr, started, now) ↦ quiet cfg _ (finish-Quiet done _ started)
    | inr (e, failed, file) ↦ rw failed (inr (inr (e, refl, named, file)))
  ]

  pub run-Outcome :
      (w : World) (done : Bool) (turns : List Turn)
      → IsValid cfg
      → Outcome cfg (run_client h json cfg w done turns).result
  unfolding run_client
  run-Outcome w done turns valid = elim (bytes_eq-cases cfg.protocol []) [
    | inl (e, p) ↦ rw e (quiet cfg _ (turns-Quiet turns min_backoff new_runner))
    | inr (e, ne) ↦ rw e (static-Outcome w done valid ne)
  ]
