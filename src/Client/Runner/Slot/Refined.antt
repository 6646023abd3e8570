-- ===== src/Client/Runner/Slot/Refined.antt =====
-- internal/client/runner.go: `apply` and `stop`, and the goroutines behind them, seen as one slot.
use g_tun.Prelude.{ℕ, suc, Option, none, some, ◌≡◌, subst, ap, ◌⊎◌, inl, inr, Option-cases, arith}
use g_tun.Control.{Settings}
use g_tun.Config.Client.{Client}
use g_tun.Client.Runner.{Running, Runner, World, stop, apply}
use g_tun.Client.Runner.Apply.{apply_cases}
use g_tun.Client.Runner.Single
use g_tun.Client.Runner.Threads.{
  Threads, gone, start_new, cancel_current, join_current, run_returned, wake, interrupt,
}
use g_tun.Client.Runner.Threads
use g_tun.Client.Runner.Threads.Joined.{goroutine_alone}
use g_tun.Client.Runner.Slot.{Slot, fills, empties, Reach, start, next}

abbrev number_of : Option Running → Option ℕ
number_of none = none
number_of (some run) = some run.number

-- The slot of the runner whose operations are atomic, and that of its goroutines.
abbrev pub slot_of : Runner → Slot
slot_of r = record { current = number_of r.current; started = r.started; stopped = r.stopped }

abbrev pub view : Threads → Slot
view t = record { current = t.current; started = t.started; stopped = t.stopped }

Step-Reach : {t t' : Threads} → Threads.Step t t' → Reach (view t) → Reach (view t')
unfolding start_new cancel_current join_current run_returned wake interrupt
Step-Reach (Threads.starts e) r = next r (fills e)
Step-Reach (Threads.cancels n e s) r = r
Step-Reach (Threads.joins n e s over) r = next r (empties n e)
Step-Reach (Threads.ends e) r = r
Step-Reach (Threads.returns n b e) r = r
Step-Reach (Threads.wakes n b e) r = r
Step-Reach (Threads.interrupts n b e d) r = r

threads-Reach : {t : Threads} → Threads.Reach t → Reach (view t)
threads-Reach Threads.start = start
threads-Reach (Threads.next r st) = Step-Reach st (threads-Reach r)

stop-Reach : (r : Runner) → Reach (slot_of r) → Reach (slot_of (stop r))
unfolding stop
stop-Reach r reached = elim (Option-cases r.current) [
  | inl e ↦ rw e (rw e at reached)
  | inr (run, e) ↦ rw e (next reached (empties run.number (ap number_of e)))
]

stop_lem : (r : Runner) → (number_of (stop r).current ≡ none) × ((stop r).started ≡ r.started)
unfolding stop
stop_lem r = (ground arith, ground arith)

apply-Reach :
    (w : World) (cfg : Client) (settings : Settings) (r : Runner)
    → Reach (slot_of r)
    → Reach (slot_of (apply w cfg settings r).1)
apply-Reach w cfg settings r reached = elim (apply_cases w cfg settings r) [
  | inl (run, found, same, live, out) ↦ rw out reached
  | inr (inl (tr, made, out)) ↦ rw out (
      subst
        (λ (n : ℕ).
          Reach (record { current = some n; started = suc n; stopped = (stop r).stopped }))
        (stop_lem r).1 (next stopped (fills (stop_lem r).0)))
  | inr (inr (e, failed, out)) ↦ rw out stopped
]
  where
    stopped : Reach (slot_of (stop r))
    stopped = stop-Reach r reached

runner-Reach : {r : Runner} → Single.Reach r → Reach (slot_of r)
runner-Reach Single.start = start
runner-Reach (Single.next r (Single.applies w cfg settings)) =
    apply-Reach w cfg settings _ (runner-Reach r)
runner-Reach (Single.next r Single.stops) = stop-Reach _ (runner-Reach r)

-- The runner keeps the promise of one slot, which takes a transport only while it is empty, and is
-- emptied only when its transport was stopped. This holds of every history of announcements and
-- stops, and of every history of the goroutines behind them: what `supervise` does in between, its
-- restarts and waits included, is not seen at the slot. Only the transport in the slot has a
-- goroutine that is not past its end: so two transports never run at the same time.
pub runner-Slot :
    (r : Runner) (t : Threads) (n : ℕ)
    → Single.Reach r
    → Threads.Reach t
    → Reach (slot_of r) × Reach (view t) × ((t.phases n ≡ gone) ⊎ ((view t).current ≡ some n))
runner-Slot r t n reached reached' =
    (runner-Reach reached, threads-Reach reached', (goroutine_alone t n n reached').0)
