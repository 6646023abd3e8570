-- ===== src/Server/Run/Ends.antt =====
-- internal/server/server.go: `Run` returns once its listeners have.
use g_tun.Prelude.{
  ℕ, zero, suc, ◌+◌, ◌-◌, ◌*◌, ◌<◌, ◌≤◌, ◌≡◌, refl, ap, List, [], ◌∷◌, length, length-append,
  Option, ◌⊎◌, inl, inr, arith,
}
use g_tun.Result.{Error}
use g_tun.Server.{Service}
use g_tun.Server.Run.{
  Listener, listeners, errs_capacity, Report, Stage, waiting, joining, returned, Process, Without,
  Step, ends, first, joins, finishes, Reach, start, next, push_report,
}
use g_tun.Server.Run.Joins.{Counted, Reach-Counted, Without-length}

abbrev stage_left : Stage → ℕ
stage_left waiting = 1
stage_left (joining n es) = 1
stage_left (returned es) = 0

-- Each listener still has a report to make, and each report is still to be received.
abbrev left : Process → ℕ
left p = 2 * length p.running + length p.errs + stage_left p.stage

Step_less : {total : ℕ} {p q : Process} → Step total p q → left q < left p
Step_less {p = p} (ends l error rest w room) =
    omega
      (arith, Without-length l w, length-append p.errs (record { from = l; error = error } ∷ []))
Step_less {p = p} (first r rest n was e enough) = omega (arith, ap length e, ap stage_left was)
Step_less {p = p} (joins r rest n es was e) = omega (arith, ap length e, ap stage_left was)
Step_less {p = p} (finishes es was) = omega (arith, ap stage_left was)

Reach_bound :
    {ls : List Listener} {n : ℕ} {p : Process} → Reach ls n p → n + left p ≤ 2 * length ls + 1
Reach_bound start = omega arith
Reach_bound (next r st) = omega (arith, Reach_bound r, Step_less st)

listeners-length : (s : Service) → (0 < length (listeners s)) × (length (listeners s) ≤ 2)
unfolding listeners
listeners-length s = ground arith

abbrev pub HasReturned : Process → Type 0
HasReturned p = (es : List Error) × (p.stage ≡ returned es)

module _ (s : Service) (n : ℕ) (p : Process) (r : Reach (listeners s) n p) where
  abbrev Steps : Type 0
  Steps = (q : Process) × Step (length (listeners s)) p q

  idle_steps : p.running ≡ [] → HasReturned p ⊎ Steps
  idle_steps idle = go p.stage p.errs refl refl
    where
      c : Counted (listeners s) p
      c = Reach-Counted r

      go : (x : Stage) (es : List Report) → p.stage ≡ x → p.errs ≡ es → HasReturned p ⊎ Steps
      go waiting [] e e' = absurd (
          let none_yet : c.received ≡ [] = (rw e at c.staged) in
          omega (
            arith,
            (listeners-length s).0,
            c.total,
            ap length c.queued,
            length-append c.received p.errs,
            ap length none_yet,
            ap length e',
            ap length idle,
          ))
      go waiting (x ∷ xs) e e' =
          inr
            (_, first x xs (length (listeners s) - 1) e e' (omega (arith, (listeners-length s).0)))
      go (joining zero es) xs e e' = inr (_, finishes es e)
      go (joining (suc k) es) [] e e' = absurd (
          let (still, _, _) = (rw e at c.staged) in
          omega (
            arith,
            c.total,
            ap length c.queued,
            length-append c.received p.errs,
            still,
            ap length e',
            ap length idle,
          ))
      go (joining (suc k) es) (x ∷ xs) e e' = inr (_, joins x xs k es e e')
      go (returned es) xs e e' = inl (es, e)

  room :
      (l : Listener) (rest : List Listener)
      → Without l p.running rest
      → length p.errs < errs_capacity
  room l rest w =
      let c = Reach-Counted r in
      omega (
        arith,
        (listeners-length s).1,
        Without-length l w,
        c.total,
        ap length c.queued,
        length-append c.received p.errs,
      )

-- The server's `Run` returns once its listeners have, after five steps at most of its goroutines: a
-- listener that returns finds room for its report on the channel, so that no goroutine is left
-- blocked, and `Run` has returned or can go on, unless a listener is still running.
pub run_ends :
    (s : Service) (n : ℕ) (p : Process)
    → Reach (listeners s) n p
    → (n ≤ 5)
      × ((l : Listener) (error : Option Error) (rest : List Listener)
          → Without l p.running rest
          → Step
              (length (listeners s))
              p
              (push_report (record { from = l; error = error }) (record p { running = rest })))
      × (HasReturned p ⊎ ((q : Process) × Step (length (listeners s)) p q) ⊎ (0 < length p.running))
run_ends s n p r = (
  omega (arith, Reach_bound r, (listeners-length s).1),
  λ l error rest w. ends l error rest w (room s n p r l rest w),
  go p.running refl,
)
  where
    go :
        (ls : List Listener)
        → p.running ≡ ls
        → HasReturned p ⊎ ((q : Process) × Step (length (listeners s)) p q) ⊎ (0 < length p.running)
    go [] e = elim (idle_steps s n p r e) [ inl h ↦ inl h | inr st ↦ inr (inl st) ]
    go (l ∷ ls) e = inr (inr (rw e (omega arith)))
