-- ===== src/Client/Runner/Threads/Joined.antt =====
-- internal/client/runner.go: one goroutine at a time, and `stop` returns.
use g_tun.Prelude.{
  ℕ, suc, ◌+◌, ◌<◌, ◌≤◌, true, false, Option, none, some, ==_iff, if◌then◌else◌, ◌≡◌, ◌≢◌, ◌⊎◌, inl,
  inr, refl, arith, Bool-cases,
}
use g_tun.Client.Runner.Threads.{
  Phase, running, pausing, gone, Threads, start_new, cancel_current, join_current, run_returned,
  wake, interrupt, Step, starts, cancels, joins, ends, returns, wakes, interrupts, Reach, start,
  next,
}

record Alone (t : Threads) : Type 0 where
  -- Only the current transport has a goroutine that is not past its end.
  pub alone : (n : ℕ) → (t.phases n ≡ gone) ⊎ (t.current ≡ some n)
  -- `stopLocked` waits for a transport that it has cancelled.
  pub waits : t.stopping ≡ true → (n : ℕ) × (t.current ≡ some n) × (t.cancelled n ≡ true)

Step-Alone : {t t' : Threads} → Step t t' → Alone t → Alone t'
unfolding start_new cancel_current join_current run_returned wake interrupt
Step-Alone {t} (starts e) a = record {
  alone = λ n. ground (arith, a.alone n);
  waits = λ s. let (n, e', c) = a.waits s in cc;
}
Step-Alone {t} (cancels n e s) a = record { alone = a.alone; waits = λ _. (n, e, ground arith) }
Step-Alone {t} (joins n e s over) a = record {
  alone = λ m. ground (arith, a.alone m);
  waits = λ s'. cc;
}
Step-Alone {t} (ends e) a = record { alone = a.alone; waits = a.waits }
Step-Alone {t} (returns n b e) a = record {
  alone = λ m. ground (arith, a.alone m);
  waits = a.waits;
}
Step-Alone {t} (wakes n b e) a = record { alone = λ m. ground (arith, a.alone m); waits = a.waits }
Step-Alone {t} (interrupts n b e d) a = record {
  alone = λ m. ground (arith, a.alone m);
  waits = a.waits;
}

Reach-Alone : {t : Threads} → Reach t → Alone t
Reach-Alone start = record { alone = λ n. inl refl; waits = λ s. cc }
Reach-Alone (next r st) = Step-Alone st (Reach-Alone r)

-- In every history of announcements, stops and transports that fail and restart, at most one
-- transport has a goroutine that is not past its end, and it is the runner's current one: `apply`
-- starts a transport only when the goroutine of the one before has returned.
pub goroutine_alone :
    (t : Threads) (n m : ℕ)
    → Reach t
    → ((t.phases n ≡ gone) ⊎ (t.current ≡ some n))
      × ((t.phases n ≡ gone) ⊎ (t.phases m ≡ gone) ⊎ (n ≡ m))
goroutine_alone t n m r =
    let a : Alone t = Reach-Alone r in (a.alone n, ground (arith, a.alone n, a.alone m))

-- A stretch of steps during which `stopLocked` waits.
pub data Waiting (t : Threads) : ℕ → Threads → Type 0 where
  here : Waiting t 0 t
  later :
      {k : ℕ} {u v : Threads} → Waiting t k u → u.stopping ≡ true → Step u v → Waiting t (suc k) v

abbrev phase_left : Phase → ℕ
phase_left (running b) = 1
phase_left (pausing b) = 2
phase_left gone = 0

abbrev current_left : Threads → Option ℕ → ℕ
current_left t none = 0
current_left t (some n) = phase_left (t.phases n)

-- How many steps the wait can still last.
abbrev left : Threads → ℕ
left t = if t.stopping then 1 + (current_left t t.current + (if t.over then 0 else 1)) else 0

-- The goroutine that is not past its end is the one that `stopLocked` waits for.
busy-awaited :
    (t : Threads) (n : ℕ)
    → Alone t
    → t.stopping ≡ true
    → t.phases n ≢ gone
    → (t.current ≡ some n) × (t.cancelled n ≡ true)
busy-awaited t n a s busy = let (m, e, c) = a.waits s in ground (arith, a.alone n, e, c)

Step_less : {t u : Threads} → Step t u → Alone t → t.stopping ≡ true → left u < left t
unfolding start_new cancel_current join_current run_returned wake interrupt
Step_less {t} (starts e) a s = let (n, e', c) = a.waits s in cc
Step_less {t} (cancels n e s') a s = cc
Step_less {t} (joins n e s' over) a s = ground arith
Step_less {t} (ends e) a s = ground arith
Step_less {t} (returns n b e) a s =
    let (now, c) = busy-awaited t n a s (λ h. cc) in ground (arith, ==_iff n n)
Step_less {t} (wakes n b e) a s =
    let (now, c) = busy-awaited t n a s (λ h. cc) in ground (arith, ==_iff n n)
Step_less {t} (interrupts n b e d) a s =
    let (now, c) = busy-awaited t n a s (λ h. cc) in ground (arith, ==_iff n n)

stopping_steps : (t : Threads) → Alone t → t.stopping ≡ true → (u : Threads) × Step t u
stopping_steps t a s = let (n, e, c) = a.waits s in go n e c (t.phases n) refl
  where
    go :
        (n : ℕ)
        → t.current ≡ some n
        → t.cancelled n ≡ true
        → (x : Phase) → t.phases n ≡ x
        → (u : Threads) × Step t u
    go n e c (running b) h = (_, returns n b h)
    go n e c (pausing b) h = (_, interrupts n b h (rw c refl))
    go n e c gone h = (_, joins n e s h)

Waiting-Alone : {t u : Threads} {k : ℕ} → Waiting t k u → Alone t → Alone u
Waiting-Alone here a = a
Waiting-Alone (later w s st) a = Step-Alone st (Waiting-Alone w a)

Waiting_bound : {t u : Threads} {k : ℕ} → Waiting t k u → Alone t → k + left u ≤ left t
Waiting_bound here a = omega arith
Waiting_bound (later w s st) a =
    omega (arith, Waiting_bound w a, Step_less st (Waiting-Alone w a) s)

phase_bound : (x : Phase) → phase_left x ≤ 2
phase_bound (running b) = omega arith
phase_bound (pausing b) = omega arith
phase_bound gone = omega arith

left_bound : (t : Threads) → left t ≤ 4
left_bound t =
    elim t.current
      as (λ o. (if t.stopping then 1 + (current_left t o + (if t.over then 0 else 1)) else 0) ≤ 4) [
        | none ↦ ground arith
        | some n ↦ ground (arith, phase_bound (t.phases n))
      ]

-- `stopLocked` never waits for ever, whatever the goroutines do, as long as the `Run` of a transport
-- returns once its context is done: while it waits there is a next step, and after at most four
-- steps it has gone on.
pub stop_returns :
    (t u : Threads) (k : ℕ)
    → Reach t
    → Waiting t k u
    → (k ≤ 4) × ((u.stopping ≡ false) ⊎ ((v : Threads) × Step u v))
stop_returns t u k r w = (
  omega (arith, Waiting_bound w (Reach-Alone r), left_bound t),
  elim (Bool-cases u.stopping) [
    | inl still ↦ inr (stopping_steps u (Waiting-Alone w (Reach-Alone r)) still)
    | inr e ↦ inl e
  ],
)
