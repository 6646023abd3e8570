-- ===== src/Netutil/Pipe/Progress.antt =====
-- internal/netutil/pipe.go: `Pipe` returns.
use g_tun.Prelude.{
  ℕ, suc, ◌+◌, ◌*◌, ◌≤◌, ◌<◌, ◌≡◌, refl, Bytes, Bool, true, false, not, Bool-cases, ◌⊎◌, inl, inr,
  [], ◌∷◌, length, ap, length-take, length-drop, arith,
}
use g_tun.Netutil.Pipe.{
  Stage, copying, ended, done, Half, Pipe, Step, reads, writes, sees_eof, read_fails, write_fails,
  breaks, finishes, returns, read_chunk, write_chunk, init, with_half,
}

abbrev stage_left : Stage → ℕ
stage_left copying = 2
stage_left ended = 1
stage_left done = 0

-- How many steps a half can still make, at most: each byte is read and written.
abbrev half_left : Half → ℕ
half_left c = 2 * length c.incoming + length c.pending + stage_left c.stage

abbrev call_left : Bool → ℕ
call_left true = 0
call_left false = 1

abbrev pub left : Pipe → ℕ
left p = half_left (p.halves true) + half_left (p.halves false) + call_left p.returned

read_less :
    (n : ℕ) (c : Half)
    → c.pending ≡ []
    → 0 < n
    → n ≤ length c.incoming
    → half_left (read_chunk n c) < half_left c
unfolding read_chunk
read_less n c empty some fits =
    omega (arith, length-take n c.incoming, length-drop n c.incoming, ap length empty)

write_less : (c : Half) → 0 < length c.pending → half_left (write_chunk c) < half_left c
unfolding write_chunk
write_less c some = omega arith

-- A half that has less to do leaves the whole with less.
side_less :
    (p : Pipe) (s : Bool) (c : Half)
    → half_left c < half_left (p.halves s)
    → left (with_half p s c) < left p
side_less p true c h = omega arith
side_less p false c h = omega arith

stage_less :
    (c : Half) (stage : Stage)
    → stage_left stage < stage_left c.stage
    → half_left (record c { stage = stage }) < half_left c
stage_less c stage h = omega arith

ended_less : (c : Half) → c.stage ≡ copying → half_left (record c { stage = ended }) < half_left c
ended_less c h = stage_less c ended (rw h (omega arith))

done_less : (c : Half) → c.stage ≡ ended → half_left (record c { stage = done }) < half_left c
done_less c h = stage_less c done (rw h (omega arith))

Step_less : {p q : Pipe} → Step p q → left q < left p
Step_less {p} (reads s n h empty live some small fits) =
    side_less p s _ (read_less n (p.halves s) empty some fits)
Step_less {p} (writes s h some live) = side_less p s _ (write_less (p.halves s) some)
Step_less {p} (sees_eof s h empty eof live) = side_less p s _ (ended_less (p.halves s) h)
Step_less {p} (read_fails s h empty closed) = side_less p s _ (ended_less (p.halves s) h)
Step_less {p} (write_fails s h some closed) = side_less p s _ (ended_less (p.halves s) h)
Step_less {p} (breaks s h) = side_less p s _ (ended_less (p.halves s) h)
Step_less {p} (finishes s h) = side_less p s _ (done_less (p.halves s) h)
Step_less {p} (returns to_a to_b r) = rw r (omega arith)

abbrev CanStep : Pipe → Type 0
CanStep p = (q : Pipe) × Step p q

-- A half in its loop can read, write, or see that it is over.
copying_steps : (p : Pipe) (s : Bool) → (p.halves s).stage ≡ copying → CanStep p
copying_steps p s h = go (p.halves s).pending (p.halves s).incoming refl refl
  where
    go :
        (pending incoming : Bytes)
        → (p.halves s).pending ≡ pending
        → (p.halves s).incoming ≡ incoming
        → CanStep p
    go (b ∷ bs) incoming e _ = elim (Bool-cases (p.ends s).closed) [
      | inl closed ↦ (_, write_fails s h (rw e (omega arith)) closed)
      | inr live ↦ (_, writes s h (rw e (omega arith)) live)
    ]
    go [] [] e e' = elim (Bool-cases (p.ends (not s)).closed) [
      | inl closed ↦ (_, read_fails s h e closed)
      | inr live ↦ (_, sees_eof s h e e' live)
    ]
    go [] (b ∷ bs) e e' = elim (Bool-cases (p.ends (not s)).closed) [
      | inl closed ↦ (_, read_fails s h e closed)
      | inr live ↦ (_, reads s 1 h e live (omega arith) (omega arith) (rw e' (omega arith)))
    ]

half_steps : (p : Pipe) (s : Bool) → ((p.halves s).stage ≡ done) ⊎ CanStep p
half_steps p s = go (p.halves s).stage refl
  where
    go : (x : Stage) → (p.halves s).stage ≡ x → ((p.halves s).stage ≡ done) ⊎ CanStep p
    go copying e = inr (copying_steps p s e)
    go ended e = inr (_, finishes s e)
    go done e = inl e

can_step : (p : Pipe) → (p.returned ≡ true) ⊎ CanStep p
can_step p = elim (half_steps p true) [
  | inr st ↦ inr st
  | inl to_a ↦ elim (half_steps p false) [
    | inr st ↦ inr st
    | inl to_b ↦ elim (Bool-cases p.returned) [
      | inl r ↦ inl r
      | inr r ↦ inr (_, returns to_a to_b r)
    ]
  ]
]

-- A run of `n` steps from the start.
pub data Run (sent : Bool → Bytes) (close_write : Bool → Bool) : ℕ → Pipe → Type 0 where
  start : Run sent close_write 0 (init sent close_write)
  next : {n : ℕ} {p q : Pipe} → Run sent close_write n p → Step p q → Run sent close_write (suc n) q

Run_bound :
    (sent : Bool → Bytes) (close_write : Bool → Bool) {n : ℕ} {p : Pipe}
    → Run sent close_write n p
    → n + left p ≤ 2 * length (sent true) + 2 * length (sent false) + 5
Run_bound sent cw start = omega arith
Run_bound sent cw (next r st) = omega (arith, Run_bound sent cw r, Step_less st)

-- `Pipe` returns, whatever the order in which its two halves run, and whichever reads and writes
-- fail: once both sides have sent all that they send, a run has at most two steps for each byte and
-- five more, and a run that has not returned has a next step.
pub pipe_returns :
    (sent : Bool → Bytes) (close_write : Bool → Bool) (n : ℕ) (p : Pipe)
    → Run sent close_write n p
    → (n ≤ 2 * length (sent true) + 2 * length (sent false) + 5)
      × ((p.returned ≡ true) ⊎ ((q : Pipe) × Step p q))
pipe_returns sent cw n p r = (omega (arith, Run_bound sent cw r), can_step p)
