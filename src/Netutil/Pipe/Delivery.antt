-- ===== src/Netutil/Pipe/Delivery.antt =====
-- internal/netutil/pipe.go: what reaches the other side.
use g_tun.Prelude.{
  ℕ, ◌≤◌, ◌<◌, ◌≡◌, refl, sym, ap, ◌∙◌, Bytes, Bool, true, false, not, ◌⊎◌, inl, inr, [], ◌++◌,
  append-nil, arith,
}
use g_tun.Netutil.Pipe.{
  copying, done, Half, Pipe, Step, reads, writes, sees_eof, read_fails, write_fails, breaks,
  finishes, returns, with_half, Reach, start, next, set_side,
}
use g_tun.Netutil.Pipe.Halves.{
  stream, set_side-ind, side_new, copying-keeps, finish-keeps, read-stream, write-stream,
  read-stage, write-stage, finish-kept, finish-closed,
}

-- An error has ended the copy to side `s`: one of the network, or that of a read from the other end,
-- which `Close` had to close early.
abbrev pub Cut : (Bool → Bool) → ℕ → Bool → Type 0
Cut close_write faults s = (0 < faults) ⊎ (close_write (not s) ≡ false)

-- A half that is behind its loop has read and written everything, unless it was cut.
abbrev Drained : (Bool → Bool) → ℕ → Bool → Half → Type 0
Drained close_write faults s c =
    (c.stage ≡ copying) ⊎ ((c.pending ≡ []) × (c.incoming ≡ [])) ⊎ Cut close_write faults s

-- What holds in every reachable state, `sent` and `close_write` being those of the start.
record Piped (sent : Bool → Bytes) (close_write : Bool → Bool) (p : Pipe) : Type 0 where
  -- Nothing is lost on the way, doubled or reordered.
  pub whole : (s : Bool) → stream (p.halves s) ≡ sent s
  pub kept : (s : Bool) → (p.ends s).has_close_write ≡ close_write s
  pub drained : (s : Bool) → Drained close_write p.faults s (p.halves s)
  -- An end is closed early only if it has no `CloseWrite`, and the copy to it is over.
  pub early :
      (s : Bool)
      → (p.ends s).closed ≡ true
      → (p.returned ≡ true) ⊎ ((close_write s ≡ false) × ((p.halves s).stage ≡ done))
  pub late :
      p.returned ≡ true → (s : Bool) → ((p.ends s).closed ≡ true) × ((p.halves s).stage ≡ done)

module _ (sent : Bool → Bytes) (close_write : Bool → Bool) (p : Pipe)
    (inv : Piped sent close_write p) where
  copying-ne-done : (s : Bool) → (p.halves s).stage ≡ copying → p.returned ≡ true → ⊥
  copying-ne-done s h r = cc ((inv.late r s).1)

  -- The step of one half that leaves the ends alone.
  half_step :
      (s : Bool) (c : Half) (faults : ℕ)
      → (p.halves s).stage ≡ copying
      → stream c ≡ stream (p.halves s)
      → Drained close_write faults s c
      → p.faults ≤ faults
      → Piped sent close_write (record (with_half p s c) { faults = faults })
  half_step s c faults was same new grows = record {
    whole = set_side-ind (λ t x. stream x ≡ sent t) p.halves s c (same ∙ inv.whole s) inv.whole;
    kept = inv.kept;
    drained =
        set_side-ind (λ t x. Drained close_write faults t x) p.halves s c new
          λ t. later t (inv.drained t);
    early = λ t closed. elim (inv.early t closed) [
      | inl r ↦ absurd (copying-ne-done s was r)
      | inr (lacks, over) ↦ inr (lacks, copying-keeps p.halves s c was t over)
    ];
    late = λ r. absurd (copying-ne-done s was r);
  }
    where
      later :
          (t : Bool)
          → Drained close_write p.faults t (p.halves t)
          → Drained close_write faults t (p.halves t)
      later t (inl e) = inl e
      later t (inr (inl e)) = inr (inl e)
      later t (inr (inr (inl e))) = inr (inr (inl (omega arith)))
      later t (inr (inr (inr e))) = inr (inr (inr e))

  -- The end that a copying half writes to is open.
  written-open : (s : Bool) → (p.halves s).stage ≡ copying → (p.ends s).closed ≡ true → ⊥
  written-open s was h = elim (inv.early s h) [
    | inl r ↦ copying-ne-done s was r
    | inr (lacks, over) ↦ cc
  ]

  -- The other end, if closed, has cut a half that was copying.
  closed-Cut :
      (s : Bool)
      → (p.halves s).stage ≡ copying
      → (p.ends (not s)).closed ≡ true
      → Cut close_write p.faults s
  closed-Cut s was h = elim (inv.early (not s) h) [
    | inl r ↦ absurd (copying-ne-done s was r)
    | inr (lacks, over) ↦ inr lacks
  ]

Step-Piped :
    (sent : Bool → Bytes) (close_write : Bool → Bool) {p q : Pipe}
    → Step p q
    → Piped sent close_write p
    → Piped sent close_write q
Step-Piped sent cw {p} (reads s n h empty live some small fits) inv =
    half_step sent cw p inv s _ _ h (read-stream n (p.halves s) empty)
      (inl (read-stage n (p.halves s) ∙ h)) (omega arith)
Step-Piped sent cw {p} (writes s h some live) inv =
    half_step sent cw p inv s _ _ h (write-stream (p.halves s)) (inl (write-stage (p.halves s) ∙ h))
      (omega arith)
Step-Piped sent cw {p} (sees_eof s h empty eof live) inv =
    half_step sent cw p inv s _ _ h refl (inr (inl (empty, eof))) (omega arith)
Step-Piped sent cw {p} (read_fails s h empty closed) inv =
    half_step sent cw p inv s _ _ h refl (inr (inr (closed-Cut sent cw p inv s h closed)))
      (omega arith)
Step-Piped sent cw {p} (write_fails s h some closed) inv =
    absurd (written-open sent cw p inv s h closed)
Step-Piped sent cw {p} (breaks s h) inv =
    half_step sent cw p inv s _ _ h refl (inr (inr (inl (omega arith)))) (omega arith)
Step-Piped sent cw {p} (finishes s h) inv = record {
  whole = set_side-ind (λ t x. stream x ≡ sent t) p.halves s _ (inv.whole s) inv.whole;
  kept =
      set_side-ind (λ t x. x.has_close_write ≡ cw t) p.ends s _
        (finish-kept (p.ends s) ∙ inv.kept s) inv.kept;
  drained =
      set_side-ind (λ t x. Drained cw p.faults t x) p.halves s _ (ended-Drained (inv.drained s))
        inv.drained;
  early =
      set_side-ind
        (λ t x.
          x.closed ≡ true → (p.returned ≡ true) ⊎ ((cw t ≡ false) × ((halves t).stage ≡ done)))
        p.ends s _
        (λ c. elim (finish-closed (p.ends s) c) [
          | inl was ↦ still s (inv.early s was)
          | inr lacks ↦
              inr (sym (inv.kept s) ∙ lacks, ap (λ (x : Half). x.stage) (side_new p.halves s _))
        ])
        (λ t c. still t (inv.early t c));
  late = λ r. absurd (not_returned r);
}
  where
    not_returned : p.returned ≡ true → ⊥
    not_returned r = cc ((inv.late r s).1)

    halves : Bool → Half
    halves = set_side p.halves s (record (p.halves s) { stage = done })

    still :
        (t : Bool)
        → (p.returned ≡ true) ⊎ ((cw t ≡ false) × ((p.halves t).stage ≡ done))
        → (p.returned ≡ true) ⊎ ((cw t ≡ false) × ((halves t).stage ≡ done))
    still t (inl r) = inl r
    still t (inr (lacks, over)) = inr (lacks, finish-keeps p.halves s t over)

    ended-Drained :
        Drained cw p.faults s (p.halves s)
        → Drained cw p.faults s (record (p.halves s) { stage = done })
    ended-Drained (inl e) = absurd (cc)
    ended-Drained (inr e) = inr e
Step-Piped sent cw {p} (returns to_a to_b r) inv = record {
  whole = inv.whole;
  kept = inv.kept;
  drained = inv.drained;
  early = λ s _. inl refl;
  late = λ _ s. (refl, both s);
}
  where
    both : (s : Bool) → (p.halves s).stage ≡ done
    both true = to_a
    both false = to_b

Reach-Piped :
    (sent : Bool → Bytes) (close_write : Bool → Bool) {p : Pipe}
    → Reach sent close_write p
    → Piped sent close_write p
Reach-Piped sent cw start = record {
  whole = λ s. refl;
  kept = λ s. refl;
  drained = λ s. inl refl;
  early = λ s e. cc;
  late = λ e. cc;
}
Reach-Piped sent cw (next r st) = Step-Piped sent cw st (Reach-Piped sent cw r)

-- When `Pipe` returns, both ends are closed, and each side has received a prefix of what the other
-- side sent, with no byte lost, doubled or out of order before its end. A side has received all of
-- it if the network gave no error and the sending end supports `CloseWrite`, whatever the other end
-- supports and whichever half finishes first.
pub pipe_delivers :
    (sent : Bool → Bytes) (close_write : Bool → Bool) (p : Pipe)
    → Reach sent close_write p
    → p.returned ≡ true
    → (s : Bool)
    → ((p.ends s).closed ≡ true)
      × ((rest : Bytes) × ((p.halves s).received ++ rest ≡ sent s))
      × (((p.halves s).received ≡ sent s) ⊎ Cut close_write p.faults s)
pipe_delivers sent cw p r returned s =
    ((inv.late returned s).0, (_, inv.whole s), all (inv.drained s))
  where
    inv : Piped sent cw p
    inv = Reach-Piped sent cw r

    all : Drained cw p.faults s (p.halves s) → ((p.halves s).received ≡ sent s) ⊎ Cut cw p.faults s
    all (inl e) = absurd (cc ((inv.late returned s).1))
    all (inr (inl (empty, eof))) = inl (
        sym (append-nil (p.halves s).received)
        ∙ ap (◌++◌ (p.halves s).received) (sym (rw (empty, eof)))
        ∙ inv.whole s)
    all (inr (inr cut)) = inr cut
