-- ===== src/Auth/Io/Duplex/After.antt =====
-- Two programs at the two ends of one connection, of which the right one goes on.
use g_tun.Prelude.{
  ℕ, zero, suc, Bytes, Option, none, some, split_at?, ◌≡◌, refl, sym, ◌∙◌, ap, ◌⊎◌, inl, inr, ◌≢◌,
}
use g_tun.Auth.Io.{Io, pure, read_full, write, random, set_deadline, close, drain, bind}
use g_tun.Auth.Io.Duplex.{
  End, Move, move_of, duplex, receive, after_read, after_random, more, duplex_left, duplex_right,
  duplex_ended,
}

-- The end with what follows its program.
abbrev go_on : {A B : Type 0} → (A → Io B) → End A → End B
go_on K e = record { program = bind e.program K; input = e.input; entropy = e.entropy }

abbrev moved : {A B : Type 0} → (A → Io B) → Move A → Move B
moved K none = none
moved K (some (e, sent)) = some (go_on K e, sent)

read-moved :
    {A B : Type 0} (K : A → Io B) (k : Option Bytes → Io A) (entropy : Bytes)
    (x : Option (Bytes × Bytes))
    → after_read (λ r. bind (k r) K) entropy x ≡ moved K (after_read k entropy x)
unfolding bind
read-moved K k entropy none = refl
read-moved K k entropy (some (front, rest)) = refl

random-moved :
    {A B : Type 0} (K : A → Io B) (k : Option Bytes → Io A) (input entropy : Bytes)
    (x : Option (Bytes × Bytes))
    → after_random (λ r. bind (k r) K) input entropy x ≡ moved K (after_random k input entropy x)
unfolding bind
random-moved K k input entropy none = refl
random-moved K k input entropy (some (front, rest)) = refl

abbrev End_of : {A : Type 0} → Io A → Bytes → Bytes → End A
End_of p input entropy = record { program = p; input = input; entropy = entropy }

-- Until it is over, a program that something follows makes the calls that it makes alone.
moves_on :
    {A B : Type 0} (K : A → Io B) (p : Io A) (input entropy : Bytes)
    → ((a : A) × (p ≡ pure a))
      ⊎ (move_of (go_on K (End_of p input entropy)) ≡ moved K (move_of (End_of p input entropy)))
        × ((a : A) → p ≢ pure a)
unfolding move_of bind
moves_on K (pure a) input entropy = inl (a, refl)
moves_on K (read_full n k) input entropy =
    inr (read-moved K k entropy (split_at? n input), λ a e. cc)
moves_on K (write b k) input entropy = inr (refl, λ a e. cc)
moves_on K (random n k) input entropy =
    inr (random-moved K k input entropy (split_at? n entropy), λ a e. cc)
moves_on K (set_deadline on k) input entropy = inr (refl, λ a e. cc)
moves_on K (close p) input entropy = inr (refl, λ a e. cc)
moves_on K (drain p) input entropy = inr (refl, λ a e. cc)

module _ {A B C : Type 0} (K : B → Io C) (l' : End A) (b : B) (input entropy : Bytes) where
  abbrev ending : End A × End B
  ending = (l', End_of (pure b) input entropy)

  -- After `n` calls of the two programs, what follows the right one begins, some calls being left.
  abbrev Spare : ℕ → End A → End B → Type 0
  Spare n l r =
      (spare : ℕ) × ((rest : ℕ)
        → duplex (more n rest) l (go_on K r)
          ≡ duplex (more spare rest) l' (End_of (K b) input entropy))

  pure_waits : {a : B} (r : End B) → r.program ≡ pure a → move_of r ≡ none
  unfolding move_of
  pure_waits r e = rw e refl

  all-Spare : (n : ℕ) (l : End A) (r : End B) → (l, r) ≡ ending → Spare n l r
  unfolding bind
  all-Spare n l r e =
      (n, λ rest. ap (λ (x : End A × End B). duplex (more n rest) x.0 (go_on K x.1)) e)

  module _ (n : ℕ) (ih : (l : End A) (r : End B) → duplex n l r ≡ ending → Spare n l r) (l : End A)
      (r : End B) (e : duplex (suc n) l r ≡ ending) where
    right_on :
        (x : Move B)
        → move_of l ≡ none
        → move_of r ≡ x
        → move_of (go_on K r) ≡ moved K x
        → ((a : B) → r.program ≢ pure a)
        → Spare (suc n) l r
    right_on (some (r1, sent)) e1 e2 em goes =
        let (spare, f) = ih (receive l sent) r1 (sym (duplex_right n l r r1 sent e1 e2) ∙ e) in
        (spare, λ rest. duplex_right (more n rest) l (go_on K r) (go_on K r1) sent e1 em ∙ f rest)
    right_on none e1 e2 em goes = absurd (
        goes b (ap (λ (x : End A × End B). x.1.program) (sym (duplex_ended (suc n) l r e1 e2) ∙ e)))

    step_on : (x : Move A) → move_of l ≡ x → Spare (suc n) l r
    step_on (some (l1, sent)) e1 =
        let (spare, f) = ih l1 (receive r sent) (sym (duplex_left n l r l1 sent e1) ∙ e) in
        (spare, λ rest. duplex_left (more n rest) l (go_on K r) l1 sent e1 ∙ f rest)
    step_on none e1 = elim (moves_on K r.program r.input r.entropy) [
      | inl (a, ea) ↦
          all-Spare (suc n) l r (sym (duplex_ended (suc n) l r e1 (pure_waits r ea)) ∙ e)
      | inr (em, goes) ↦ right_on (move_of r) e1 refl em goes
    ]

  -- If two programs come to an end in `n` calls, the right one, if something follows it, comes to
  -- the start of that instead, and the calls that were not needed are left.
  pub duplex_on : (n : ℕ) (l : End A) (r : End B) → duplex n l r ≡ ending → Spare n l r
  unfolding duplex
  duplex_on zero l r e = all-Spare 0 l r e
  duplex_on (suc n) l r e = step_on n (duplex_on n) l r e (move_of l) refl
