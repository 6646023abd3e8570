-- ===== src/Client/Runner/Slot.antt =====
-- internal/client/runner.go: the abstract view of a runner, one slot, in which a transport runs from its
-- start until it was stopped.
pub mod Refined
use g_tun.Prelude.{ℕ, suc, Option, none, some, List, [], ◌∷◌, ◌≡◌}

pub record Slot : Type 0 where
  pub current : Option ℕ
  pub started : ℕ
  pub stopped : List ℕ

abbrev pub empty : Slot
empty = record { current = none; started = 0; stopped = [] }

-- An empty slot takes the next transport, and a full one is emptied.
pub data Move (s : Slot) : Slot → Type 0 where
  fills : s.current ≡ none → Move s (record s { current = some s.started; started = suc s.started })
  empties :
      (n : ℕ) → s.current ≡ some n → Move s (record s { current = none; stopped = n ∷ s.stopped })

pub data Reach : Slot → Type 0 where
  start : Reach empty
  next : {s s' : Slot} → Reach s → Move s s' → Reach s'
