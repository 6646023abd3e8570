-- ===== src/Auth/Io/Wire.antt =====
-- Two programs at the two ends of one connection, as in Auth.Io.Duplex, where a side sees that the
-- other one has closed the connection: a read that waits for bytes then ends with an error.
use g_tun.Prelude.{
  ℕ, zero, suc, Bytes, split_at?, Bool, true, false, Option, none, some, [], ◌≡◌, refl,
}
use g_tun.Auth.Io.{Io, pure, read_full, write, random, set_deadline, close, drain}
use g_tun.Auth.Io.Duplex.{End, receive}

-- The two ends, and whether each of them was closed.
pub record Link (A B : Type 0) : Type 0 where
  pub left : End A
  pub right : End B
  pub left_closed : Bool
  pub right_closed : Bool

-- What one call leads to: the end after it, the bytes that it sends, and whether it closed.
record Call (A : Type 0) : Type 0 where
  after : End A
  sent : Bytes
  closing : Bool

abbrev on_end : {A : Type 0} → Io A → Bytes → Bytes → Call A
on_end p input entropy = record {
  after = record { program = p; input = input; entropy = entropy };
  sent = [];
  closing = false;
}

-- `peer` tells whether the other side has closed.
abbrev read_call :
    {A : Type 0} → Bool → (Option Bytes → Io A) → Bytes → Option (Bytes × Bytes) → Option (Call A)
read_call peer k entropy (some (front, rest)) = some (on_end (k (some front)) rest entropy)
read_call true k entropy none = some (on_end (k none) [] entropy)
read_call false k entropy none = none

abbrev random_call :
    {A : Type 0} → (Option Bytes → Io A) → Bytes → Bytes → Option (Bytes × Bytes) → Call A
random_call k input entropy none = on_end (k none) input entropy
random_call k input entropy (some (front, rest)) = on_end (k (some front)) input rest

abbrev drain_call : {A : Type 0} → Bool → Io A → Bytes → Option (Call A)
drain_call true p entropy = some (on_end p [] entropy)
drain_call false p entropy = none

-- The next call of a side that has not closed.
abbrev call_at : {A : Type 0} → Bool → Io A → Bytes → Bytes → Option (Call A)
call_at peer (pure a) input entropy = none
call_at peer (read_full n k) input entropy = read_call peer k entropy (split_at? n input)
call_at peer (write b k) input entropy = some (record (on_end (k true) input entropy) { sent = b })
call_at peer (random n k) input entropy = some (random_call k input entropy (split_at? n entropy))
call_at peer (set_deadline on k) input entropy = some (on_end (k true) input entropy)
call_at peer (close p) input entropy = some (record (on_end p input entropy) { closing = true })
call_at peer (drain p) input entropy = drain_call peer p entropy

-- A side that has closed: its calls on the connection fail.
abbrev closed_call : {A : Type 0} → Io A → Bytes → Bytes → Option (Call A)
closed_call (pure a) input entropy = none
closed_call (read_full n k) input entropy = some (on_end (k none) input entropy)
closed_call (write b k) input entropy = some (on_end (k false) input entropy)
closed_call (random n k) input entropy = some (random_call k input entropy (split_at? n entropy))
closed_call (set_deadline on k) input entropy = some (on_end (k false) input entropy)
closed_call (close p) input entropy = some (on_end p input entropy)
closed_call (drain p) input entropy = some (on_end p input entropy)

abbrev next_call : {A : Type 0} → Bool → Bool → End A → Option (Call A)
next_call true peer e = closed_call e.program e.input e.entropy
next_call false peer e = call_at peer e.program e.input e.entropy

abbrev or_closed : Bool → Bool → Bool
or_closed true b = true
or_closed false b = b

module _ {A B : Type 0} where
  abbrev left_moves : Link A B → Call A → Link A B
  left_moves w c = record {
    left = c.after;
    right = receive w.right c.sent;
    left_closed = or_closed c.closing w.left_closed;
    right_closed = w.right_closed;
  }

  abbrev right_moves : Link A B → Call B → Link A B
  right_moves w c = record {
    left = receive w.left c.sent;
    right = c.after;
    left_closed = w.left_closed;
    right_closed = or_closed c.closing w.right_closed;
  }

  -- The next call, the left side's if it does not wait.
  abbrev pub one_call : Link A B → Option (Link A B)
  one_call w = elim (next_call w.left_closed w.right_closed w.left) [
    | some c ↦ some (left_moves w c)
    | none ↦ elim (next_call w.right_closed w.left_closed w.right) [
      | some c ↦ some (right_moves w c)
      | none ↦ none
    ]
  ]

  -- At most as many calls as the fuel.
  unfoldable pub wire : ℕ → Link A B → Link A B
  wire zero w = w
  wire (suc fuel) w = elim (one_call w) [ some w' ↦ wire fuel w' | none ↦ w ]

  pub wire_on :
      (fuel : ℕ) (w w' : Link A B) → one_call w ≡ some w' → wire (suc fuel) w ≡ wire fuel w'
  unfolding wire
  wire_on fuel w w' e = rw (e, wire)

  pub wire_over : (fuel : ℕ) (w : Link A B) → one_call w ≡ none → wire fuel w ≡ w
  unfolding wire
  wire_over zero w e = refl
  wire_over (suc fuel) w e = rw (e, wire)
