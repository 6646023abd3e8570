-- ===== src/Auth/Io/Duplex.antt =====
-- Two programs at the two ends of one connection. Each side is the tree of its calls; what a side
-- writes joins the other side's input, and a read waits until the bytes are there. The schedule
-- lets the left side go on while it can.
pub mod Nested
pub mod After
use g_tun.Prelude.{
  ℕ, zero, suc, Bytes, split_at?, split_at?-append, split_at?_short, length, ◌<◌, true, Option,
  none, some, [], ◌++◌, ◌≡◌, refl,
}
use g_tun.Result.{Result, Error}
use g_tun.Auth.Io.{
  Io, pure, read_full, write, random, set_deadline, close, drain, ◌>>=◌, ◌>>◌, reads, writes, draws,
  return, raise,
}

-- One end: the calls that are left, the bytes that have come in, and the random source.
pub record End (A : Type 0) : Type 0 where
  pub program : Io A
  pub input : Bytes
  pub entropy : Bytes

-- What one call leads to: the end after it, and the bytes that it sends.
abbrev pub Move : Type 0 → Type 0
Move A = Option (End A × Bytes)

abbrev after_read : {A : Type 0} → (Option Bytes → Io A) → Bytes → Option (Bytes × Bytes) → Move A
after_read k entropy none = none
after_read k entropy (some (front, rest)) =
    some (record { program = k (some front); input = rest; entropy = entropy }, [])

abbrev after_random :
    {A : Type 0} → (Option Bytes → Io A) → Bytes → Bytes → Option (Bytes × Bytes) → Move A
after_random k input entropy none =
    some (record { program = k none; input = input; entropy = entropy }, [])
after_random k input entropy (some (front, rest)) =
    some (record { program = k (some front); input = input; entropy = rest }, [])

move_at : {A : Type 0} → Io A → Bytes → Bytes → Move A
move_at (pure a) input entropy = none
move_at (read_full n k) input entropy = after_read k entropy (split_at? n input)
move_at (write b k) input entropy =
    some (record { program = k true; input = input; entropy = entropy }, b)
move_at (random n k) input entropy = after_random k input entropy (split_at? n entropy)
move_at (set_deadline on k) input entropy =
    some (record { program = k true; input = input; entropy = entropy }, [])
move_at (close p) input entropy =
    some (record { program = p; input = input; entropy = entropy }, [])
move_at (drain p) input entropy = none

-- `none`: the program has ended, or waits for bytes.
pub move_of : {A : Type 0} → End A → Move A
unfolding move_at
move_of e = move_at e.program e.input e.entropy

abbrev pub receive : {A : Type 0} → End A → Bytes → End A
receive e b = record e { input = e.input ++ b }

-- `n` calls more than the fuel.
abbrev pub more : ℕ → ℕ → ℕ
more zero fuel = fuel
more (suc n) fuel = suc (more n fuel)

unfoldable pub duplex : {A B : Type 0} → ℕ → End A → End B → End A × End B
duplex zero l r = (l, r)
duplex (suc fuel) l r = elim (move_of l) [
  | some (l', sent) ↦ duplex fuel l' (receive r sent)
  | none ↦ elim (move_of r) [ some (r', sent) ↦ duplex fuel (receive l sent) r' | none ↦ (l, r) ]
]

-- The moves of the calls that the programs make.
module _ {B : Type 0} (e : Error) (input entropy : Bytes) where
  pub move-reads :
      (n : ℕ) (f : Bytes → Io (Result B)) (xs ys : Bytes)
      → input ≡ xs ++ ys
      → length xs ≡ n
      → move_of (record { program = reads n e >>= f; input = input; entropy = entropy })
        ≡ some (record { program = f xs; input = ys; entropy = entropy }, [])
  unfolding move_of ◌>>=◌ reads
  move-reads n f xs ys whole size = rw (whole, split_at?-append n xs ys size)

  pub move-reads_waits :
      (n : ℕ) (f : Bytes → Io (Result B))
      → length input < n
      → move_of (record { program = reads n e >>= f; input = input; entropy = entropy }) ≡ none
  unfolding move_of ◌>>=◌ reads
  move-reads_waits n f short = rw (split_at?_short n input short)

  pub move-draws :
      (n : ℕ) (f : Bytes → Io (Result B)) (xs ys : Bytes)
      → entropy ≡ xs ++ ys
      → length xs ≡ n
      → move_of (record { program = draws n e >>= f; input = input; entropy = entropy })
        ≡ some (record { program = f xs; input = input; entropy = ys }, [])
  unfolding move_of ◌>>=◌ draws
  move-draws n f xs ys whole size = rw (whole, split_at?-append n xs ys size)

  pub move-writes :
      (b : Bytes) (k : Io (Result B))
      → move_of (record { program = writes b e >> k; input = input; entropy = entropy })
        ≡ some (record { program = k; input = input; entropy = entropy }, b)
  unfolding move_of ◌>>◌ writes
  move-writes b k = refl

pub move-return :
    {B : Type 0} (a : B) (input entropy : Bytes)
    → move_of (record { program = return a; input = input; entropy = entropy }) ≡ none
unfolding move_of
move-return a input entropy = refl

pub move-pure :
    {B : Type 0} (b : B) (input entropy : Bytes)
    → move_of (record { program = pure b; input = input; entropy = entropy }) ≡ none
unfolding move_of
move-pure b input entropy = refl

pub move-close :
    {B : Type 0} (p : Io B) (input entropy : Bytes)
    → move_of (record { program = close p; input = input; entropy = entropy })
      ≡ some (record { program = p; input = input; entropy = entropy }, [])
unfolding move_of
move-close p input entropy = refl

pub move-raise :
    {B : Type 0} (e : Error) (input entropy : Bytes)
    → move_of (record { program = raise {A = B} e; input = input; entropy = entropy }) ≡ none
unfolding move_of
move-raise e input entropy = refl

module _ {A B : Type 0} (fuel : ℕ) (l : End A) (r : End B) where
  pub duplex_left :
      (l' : End A) (sent : Bytes)
      → move_of l ≡ some (l', sent)
      → duplex (suc fuel) l r ≡ duplex fuel l' (receive r sent)
  unfolding duplex
  duplex_left l' sent m = rw (m, duplex)

  pub duplex_right :
      (r' : End B) (sent : Bytes)
      → move_of l ≡ none
      → move_of r ≡ some (r', sent)
      → duplex (suc fuel) l r ≡ duplex fuel (receive l sent) r'
  unfolding duplex
  duplex_right r' sent w m = rw (w, m, duplex)

  pub duplex_ended : move_of l ≡ none → move_of r ≡ none → duplex fuel l r ≡ (l, r)
  unfolding duplex
  duplex_ended = go fuel
    where
      go : (f : ℕ) → move_of l ≡ none → move_of r ≡ none → duplex f l r ≡ (l, r)
      go zero w m = refl
      go (suc f) w m = rw (w, m, duplex)
