-- ===== src/Auth/Io/Steps.antt =====
-- One call of a program over a connection, forwards (what the call does where it succeeds) and
-- backwards (what a program that succeeded must have met). The programs' proofs go by these alone.
use g_tun.Prelude.{
  ℕ, suc, ◌≡◌, ◌<◌, refl, [], split_at?_short, Bytes, length, split_at?-append, split_at?-cases,
  Bool, true, false, ◌++◌, inl, inr, Option, none, some, arith, ℕ-cases,
}
use g_tun.Result.{Result, ok, err, Error}
use g_tun.Auth.Io.{
  Io, Conn, run, ◌>>=◌, ◌>>◌, reads, writes, draws, sets_deadline, raise_unless, raise_if, lift,
  or_raise, return,
}

module _ {ℓ} {B : Type 0} {P : Type ℓ} (c : Conn) {v : B} {c' : Conn} where
  -- A read that did not end the program got its bytes.
  pub reads_inv :
      (n : ℕ) (e : Error) (f : Bytes → Io (Result B))
      → run (reads n e >>= f) c ≡ (ok v, c')
      → ((xs ys : Bytes)
          → c.input ≡ xs ++ ys
          → length xs ≡ n
          → run (f xs) (record c { input = ys }) ≡ (ok v, c')
          → P)
      → P
  unfolding run ◌>>=◌ reads
  reads_inv n e f h next = elim (split_at?-cases n c.input) [
    | inl short ↦ cc (rw (short, run) at h)
    | inr (xs, ys, split, whole, size) ↦ next xs ys whole size (rw (split, run) at h)
  ]

  pub draws_inv :
      (n : ℕ) (e : Error) (f : Bytes → Io (Result B))
      → run (draws n e >>= f) c ≡ (ok v, c')
      → ((xs ys : Bytes)
          → c.entropy ≡ xs ++ ys
          → length xs ≡ n
          → run (f xs) (record c { entropy = ys }) ≡ (ok v, c')
          → P)
      → P
  unfolding run ◌>>=◌ draws
  draws_inv n e f h next = elim (split_at?-cases n c.entropy) [
    | inl short ↦ cc (rw (short, run) at h)
    | inr (xs, ys, split, whole, size) ↦ next xs ys whole size (rw (split, run) at h)
  ]

  pub writes_inv :
      (b : Bytes) (e : Error) (k : Io (Result B))
      → run (writes b e >> k) c ≡ (ok v, c')
      → ((n : ℕ)
          → c.budget ≡ suc n
          → run k (record c { output = c.output ++ b; budget = n }) ≡ (ok v, c')
          → P)
      → P
  unfolding run ◌>>◌ writes
  writes_inv b e k h next = elim (ℕ-cases c.budget) [
    | inl none_left ↦ cc (rw (none_left, run) at h)
    | inr (n, more) ↦ next n more (rw (more, run) at h)
  ]

  pub sets_deadline_inv :
      (on : Bool) (e : Error) (k : Io (Result B))
      → run (sets_deadline on e >> k) c ≡ (ok v, c')
      → ((n : ℕ) → c.budget ≡ suc n → run k (record c { armed = on; budget = n }) ≡ (ok v, c') → P)
      → P
  unfolding run ◌>>◌ sets_deadline
  sets_deadline_inv on e k h next = elim (ℕ-cases c.budget) [
    | inl none_left ↦ cc (rw (none_left, run) at h)
    | inr (n, more) ↦ next n more (rw (more, run) at h)
  ]

  pub raise_unless_inv :
      (test : Bool) (e : Error) (k : Io (Result B))
      → run (raise_unless test e >> k) c ≡ (ok v, c')
      → (test ≡ true → run k c ≡ (ok v, c') → P)
      → P
  unfolding run ◌>>◌
  raise_unless_inv true e k h next = next refl h
  raise_unless_inv false e k h next = cc

  pub raise_if_inv :
      (test : Bool) (e : Error) (k : Io (Result B))
      → run (raise_if test e >> k) c ≡ (ok v, c')
      → (test ≡ false → run k c ≡ (ok v, c') → P)
      → P
  unfolding run ◌>>◌
  raise_if_inv true e k h next = cc
  raise_if_inv false e k h next = next refl h

  pub lift_inv :
      {A : Type 0} (r : Result A) (f : A → Io (Result B))
      → run (lift r >>= f) c ≡ (ok v, c')
      → ((a : A) → r ≡ ok a → run (f a) c ≡ (ok v, c') → P)
      → P
  unfolding run ◌>>=◌
  lift_inv (ok a) f h next = next a refl h
  lift_inv (err e) f h next = cc

  pub lift_then_inv :
      {A : Type 0} (r : Result A) (k : Io (Result B))
      → run (lift r >> k) c ≡ (ok v, c')
      → ((a : A) → r ≡ ok a → run k c ≡ (ok v, c') → P)
      → P
  unfolding run ◌>>◌
  lift_then_inv (ok a) k h next = next a refl h
  lift_then_inv (err e) k h next = cc

  pub or_raise_inv :
      {A : Type 0} (o : Option A) (e : Error) (f : A → Io (Result B))
      → run (or_raise e o >>= f) c ≡ (ok v, c')
      → ((a : A) → o ≡ some a → run (f a) c ≡ (ok v, c') → P)
      → P
  unfolding run ◌>>=◌
  or_raise_inv (some a) e f h next = next a refl h
  or_raise_inv none e f h next = cc

  pub return_inv : (a : B) → run (return a) c ≡ (ok v, c') → (v ≡ a → c' ≡ c → P) → P
  unfolding run
  return_inv a h next = next (ground arith) (cc)

-- Forwards. The peer sent at least the bytes that are read.
module _ {B : Type 0} (e : Error) (c : Conn) where
  pub reads_full :
      (xs ys : Bytes) (n : ℕ) (f : Bytes → Io (Result B))
      → c.input ≡ xs ++ ys
      → length xs ≡ n
      → run (reads n e >>= f) c ≡ run (f xs) (record c { input = ys })
  unfolding run ◌>>=◌ reads
  reads_full xs ys n f whole size = rw (whole, split_at?-append n xs ys size, run)

  pub reads_short :
      (n : ℕ) (f : Bytes → Io (Result B))
      → length c.input < n
      → run (reads n e >>= f) c ≡ (err e, record c { input = [] })
  unfolding run ◌>>=◌ reads
  reads_short n f short = rw (split_at?_short n c.input short, run)

  pub draws_full :
      (xs ys : Bytes) (n : ℕ) (f : Bytes → Io (Result B))
      → c.entropy ≡ xs ++ ys
      → length xs ≡ n
      → run (draws n e >>= f) c ≡ run (f xs) (record c { entropy = ys })
  unfolding run ◌>>=◌ draws
  draws_full xs ys n f whole size = rw (whole, split_at?-append n xs ys size, run)

  pub writes_done :
      (b : Bytes) (n : ℕ) (k : Io (Result B))
      → c.budget ≡ suc n
      → run (writes b e >> k) c ≡ run k (record c { output = c.output ++ b; budget = n })
  unfolding run ◌>>◌ writes
  writes_done b n k more = rw (more, run)

  pub sets_deadline_done :
      (on : Bool) (n : ℕ) (k : Io (Result B))
      → c.budget ≡ suc n
      → run (sets_deadline on e >> k) c ≡ run k (record c { armed = on; budget = n })
  unfolding run ◌>>◌ sets_deadline
  sets_deadline_done on n k more = rw (more, run)

  pub raise_unless_passed :
      (test : Bool) (k : Io (Result B)) → test ≡ true → run (raise_unless test e >> k) c ≡ run k c
  unfolding run ◌>>◌
  raise_unless_passed test k h = rw h

  pub raise_unless_failed :
      (test : Bool) (k : Io (Result B))
      → test ≡ false
      → run (raise_unless test e >> k) c ≡ (err e, c)
  unfolding run ◌>>◌
  raise_unless_failed test k h = rw h

module _ {A B : Type 0} (c : Conn) where
  pub lift_done :
      (r : Result A) (a : A) (f : A → Io (Result B)) → r ≡ ok a → run (lift r >>= f) c ≡ run (f a) c
  unfolding run ◌>>=◌
  lift_done r a f h = rw h

  pub lift_then_done :
      (r : Result A) (a : A) (k : Io (Result B)) → r ≡ ok a → run (lift r >> k) c ≡ run k c
  unfolding run ◌>>◌
  lift_then_done r a k h = rw h

  pub or_raise_done :
      (o : Option A) (e : Error) (a : A) (f : A → Io (Result B))
      → o ≡ some a
      → run (or_raise e o >>= f) c ≡ run (f a) c
  unfolding run ◌>>=◌
  or_raise_done o e a f h = rw h

pub raise_if_passed :
    {B : Type 0} (e : Error) (c : Conn) (test : Bool) (k : Io (Result B))
    → test ≡ false
    → run (raise_if test e >> k) c ≡ run k c
unfolding run ◌>>◌
raise_if_passed e c test k h = rw h

pub raise_if_failed :
    {B : Type 0} (e : Error) (c : Conn) (test : Bool) (k : Io (Result B))
    → test ≡ true
    → run (raise_if test e >> k) c ≡ (err e, c)
unfolding run ◌>>◌
raise_if_failed e c test k h = rw h

pub return_done :
    {B : Type 0} (c : Conn) (a v : B) (c' : Conn) → v ≡ a → c' ≡ c → run (return a) c ≡ (ok v, c')
unfolding run
return_done c a v c' p q = cc
