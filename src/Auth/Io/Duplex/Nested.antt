-- ===== src/Auth/Io/Duplex/Nested.antt =====
-- The moves of a program whose first call stands inside a program that it is the start of, and the
-- steps of such a program that make no call.
use g_tun.Prelude.{
  ℕ, Bytes, split_at?-append, split_at?_short, length, ◌<◌, Bool, true, false, Option, some, none,
  [], ◌++◌, ◌≡◌, refl,
}
use g_tun.Result.{Result, ok, Error}
use g_tun.Auth.Io.{
  Io, bind, ◌>>=◌, ◌>>◌, reads, writes, draws, sets_deadline, return, raise_unless, raise_if,
  or_raise, lift,
}
use g_tun.Auth.Io.Duplex.{move_of}

module _ {B C : Type 0} (e : Error) (input entropy : Bytes) (K : B → Io (Result C)) where
  pub then-reads :
      (n : ℕ) (f : Bytes → Io (Result B)) (xs ys : Bytes)
      → input ≡ xs ++ ys
      → length xs ≡ n
      → move_of (record { program = (reads n e >>= f) >>= K; input = input; entropy = entropy })
        ≡ some (record { program = f xs >>= K; input = ys; entropy = entropy }, [])
  unfolding move_of ◌>>=◌ reads bind
  then-reads n f xs ys whole size = rw (whole, split_at?-append n xs ys size)

  pub then-reads_waits :
      (n : ℕ) (f : Bytes → Io (Result B))
      → length input < n
      → move_of (record { program = (reads n e >>= f) >>= K; input = input; entropy = entropy })
        ≡ none
  unfolding move_of ◌>>=◌ reads bind
  then-reads_waits n f short = rw (split_at?_short n input short)

  pub then-draws :
      (n : ℕ) (f : Bytes → Io (Result B)) (xs ys : Bytes)
      → entropy ≡ xs ++ ys
      → length xs ≡ n
      → move_of (record { program = (draws n e >>= f) >>= K; input = input; entropy = entropy })
        ≡ some (record { program = f xs >>= K; input = input; entropy = ys }, [])
  unfolding move_of ◌>>=◌ draws bind
  then-draws n f xs ys whole size = rw (whole, split_at?-append n xs ys size)

  pub then-writes :
      (b : Bytes) (k : Io (Result B))
      → move_of (record { program = (writes b e >> k) >>= K; input = input; entropy = entropy })
        ≡ some (record { program = k >>= K; input = input; entropy = entropy }, b)
  unfolding move_of ◌>>=◌ ◌>>◌ writes bind
  then-writes b k = refl

module _ {B : Type 0} (e : Error) (input entropy : Bytes) (on : Bool) where
  pub move-deadline :
      (k : Io (Result B))
      → move_of (record { program = sets_deadline on e >> k; input = input; entropy = entropy })
        ≡ some (record { program = k; input = input; entropy = entropy }, [])
  unfolding move_of ◌>>=◌ ◌>>◌ sets_deadline bind
  move-deadline k = refl

pub move-deadline_last :
    (e : Error) (input entropy : Bytes) (on : Bool)
    → move_of (record { program = sets_deadline on e; input = input; entropy = entropy })
      ≡ some (record { program = return tt; input = input; entropy = entropy }, [])
unfolding move_of sets_deadline
move-deadline_last e input entropy on = refl

module _ {B C : Type 0} (e : Error) (K : B → Io (Result C)) where
  pub then-raise_unless :
      (test : Bool) (k : Io (Result B))
      → test ≡ true
      → ((raise_unless test e >> k) >>= K) ≡ (k >>= K)
  unfolding ◌>>=◌ ◌>>◌ bind
  then-raise_unless test k h = rw h refl

  pub then-raise_if :
      (test : Bool) (k : Io (Result B)) → test ≡ false → ((raise_if test e >> k) >>= K) ≡ (k >>= K)
  unfolding ◌>>=◌ ◌>>◌ bind
  then-raise_if test k h = rw h refl

  pub then-or_raise :
      {A : Type 0} (o : Option A) (f : A → Io (Result B)) (a : A)
      → o ≡ some a
      → ((or_raise e o >>= f) >>= K) ≡ (f a >>= K)
  unfolding ◌>>=◌ bind
  then-or_raise o f a h = rw h refl

module _ {B C : Type 0} (K : B → Io (Result C)) where
  pub then-lift :
      {A : Type 0} (r : Result A) (k : Io (Result B)) (a : A)
      → r ≡ ok a
      → ((lift r >> k) >>= K) ≡ (k >>= K)
  unfolding ◌>>=◌ ◌>>◌ bind
  then-lift r k a h = rw h refl

  pub then-return : (b : B) → (return b >>= K) ≡ K b
  unfolding ◌>>=◌ bind
  then-return b = refl

pub then-seq : {B C : Type 0} (m : Io (Result B)) (k : Io (Result C)) → (m >> k) ≡ (m >>= λ _. k)
unfolding ◌>>◌
then-seq m k = refl
