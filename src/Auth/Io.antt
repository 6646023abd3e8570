-- ===== src/Auth/Io.antt =====
-- A program that talks over one connection, as the tree of what it does: the calls of
-- `io.ReadFull`, `Write`, `SetDeadline` and `Close` on the connection, `rand.Read`, and the dial of
-- the target. `run` executes it against a fixed peer.
pub mod Steps
pub mod Duplex
pub mod Wire
pub mod Sequence
use g_tun.Prelude.{
  ℕ, zero, suc, Bytes, split_at?, Bool, true, false, Option, none, some, List, [], ◌∷◌, ◌++◌, ◌≡◌,
  refl,
}
use g_tun.Result.{Result, ok, err, Error}

pub data Io (A : Type 0) : Type 0 where
  pure : A → Io A
  -- `none` is an error: the stream ended before the buffer was full.
  read_full : ℕ → (Option Bytes → Io A) → Io A
  write : Bytes → (Bool → Io A) → Io A
  random : ℕ → (Option Bytes → Io A) → Io A
  -- `true` sets a deadline, `false` clears it.
  set_deadline : Bool → (Bool → Io A) → Io A
  close : Io A → Io A
  -- `io.Copy(io.Discard, conn)`: reads until the peer goes away.
  drain : Io A → Io A

unfoldable pub bind : {A B : Type 0} → Io A → (A → Io B) → Io B
bind (pure a) f = f a
bind (read_full n k) f = read_full n (λ r. bind (k r) f)
bind (write b k) f = write b (λ r. bind (k r) f)
bind (random n k) f = random n (λ r. bind (k r) f)
bind (set_deadline on k) f = set_deadline on (λ r. bind (k r) f)
bind (close p) f = close (bind p f)
bind (drain p) f = drain (bind p f)

-- `v, err := m; if err != nil { return err }`.
abbrev on_ok : {A B : Type 0} → (A → Io (Result B)) → Result A → Io (Result B)
on_ok f (ok a) = f a
on_ok f (err e) = pure (err e)

infixl 5 ◌>>=◌ ◌>>◌
unfoldable pub ◌>>=◌ : {A B : Type 0} → Io (Result A) → (A → Io (Result B)) → Io (Result B)
unfolding bind
m >>= f = bind m (on_ok f)

unfoldable pub ◌>>◌ : {A B : Type 0} → Io (Result A) → Io (Result B) → Io (Result B)
unfolding ◌>>=◌
m >> k = m >>= λ _. k

abbrev pub return : {A : Type 0} → A → Io (Result A)
return a = pure (ok a)

abbrev pub raise : {A : Type 0} → Error → Io (Result A)
raise e = pure (err e)

abbrev pub or_raise : {A : Type 0} → Error → Option A → Io (Result A)
or_raise e none = raise e
or_raise e (some a) = return a

-- A step that makes no call.
abbrev pub lift : {A : Type 0} → Result A → Io (Result A)
lift r = pure r

abbrev done_or_raise : Error → Bool → Io (Result (Unit {0}))
done_or_raise e true = return tt
done_or_raise e false = raise e

-- `if test { return e }`, and `if !test { return e }`.
abbrev pub raise_if : Bool → Error → Io (Result (Unit {0}))
raise_if true e = raise e
raise_if false e = return tt

abbrev pub raise_unless : Bool → Error → Io (Result (Unit {0}))
raise_unless test e = done_or_raise e test

-- One call, with the error that the code makes of its failure.
unfoldable pub reads : ℕ → Error → Io (Result Bytes)
reads n e = read_full n (or_raise e)

unfoldable pub writes : Bytes → Error → Io (Result (Unit {0}))
writes b e = write b (done_or_raise e)

unfoldable pub draws : ℕ → Error → Io (Result Bytes)
draws n e = random n (or_raise e)

unfoldable pub sets_deadline : Bool → Error → Io (Result (Unit {0}))
sets_deadline on e = set_deadline on (done_or_raise e)

-- The side of the connection that a program sees. `input` is all that the peer will ever send, and
-- `budget` the number of writes and deadline calls until the connection breaks.
pub record Conn : Type 0 where
  pub input : Bytes
  pub output : Bytes
  pub entropy : Bytes
  pub budget : ℕ
  pub armed : Bool
  pub closed : Bool

-- A read that fails has used up what there was.
abbrev pub take_input : Conn → Option (Bytes × Bytes) → Option Bytes × Conn
take_input c none = (none, record c { input = [] })
take_input c (some (front, rest)) = (some front, record c { input = rest })

abbrev pub take_entropy : Conn → Option (Bytes × Bytes) → Option Bytes × Conn
take_entropy c none = (none, c)
take_entropy c (some (front, rest)) = (some front, record c { entropy = rest })

abbrev pub do_write : Conn → Bytes → ℕ → Bool × Conn
do_write c b zero = (false, c)
do_write c b (suc n) = (true, record c { output = c.output ++ b; budget = n })

abbrev pub do_deadline : Conn → Bool → ℕ → Bool × Conn
do_deadline c on zero = (false, c)
do_deadline c on (suc n) = (true, record c { armed = on; budget = n })

unfoldable pub run : {A : Type 0} → Io A → Conn → A × Conn
run (pure a) c = (a, c)
run (read_full n k) c = let (r, c') = take_input c (split_at? n c.input) in run (k r) c'
run (write b k) c = let (r, c') = do_write c b c.budget in run (k r) c'
run (random n k) c = let (r, c') = take_entropy c (split_at? n c.entropy) in run (k r) c'
run (set_deadline on k) c = let (r, c') = do_deadline c on c.budget in run (k r) c'
run (close p) c = run p (record c { closed = true })
run (drain p) c = run p (record c { input = [] })
