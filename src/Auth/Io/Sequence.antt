-- ===== src/Auth/Io/Sequence.antt =====
-- One program after another on the same connection.
use g_tun.Prelude.{◌≡◌, refl, sym, ◌∙◌, true, [], split_at?}
use g_tun.Result.{Result, ok, err, Error}
use g_tun.Auth.Io.{
  Io, pure, read_full, write, random, set_deadline, close, drain, bind, Conn, run, ◌>>=◌, ◌>>◌,
  take_input, take_entropy, do_write, do_deadline,
}

pub run-bind :
    {A B : Type 0} (p : Io A) (f : A → Io B) (c : Conn)
    → run (bind p f) c ≡ run (f (run p c).0) (run p c).1
unfolding run bind
run-bind (pure a) f c = refl
run-bind (read_full n k) f c =
    run-bind (k (take_input c (split_at? n c.input)).0) f (take_input c (split_at? n c.input)).1
run-bind (write b k) f c = run-bind (k (do_write c b c.budget).0) f (do_write c b c.budget).1
run-bind (random n k) f c =
    run-bind (k (take_entropy c (split_at? n c.entropy)).0) f
      (take_entropy c (split_at? n c.entropy)).1
run-bind (set_deadline on k) f c =
    run-bind (k (do_deadline c on c.budget).0) f (do_deadline c on c.budget).1
run-bind (close p) f c = run-bind p f (record c { closed = true })
run-bind (drain p) f c = run-bind p f (record c { input = [] })

module _ {A B : Type 0} (p : Io (Result A)) (f : A → Io (Result B)) (c : Conn) where
  pub then_done : (a : A) (c' : Conn) → run p c ≡ (ok a, c') → run (p >>= f) c ≡ run (f a) c'
  unfolding ◌>>=◌ run
  then_done a c' h = run-bind p _ c ∙ rw h

  pub then_failed : (e : Error) (c' : Conn) → run p c ≡ (err e, c') → run (p >>= f) c ≡ (err e, c')
  unfolding ◌>>=◌ run
  then_failed e c' h = run-bind p _ c ∙ rw h

  pub then_inv {ℓ} :
      {P : Type ℓ} {b : B} {c' : Conn}
      → run (p >>= f) c ≡ (ok b, c')
      → ((a : A) (mid : Conn) → run p c ≡ (ok a, mid) → run (f a) mid ≡ (ok b, c') → P)
      → P
  unfolding ◌>>=◌ run
  then_inv {P = P} {b} {c'} h next = go (run p c).0 (run p c).1 refl (sym (run-bind p _ c) ∙ h)
    where
      go :
          (r : Result A) (mid : Conn)
          → run p c ≡ (r, mid)
          → run (elim r [ ok a ↦ f a | err e ↦ pure (err e) ]) mid ≡ (ok b, c')
          → P
      go (ok a) mid e h' = next a mid e h'
      go (err e') mid e h' = cc

module _ {A B : Type 0} (p : Io (Result A)) (k : Io (Result B)) (c : Conn) where
  pub next_done : (a : A) (c' : Conn) → run p c ≡ (ok a, c') → run (p >> k) c ≡ run k c'
  unfolding ◌>>◌
  next_done a c' h = then_done p (λ _. k) c a c' h

  pub next_inv {ℓ} :
      {P : Type ℓ} {b : B} {c' : Conn}
      → run (p >> k) c ≡ (ok b, c')
      → ((a : A) (mid : Conn) → run p c ≡ (ok a, mid) → run k mid ≡ (ok b, c') → P)
      → P
  unfolding ◌>>◌
  next_inv h next = then_inv p (λ _. k) c h next
