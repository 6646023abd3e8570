-- ===== src/Transport/WsConn/Stream.antt =====
-- internal/transport/wsconn.go: `Read` gives the bytes of the binary messages, in order.
use g_tun.Prelude.{
  ℕ, zero, suc, ◌<◌, ◌≡◌, refl, sym, ap, ◌∙◌, Bytes, Bool, true, false, Option, none, some, List,
  [], ◌∷◌, ◌++◌, append_assoc, length, arith,
}
use g_tun.Transport.WsConn.{
  Ending, going, eof, broken, Socket, Adapter, Outcome, Lawful, after_read, after_next,
  read_once_at, read_once, or_again, read,
}

module _ (w : Socket) (l : Lawful w) where
  -- The bytes of the binary messages.
  abbrev pub binaries : List (Bool × Bytes) → Bytes
  binaries [] = []
  binaries ((true, bs) ∷ ms) = bs ++ binaries ms
  binaries ((false, bs) ∷ ms) = binaries ms

  abbrev pub at : Bool → w.State → Bytes
  at true s = l.pending s ++ binaries (l.arriving s)
  at false s = binaries (l.arriving s)

  -- What is still to be read through the adapter.
  abbrev pub stream : Adapter w → Bytes
  stream a = at a.in_message a.socket

  abbrev pub given : Option Outcome → Bytes
  given none = []
  given (some o) = o.bytes

  whole :
      (n : ℕ) (s s' : w.State) (bs : Bytes) (e : Ending)
      → w.read_message n s ≡ ((bs, e), s')
      → at true s ≡ bs ++ at true s'
  whole n s s' bs e h =
      let (split, same) = l.read_bytes n s s' bs e h in
      ap (λ (p : Bytes). p ++ binaries (l.arriving s)) split
      ∙ append_assoc bs (l.pending s') (binaries (l.arriving s))
      ∙ ap (λ (ms : List (Bool × Bytes)). bs ++ (l.pending s' ++ binaries ms)) (sym same)

  after_read-stream :
      (n : ℕ) (s : w.State) (x : (Bytes × Ending) × w.State)
      → w.read_message n s ≡ x
      → at true s ≡ given (after_read w x).0 ++ stream (after_read w x).1
  unfolding after_read
  after_read-stream n s ((bs, going), s') e = whole n s s' bs going e
  after_read-stream n s ((bs, broken), s') e = whole n s s' bs broken e
  after_read-stream n s (([], eof), s') e =
      whole n s s' [] eof e
      ∙ ap (λ (p : Bytes). p ++ binaries (l.arriving s')) (l.read_eof n s s' [] e)
  after_read-stream n s ((b ∷ bs, eof), s') e =
      whole n s s' (b ∷ bs) eof e
      ∙ ap (λ (p : Bytes). (b ∷ bs) ++ (p ++ binaries (l.arriving s')))
          (l.read_eof n s s' (b ∷ bs) e)

  read_once-stream :
      (n : ℕ) (a : Adapter w) → stream a ≡ given (read_once w n a).0 ++ stream (read_once w n a).1
  unfolding read_once read_once_at
  read_once-stream n a = go a.in_message a.socket
    where
      next :
          (s : w.State) (x : Option Bool × w.State)
          → w.next_reader s ≡ x
          → at false s ≡ given (after_next w n x).0 ++ stream (after_next w n x).1
      next s (none, s') e = ap binaries (sym (l.next_none s s' e))
      next s (some false, s') e = ap binaries (l.next_some s s' false e)
      next s (some true, s') e =
          ap binaries (l.next_some s s' true e) ∙ after_read-stream n s' (w.read_message n s') refl

      go :
          (b : Bool) (s : w.State)
          → at b s ≡ given (read_once_at w n b s).0 ++ stream (read_once_at w n b s).1
      go true s = after_read-stream n s (w.read_message n s) refl
      go false s = next s (w.next_reader s) refl

  -- What `Read` returns, together with what can be read afterwards, is what could be read before:
  -- the bytes of the binary messages come in order, none is lost, none comes twice, and the other
  -- messages leave no trace. This holds of the bytes that come with an error too.
  pub read-stream :
      (fuel n : ℕ) (a : Adapter w)
      → stream a ≡ given (read w fuel n a).0 ++ stream (read w fuel n a).1
  unfolding read
  read-stream zero n a = refl
  read-stream (suc fuel) n a =
      go (λ a'. read-stream fuel n a') (read_once w n a).0 (read_once w n a).1
        (read_once-stream n a)
    where
      go :
          ((b : Adapter w) → stream b ≡ given (read w fuel n b).0 ++ stream (read w fuel n b).1)
          → (o : Option Outcome) (a' : Adapter w) → stream a ≡ given o ++ stream a'
          → stream a
            ≡ given (or_again w o a' (read w fuel n a')).0
              ++ stream (or_again w o a' (read w fuel n a')).1
      go again (some o) a' e = e
      go again none a' e = e ∙ again a'

  abbrev pub left_at : Bool → ℕ → ℕ
  left_at true n = suc n
  left_at false n = n

  -- How many rounds can end without a result: one for the current message, and one for each later.
  abbrev pub rounds_left : Adapter w → ℕ
  rounds_left a = left_at a.in_message (length (l.arriving a.socket))

  after_read_less :
      (n : ℕ) (s : w.State) (x : (Bytes × Ending) × w.State)
      → w.read_message n s ≡ x
      → (after_read w x).0 ≡ none
      → rounds_left (after_read w x).1 ≡ length (l.arriving s)
  unfolding after_read
  after_read_less n s ((bs, going), s') e h = cc
  after_read_less n s ((bs, broken), s') e h = cc
  after_read_less n s (([], eof), s') e h = ap length (l.read_bytes n s s' [] eof e).1
  after_read_less n s ((b ∷ bs, eof), s') e h = cc

  read_once_less :
      (n : ℕ) (a : Adapter w)
      → (read_once w n a).0 ≡ none
      → suc (rounds_left (read_once w n a).1) ≡ rounds_left a
  unfolding read_once read_once_at
  read_once_less n a = go a.in_message a.socket
    where
      next :
          (s : w.State) (x : Option Bool × w.State)
          → w.next_reader s ≡ x
          → (after_next w n x).0 ≡ none
          → suc (rounds_left (after_next w n x).1) ≡ length (l.arriving s)
      next s (none, s') e h = cc
      next s (some false, s') e h = sym (ap length (l.next_some s s' false e))
      next s (some true, s') e h =
          ap suc (after_read_less n s' (w.read_message n s') refl h)
          ∙ sym (ap length (l.next_some s s' true e))

      go :
          (b : Bool) (s : w.State)
          → (read_once_at w n b s).0 ≡ none
          → suc (rounds_left (read_once_at w n b s).1)
            ≡ rounds_left (record { in_message = b; socket = s })
      go true s h = ap suc (after_read_less n s (w.read_message n s) refl h)
      go false s h = next s (w.next_reader s) refl h

  -- `Read` returns: it skips at most the messages that arrive before the connection ends.
  read_returns :
      (fuel n : ℕ) (a : Adapter w)
      → rounds_left a < fuel
      → (o : Outcome) × ((read w fuel n a).0 ≡ some o)
  unfolding read
  read_returns zero n a h = absurd (omega arith)
  read_returns (suc fuel) n a h =
      go (λ a'. read_returns fuel n a') (read_once w n a).0 (read_once w n a).1 (read_once_less n a)
    where
      go :
          ((b : Adapter w) → rounds_left b < fuel → (o : Outcome) × ((read w fuel n b).0 ≡ some o))
          → (o : Option Outcome) (a' : Adapter w)
          → (o ≡ none → suc (rounds_left a') ≡ rounds_left a)
          → (x : Outcome) × ((or_again w o a' (read w fuel n a')).0 ≡ some x)
      go again (some o) a' e = (o, refl)
      go again none a' e = again a' (omega (arith, e refl))
