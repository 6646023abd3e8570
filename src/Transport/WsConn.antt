-- ===== src/Transport/WsConn.antt =====
-- internal/transport/wsconn.go: `Read` of the adapter over a WebSocket; Transport.WsConn.Write has `Write`.
-- github.com/gorilla/websocket is the parameter `Socket`; `Lawful` states what its documentation
-- promises of `NextReader` and of the readers that it returns.
pub mod Stream
pub mod Write
use g_tun.Prelude.{
  ℕ, zero, suc, ◌≡◌, Bytes, Bool, true, false, Option, none, some, List, [], ◌∷◌, ◌++◌,
  if◌then◌else◌,
}

-- The error of a read: none, `io.EOF` or another one.
pub data Ending : Type 0 where
  going eof broken : Ending

pub record Socket : Type 1 where
  pub State : Type 0
  -- `NextReader`: an error, or whether the message is binary.
  pub next_reader : State → Option Bool × State
  -- `Read` of the current message's reader, into a buffer of the given size.
  pub read_message : ℕ → State → (Bytes × Ending) × State

-- The adapter: whether `reader` is set, and the socket's state.
pub record Adapter (w : Socket) : Type 0 where
  pub in_message : Bool
  pub socket : w.State

-- `(n, err)` of a read; `returned false` is an error.
pub record Outcome : Type 0 where
  pub bytes : Bytes
  pub failed : Bool

module _ (w : Socket) where
  -- One round of the loop: `none` goes on with the next round.
  abbrev pub Round : Type 0
  Round = Option Outcome × Adapter w

  abbrev out : Bytes → Bool → Bool → w.State → Round
  out bs failed in_message s = (
    some (record { bytes = bs; failed = failed }),
    record { in_message = in_message; socket = s },
  )

  after_read : (Bytes × Ending) × w.State → Round
  after_read ((bs, going), s) = out bs false true s
  after_read ((bs, broken), s) = out bs true true s
  after_read (([], eof), s) = (none, record { in_message = false; socket = s })
  after_read ((b ∷ bs, eof), s) = out (b ∷ bs) false false s

  after_next : ℕ → Option Bool × w.State → Round
  unfolding after_read
  after_next n (none, s) = out [] true false s
  after_next n (some false, s) = (none, record { in_message = false; socket = s })
  after_next n (some true, s) = after_read (w.read_message n s)

  read_once_at : ℕ → Bool → w.State → Round
  unfolding after_read after_next
  read_once_at n true s = after_read (w.read_message n s)
  read_once_at n false s = after_next n (w.next_reader s)

  unfoldable pub read_once : ℕ → Adapter w → Round
  unfolding read_once_at
  read_once n a = read_once_at n a.in_message a.socket

  -- `return`, or `continue`.
  abbrev pub or_again : Option Outcome → Adapter w → Round → Round
  or_again (some o) a rest = (some o, a)
  or_again none a rest = rest

  -- `Read` into a buffer of `n` bytes; the fuel bounds the rounds of its loop.
  unfoldable pub read : ℕ → ℕ → Adapter w → Round
  read zero n a = (none, a)
  read (suc fuel) n a = let (o, a') = read_once n a in or_again o a' (read fuel n a')

-- What the adapter relies on. `pending` is what is left of the current message, and `arriving` are
-- the messages that come after it before the connection ends: whether each is binary, and its bytes.
pub record Lawful (w : Socket) : Type 0 where
  pub pending : w.State → Bytes
  pub arriving : w.State → List (Bool × Bytes)
  -- `NextReader` goes to the next message, whatever was left of the current one.
  pub next_some :
      (s s' : w.State) (binary : Bool)
      → w.next_reader s ≡ (some binary, s')
      → arriving s ≡ (binary, pending s') ∷ arriving s'
  pub next_none : (s s' : w.State) → w.next_reader s ≡ (none, s') → arriving s' ≡ arriving s
  -- A reader gives the message's bytes in order, and `io.EOF` at its end.
  pub read_bytes :
      (n : ℕ) (s s' : w.State) (bs : Bytes) (e : Ending)
      → w.read_message n s ≡ ((bs, e), s')
      → (pending s ≡ bs ++ pending s') × (arriving s' ≡ arriving s)
  pub read_eof :
      (n : ℕ) (s s' : w.State) (bs : Bytes) → w.read_message n s ≡ ((bs, eof), s') → pending s' ≡ []
