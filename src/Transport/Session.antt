-- ===== src/Transport/Session.antt =====
-- internal/transport/session.go: `sessionDialer`, which opens streams on one shared session.
-- A session is known by its number, in the order of the connects. What the peer and the network do
-- (a session has died, a connect or an open fails) is the argument `Network` of each attempt.
pub mod Owned
pub mod Dial
pub mod Whole
pub mod Backends
use g_tun.Prelude.{
  ℕ, zero, suc, ◌+◌, Bool, true, false, not, Option, none, some, List, [], ◌∷◌, ◌==◌, ltb,
  if◌then◌else◌, ◌≡◌, refl,
}
use g_tun.Result.{Result, ok, err, Error, dialer_closed}

pub record Dialer : Type 0 where
  pub cur : Option ℕ
  pub closed : Bool
  -- The number of sessions that `connect` has made.
  pub connected : ℕ
  -- The sessions on which `close` was called, the last one first.
  pub shut : List ℕ

abbrev pub init : Dialer
init = record { cur = none; closed = false; connected = 0; shut = [] }

-- `isClosed` of a session, the error of `connect` and that of `open`, during one attempt.
pub record Network : Type 0 where
  pub is_closed : ℕ → Bool
  pub connect : Option Error
  pub open_stream : ℕ → Option Error

-- `d.cur.close(); d.cur = nil`.
drop_current : ℕ → Dialer → Dialer
drop_current s d = record d { cur = none; shut = s ∷ d.shut }

connect_new : Option Error → Dialer → Result ℕ × Dialer
connect_new (some e) d = (err e, d)
connect_new none d =
    (ok d.connected, record d { cur = some d.connected; connected = suc d.connected })

-- The lookup of the current session behind the test of `closed`.
current : Network → Option ℕ → Dialer → Result ℕ × Dialer
unfolding drop_current connect_new
current net none d = connect_new net.connect d
current net (some s) d =
    if not (net.is_closed s) then (ok s, d) else connect_new net.connect (drop_current s d)

unfoldable pub session : Network → Dialer → Result ℕ × Dialer
unfolding current
session net d = if d.closed then (err dialer_closed, d) else current net d.cur d

discard_at : Option ℕ → ℕ → Dialer → Dialer
unfolding drop_current
discard_at none s d = d
discard_at (some t) s d = if t == s then drop_current t d else d

unfoldable pub discard : ℕ → Dialer → Dialer
unfolding discard_at
discard s d = discard_at d.cur s d

close_at : Option ℕ → Dialer → Dialer
unfolding drop_current
close_at none d = d
close_at (some s) d = drop_current s d

unfoldable pub close : Dialer → Dialer
unfolding close_at
close d = close_at d.cur (record d { closed = true })

-- One round of the loop of `Dial`: a stream on a session, or an error. `inr` is the error of `open`,
-- after which the loop goes on.
pub data Round : Type 0 where
  opened : ℕ → Round
  failed : Error → Round
  stale : Error → Round

try_open : ℕ → Option Error → Dialer → Round × Dialer
try_open s none d = (opened s, d)
try_open s (some e) d = (stale e, discard s d)

round_on : Network → Result ℕ × Dialer → Round × Dialer
unfolding try_open
round_on net (err e, d) = (failed e, d)
round_on net (ok s, d) = try_open s (net.open_stream s) d

round : Network → Dialer → Round × Dialer
unfolding round_on
round net d = round_on net (session net d)

-- The last of the two rounds, and the first.
last_round : Round × Dialer → Result ℕ × Dialer
last_round (opened s, d) = (ok s, d)
last_round (failed e, d) = (err e, d)
last_round (stale e, d) = (err e, d)

first_round : Network → Round × Dialer → Result ℕ × Dialer
unfolding last_round
first_round second (opened s, d) = (ok s, d)
first_round second (failed e, d) = (err e, d)
first_round second (stale e, d) = last_round (round second d)

-- `Dial`; the result is the session that the stream was opened on.
unfoldable pub dial : Network → Network → Dialer → Result ℕ × Dialer
unfolding first_round round
dial first second d = first_round second (round first d)
