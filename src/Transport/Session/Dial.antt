-- ===== src/Transport/Session/Dial.antt =====
-- internal/transport/session.go: what one `Dial` does.
use g_tun.Prelude.{
  ℕ, suc, ◌+◌, ◌≤◌, true, false, none, some, ◌∷◌, arith, Bool, ◌≡◌, refl, ◌⊎◌, inl, inr,
}
use g_tun.Result.{ok, err, Error, dialer_closed}
use g_tun.Transport.Session.{Dialer, Network, session, discard, dial}

-- A dial connects at most twice, and on a closed dialer not at all: it then fails with
-- `errDialerClosed` and changes nothing.
pub dial_bounds :
    (first second : Network) (d : Dialer)
    → ((dial first second d).1.connected ≤ d.connected + 2)
      × (d.connected ≤ (dial first second d).1.connected)
      × ((d.closed ≡ false) ⊎ (dial first second d ≡ (err dialer_closed, d)))
unfolding dial session discard
dial_bounds first second d = (ground arith, ground arith, closed_or d.closed refl)
  where
    closed_or :
        (b : Bool)
        → d.closed ≡ b
        → (d.closed ≡ false) ⊎ (dial first second d ≡ (err dialer_closed, d))
    closed_or false e = inl e
    closed_or true e = inr (ground arith)

-- A session that the dial returned is the current one, and was not reported closed when it was
-- obtained, unless it was connected by this dial.
pub dial_ok :
    (first second : Network) (d : Dialer) (s : ℕ)
    → (dial first second d).0 ≡ ok s
    → ((dial first second d).1.cur ≡ some s)
      × ((d.cur ≡ some s) × (first.is_closed s ≡ false) ⊎ (d.connected ≤ s))
unfolding dial session discard
dial_ok first second d s h = (ground arith, ground arith)

-- A dial that meets a session which cannot open a stream closes it and tries once more on a fresh
-- one: it succeeds if that second session can be connected and opens a stream.
dial_recovers :
    (first second : Network) (d : Dialer) (s : ℕ) (e : Error)
    → d.closed ≡ false
    → d.cur ≡ some s
    → first.is_closed s ≡ false
    → first.open_stream s ≡ some e
    → second.connect ≡ none
    → second.open_stream d.connected ≡ none
    → dial first second d ≡ (
      ok d.connected,
      record d { cur = some d.connected; connected = suc d.connected; shut = s ∷ d.shut },
    )
unfolding dial session discard
dial_recovers first second d s e live now seen stale connects opens = ground arith
