-- ===== src/Transport/Session/Whole.antt =====
-- internal/transport/session.go: a whole `Dial` among the steps of the other goroutines.
use g_tun.Prelude.{ℕ, ◌+◌, ◌≤◌, ◌<◌, ◌≡◌, refl, false, Option, none, some, ◌⊎◌, inl, inr, arith}
use g_tun.Result.{Result, ok, err, Error, dialer_closed, Result-cases}
use g_tun.Transport.Session.{
  Dialer, Network, session, Round, opened, failed, stale, try_open, round_on, round, first_round,
  last_round, dial,
}
use g_tun.Transport.Session.Owned.{
  Reach, next, obtains, discards, closings, Reach-Owned, session-connected,
}
use g_tun.Transport.Session.Dial.{dial_bounds, dial_ok}

round-Reach : (net : Network) (d : Dialer) → Reach d → Reach (round net d).1
unfolding round round_on try_open
round-Reach net d r =
    go (session net d).0 (session net d).1 (next r (obtains net)) (session-connected net d r).1
  where
    opens :
        (s : ℕ) (e : Option Error) (d' : Dialer)
        → Reach d'
        → s < d'.connected
        → Reach (try_open s e d').1
    opens s none d' r' h = r'
    opens s (some e) d' r' h = next r' (discards s h)

    go :
        (x : Result ℕ) (d' : Dialer)
        → Reach d'
        → ((s : ℕ) → x ≡ ok s → s < d'.connected)
        → Reach (round_on net (x, d')).1
    go (err e) d' r' gives = r'
    go (ok s) d' r' gives = opens s (net.open_stream s) d' r' (gives s refl)

dial-Reach : (first second : Network) (d : Dialer) → Reach d → Reach (dial first second d).1
unfolding dial first_round last_round
dial-Reach first second d r = go (round first d).0 (round first d).1 (round-Reach first d r)
  where
    last : (x : Round) (d' : Dialer) → Reach d' → Reach (last_round (x, d')).1
    last (opened s) d' r' = r'
    last (failed e) d' r' = r'
    last (stale e) d' r' = r'

    go : (x : Round) (d' : Dialer) → Reach d' → Reach (first_round second (x, d')).1
    go (opened s) d' r' = r'
    go (failed e) d' r' = r'
    go (stale e) d' r' = last (round second d').0 (round second d').1 (round-Reach second d' r')

-- A whole `Dial` is a history of the dialer's steps, after any other history of them: so it leaves
-- each session the current one or closed once. It connects at most twice. It fails, or its stream is
-- on the current session, which was never closed. On a closed dialer it fails with
-- `errDialerClosed` and changes nothing.
pub dial_sound :
    (first second : Network) (d : Dialer)
    → Reach d
    → Reach (dial first second d).1
      × ((dial first second d).1.connected ≤ d.connected + 2)
      × (((e : Error) × ((dial first second d).0 ≡ err e))
          ⊎ ((s : ℕ) × ((dial first second d).0 ≡ ok s)
              × ((dial first second d).1.cur ≡ some s)
              × (closings s (dial first second d).1.shut ≡ 0)))
      × ((d.closed ≡ false) ⊎ (dial first second d ≡ (err dialer_closed, d)))
dial_sound first second d r = (
  after,
  (dial_bounds first second d).0,
  elim (Result-cases (dial first second d).0) [
    | inr (e, h) ↦ inl (e, h)
    | inl (s, h) ↦
        let at : (dial first second d).1.cur ≡ some s = (dial_ok first second d s h).0 in
        inr (s, h, at, never s at)
  ],
  (dial_bounds first second d).2,
)
  where
    after : Reach (dial first second d).1
    after = dial-Reach first second d r

    never :
        (s : ℕ) → (dial first second d).1.cur ≡ some s → closings s (dial first second d).1.shut ≡ 0
    never s at = ground (arith, (Reach-Owned after).once s)
