-- ===== src/Tests/Locals.antt =====
-- The client's local listener.
use g_tun.Prelude.{ℕ, ◌≡◌, refl, Bool, false, ltb, if◌then◌else◌}
use g_tun.Result.{err, dialer_closed}
use g_tun.Transport.Session.{Network, session}
use g_tun.Transport.Session.Owned.{closings}
use g_tun.Transport.Local.{accept_local, obtain, open_succeeds, leave}
use g_tun.Transport.Local
use g_tun.Transport.Local.Tunnels.{Holds, tunnels_settle}
use g_tun.Tests.Sessions.{good}

-- A connection is relayed, a second one obtains the session, and `Run` returns.
abbrev accepted : Local.Local
accepted = accept_local (accept_local Local.init)

abbrev left : Local.Local
left = leave (obtain good 1 false (open_succeeds 0 0 (obtain good 0 false accepted)))

left-Reach : Local.Reach left
unfolding accept_local obtain open_succeeds leave session
left-Reach =
    Local.next
      (Local.next
        (Local.next
          (Local.next
            (Local.next (Local.next Local.start (Local.accepts refl)) (Local.accepts refl))
            (Local.obtains good 0 false refl))
          (Local.opens 0 0 false refl))
        (Local.obtains good 1 false refl))
      (Local.leaves refl)

tunnels_settle_example :
    ((s : ℕ) → closings s left.dialer.shut ≡ (if ltb s left.dialer.connected then 1 else 0))
    × ((net : Network) (c : ℕ) (last : Bool)
        → (session net left.dialer ≡ (err dialer_closed, left.dialer))
          × ((obtain net c last left).tunnels c ≡ Local.finished))
    × ((c : ℕ) → Holds left.dialer.connected (left.tunnels c))
unfolding leave
tunnels_settle_example = tunnels_settle left left-Reach refl
