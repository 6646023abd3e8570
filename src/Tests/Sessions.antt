-- ===== src/Tests/Sessions.antt =====
-- The session dialer.
use g_tun.Prelude.{ℕ, ◌+◌, ◌≡◌, ◌≤◌, ◌⊎◌, false, some, none, ◌==◌, if◌then◌else◌, arith, ◌<◌}
use g_tun.Result.{Error, ok, err, open_stream, dialer_closed}
use g_tun.Transport.Session.{Dialer, Network, init, session, discard, close, dial}
use g_tun.Transport.Session.Owned.{
  start, next, obtains, discards, closes, Owned, Reach-Owned, Reach, closings,
}
use g_tun.Transport.Session.Whole.{dial_sound}

-- Everything works; and a network where session 0 looks alive but opens no stream.
abbrev pub good : Network
good = record { is_closed = λ s. false; connect = none; open_stream = λ s. none }

abbrev stale : Network
stale = record {
  is_closed = λ s. false;
  connect = none;
  open_stream = λ s. if s == 0 then some open_stream else none;
}

-- Two callers obtain session 0, one of them discards it, and the dialer is closed.
abbrev after_first : Dialer
after_first = (session good init).1

abbrev after_second : Dialer
after_second = (session good after_first).1

one_connected : 0 < after_second.connected
unfolding session
one_connected = omega arith

Reach-Owned_example : Owned (close (discard 0 after_second))
Reach-Owned_example = Reach-Owned (
    next (next (next (next start (obtains good)) (obtains good)) (discards 0 one_connected)) closes)

dial_sound_example :
    Reach (dial stale stale after_first).1
    × ((dial stale stale after_first).1.connected ≤ after_first.connected + 2)
    × (((e : Error) × ((dial stale stale after_first).0 ≡ err e))
        ⊎ ((s : ℕ) × ((dial stale stale after_first).0 ≡ ok s)
            × ((dial stale stale after_first).1.cur ≡ some s)
            × (closings s (dial stale stale after_first).1.shut ≡ 0)))
    × ((after_first.closed ≡ false)
        ⊎ (dial stale stale after_first ≡ (err dialer_closed, after_first)))
dial_sound_example = dial_sound stale stale after_first (next start (obtains good))
