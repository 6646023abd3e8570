-- ===== src/Transport/Udp/Traffic.antt =====
-- internal/transport/udp.go: whose datagrams go over which socket: the relay's goroutines with what they
-- write.
pub mod Isolated
use g_tun.Prelude.{
  ℕ, ◌<◌, ◌≤◌, ◌≡◌, refl, sym, Bytes, Bool, Option, none, some, List, [], ◌∷◌, All, ◌⊎◌, inl, inr,
  arith, Option-cases, Bool-cases, ltb, true, false,
}
use mathlib.Core.List.{Memᴰ}
use mathlib.Core.List.Memᴰ
use g_tun.Transport.Udp.{
  Relay, Filter, Write, received, init, touch, session, on_datagram, on_reply, remove_entry,
  close_upstream, sweep_entry, close_entry, add_session, update,
}

-- A write, in either direction: the peer, the session on whose socket the datagram went or came, what
-- was read, and what was written.
pub data Traffic : Type 0 where
  up : (peer s : ℕ) (pkt payload : Bytes) → Traffic
  down : (peer s : ℕ) (pkt payload : Bytes) → Traffic

abbrev pub logged_up : ℕ → Bytes → Option Write → List Traffic → List Traffic
logged_up p pkt none log = log
logged_up p pkt (some (s, payload, writes)) log = up p s pkt payload ∷ log

abbrev pub logged_down : ℕ → Bytes → Option Write → List Traffic → List Traffic
logged_down s pkt none log = log
logged_down s pkt (some (p, payload, writes)) log = down p s pkt payload ∷ log

module _ (up_filter down_filter : Filter) where
  -- The steps of the relay's goroutines with what they write, the newest first, also where the
  -- write fails. A pump reads from
  -- the socket of a session that was made, which may be gone from the map.
  pub data History : Relay → List Traffic → Type 0 where
    start : History init []
    receives :
        {r : Relay} {log : List Traffic} (dials writes : Bool) (peer now : ℕ) (pkt : Bytes)
        → History r log
        → History (on_datagram up_filter dials writes peer now pkt r).1 (
            logged_up peer (received pkt) (on_datagram up_filter dials writes peer now pkt r).0 log)
    replies :
        {r : Relay} {log : List Traffic} (writes : Bool) (s now : ℕ) (pkt : Bytes)
        → s < r.created
        → History r log
        → History
            (on_reply down_filter writes s now pkt r).1
            (logged_down s (received pkt) (on_reply down_filter writes s now pkt r).0 log)
    removes :
        {r : Relay} {log : List Traffic} (s : ℕ) → History r log → History (remove_entry s r) log
    sweeps :
        {r : Relay} {log : List Traffic} (now p : ℕ)
        → History r log
        → History (sweep_entry now p r) log
    closes_all :
        {r : Relay} {log : List Traffic} (p : ℕ) → History r log → History (close_entry p r) log
    closes :
        {r : Relay} {log : List Traffic} (s : ℕ) → History r log → History (close_upstream s r) log
