-- ===== src/Transport/Udp/Loop.antt =====
-- internal/transport/udp.go: the loop of `run` and what it leaves, the critical section of `sweep`,
-- and the sockets that `serveUDP` and `runUDP` open.
-- A list of peers is the order in which Go visits the entries of the map.
pub mod Released
mod Entries
pub mod Closing
pub mod Used
pub mod Expired
use g_tun.Prelude.{
  ℕ, ◌-◌, ltb, ◌++◌, Bytes, Bool, true, false, Option, none, some, List, [], ◌∷◌, if◌then◌else◌,
}
use g_tun.Result.{Result, ok, err, ◌>>◌, ◌>>=◌, resolve_address, listen, read_datagram}
use g_tun.Auth.Mac.{Hmac}
use g_tun.Transport.Udp.{
  Relay, Filter, Write, init, udp_idle_timeout, close_upstream, on_datagram, close_entry,
  sweep_entry, server_up, server_down, client_up, client_down,
}

-- What `ReadFromUDPAddrPort` gives: a datagram with its peer, for which `dials` and `writes` tell
-- whether the dial of the upstream socket and the write succeed, or an error, with whether the
-- context is done or the listener closed.
pub data Read : Type 0 where
  datagram : (dials writes : Bool) (peer now : ℕ) (pkt : Bytes) → Read
  failed : (over : Bool) → Read

-- The loop goes on, with what was written upstream, or `run` has returned.
pub data Turn : Type 0 where
  goes_on : Option Write → Relay → Turn
  returns : Result (Unit {0}) → Relay → Turn

unfoldable pub close_all : List ℕ → Relay → Relay
close_all [] r = r
close_all (p ∷ ps) r = close_all ps (close_entry p r)

-- The session of an entry, if the loop of `sweep` puts it on the list `idle`.
idle_at : Option ℕ → ℕ → Relay → List ℕ
idle_at none cutoff r = []
idle_at (some s) cutoff r = if ltb (r.last_seen s) cutoff then s ∷ [] else []

unfoldable pub idle_entry : ℕ → ℕ → Relay → List ℕ
unfolding idle_at
idle_entry now p r = idle_at (r.sessions p) (now - udp_idle_timeout) r

-- The critical section of one tick, with the list of what it takes out of the map; no session is used
-- meanwhile.
unfoldable pub sweep_entries : ℕ → List ℕ → Relay → List ℕ × Relay
sweep_entries now [] r = ([], r)
sweep_entries now (p ∷ ps) r =
    let rest = sweep_entries now ps (sweep_entry now p r) in (idle_entry now p r ++ rest.0, rest.1)

forwarded : Option Write × Relay → Turn
forwarded (out, r) = goes_on out r

-- A turn of the loop of `run`, with the deferred `closeAll` where it returns.
unfoldable pub on_read : Filter → List ℕ → Read → Relay → Turn
unfolding forwarded
on_read up peers (datagram dials writes peer now pkt) r =
    forwarded (on_datagram up dials writes peer now pkt r)
on_read up peers (failed over) r =
    returns (if over then ok tt else err read_datagram) (close_all peers r)

-- `dialUDPFunc` resolves the address once, and `listenUDP` opens the listener.
dial_udp_func : Bool → Result (Unit {0})
dial_udp_func resolves = if resolves then ok tt else err resolve_address

listen_udp : Bool → Result Relay
listen_udp listens = if listens then ok init else err listen

-- The relay behind `serveUDP` and `runUDP`: its table and its two filters.
pub record Relaying : Type 0 where
  pub table : Relay
  pub up : Filter
  pub down : Filter

open_relay : Bool → Bool → Filter → Filter → Result Relaying
unfolding dial_udp_func listen_udp
open_relay resolves listens up down = do
  dial_udp_func resolves
  relay ← listen_udp listens
  ok (record { table = relay; up = up; down = down })

module _ (h : Hmac) (token : Bytes) where
  -- `serveUDP` up to `relay.run`: the target's address is resolved, and the data port opened.
  unfoldable pub server_relay : Bool → Bool → Result Relaying
  unfolding open_relay
  server_relay resolves listens =
      open_relay resolves listens (server_up h token) (server_down h token)

  -- `runUDP` up to `relay.run`: the server's address is resolved, and the local port opened.
  unfoldable pub client_relay : Bool → Bool → Result Relaying
  unfolding open_relay
  client_relay resolves listens =
      open_relay resolves listens (client_up h token) (client_down h token)
