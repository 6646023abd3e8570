-- ===== src/Tests/Datagrams.antt =====
-- The datagrams of the `udp` protocol.
use g_tun.Prelude.{
  arith, ℕ, ◌≡◌, refl, codes, Bytes, true, false, Option, List, All, some, none, [], ◌∷◌, ◌==◌,
  if◌then◌else◌,
}
use g_tun.Auth.Datagram.{
  client_to_server, server_to_client, seal_datagram, open_datagram, datagram_tag,
}
use g_tun.Transport.Udp.{
  Relay, Write, received, touch, init, close_upstream, sweep_entry, on_datagram, on_reply, session,
  client_up, client_down, server_up, server_down,
}
use g_tun.Transport.Udp.Table.{Reach, start, next, receives, Table, Reach-Table}
use mathlib.Core.List.{Memᴰ}
use g_tun.Transport.Udp.Traffic
use g_tun.Transport.Udp.Traffic.{Traffic, up, down, logged_up, logged_down, History, replies}
use g_tun.Transport.Udp.Traffic.Isolated.{KeepsTo, relay_isolates}
use g_tun.Transport.Udp.Filters.{leaves, relay_round_trip}
use g_tun.Transport.Udp.Loop.{failed, on_read, sweep_entries, idle_entry}
use g_tun.Transport.Udp.Loop.Closing.{Closes, close, done, stay, goes}
use g_tun.Transport.Udp.Loop.Used
use g_tun.Transport.Udp.Loop.Used.{Uses, used_up}
use g_tun.Transport.Udp.Loop.Expired.{Swept, sweep_lem}
use g_tun.Transport.Udp.Loop.Released.{Leaves, Covers, on_read-Leaves}
use g_tun.Tests.Samples.{sample_hmac, token}

abbrev hello : Bytes
hello = codes "hello datagram"

abbrev sealed : Bytes
sealed = seal_datagram sample_hmac token client_to_server hello

-- Peer 7 has sent one datagram at time 100.
abbrev used : Relay
used = (on_datagram (client_up sample_hmac token) true true 7 100 hello init).1

used-Reach : Reach used
used-Reach = next start (receives (client_up sample_hmac token) true true 7 100 hello)

Reach-Table_example : Table used
Reach-Table_example = Reach-Table used-Reach

-- The write of the first relay fails, and the other three succeed.
relay_round_trip_example :
    (i : ℕ) × (j : ℕ) × (let sealed_answer =
        seal_datagram sample_hmac token server_to_client (codes "ok") in
      let c' = on_datagram (client_up sample_hmac token) true false 7 200 hello used in
      let s' = on_datagram (server_up sample_hmac token) true true 9 200 sealed init in
      (leaves c'.0 ≡ none)
      × (leaves s'.0 ≡ some (j, hello))
      × (leaves (on_reply (server_down sample_hmac token) true j 200 (codes "ok") s'.1).0
          ≡ some (9, sealed_answer))
      × (leaves (on_reply (client_down sample_hmac token) true i 200 sealed_answer c'.1).0
          ≡ some (7, codes "ok"))
      × (c'.1.sessions 7 ≡ some i)
      × (s'.1.sessions 9 ≡ some j)
      × (c'.1.last_seen i ≡ 200)
      × (s'.1.last_seen j ≡ 200))
relay_round_trip_example =
    relay_round_trip sample_hmac token 7 9 200 hello (codes "ok") false true true true used init
      used-Reach start (omega arith) (omega arith)

used_lem : (p : ℕ) → used.sessions p ≡ (if 7 == p then some 0 else none)
unfolding on_datagram session received client_up
used_lem p = refl

covers : Covers (7 ∷ []) used
covers p s e = ground (arith, used_lem p)

on_read-Leaves_example :
    Leaves used true (on_read (client_up sample_hmac token) (7 ∷ []) (failed true) used)
on_read-Leaves_example =
    on_read-Leaves (client_up sample_hmac token) (7 ∷ []) (failed true) used used-Reach covers

abbrev idle_used : ℕ → ℕ
idle_used =
    used_up 100 (on_datagram (client_up sample_hmac token) true true 7 100 hello init).0 (λ s. 0)

used-Uses : Uses (client_up sample_hmac token) (client_down sample_hmac token) used idle_used
used-Uses = Used.receives true true 7 100 hello Used.start

-- Four minutes later the session of peer 7 is idle.
abbrev swept : List ℕ × Relay
swept = sweep_entries 240_000_000_000 (7 ∷ []) used

swept_test : (swept.1.sessions 7 ≡ none) × (swept.0 ≡ 0 ∷ [])
unfolding sweep_entries idle_entry sweep_entry on_datagram session received client_up touch
swept_test = (refl, refl)

-- A datagram of peer 7 comes in between, for which there is a new session.
abbrev meanwhile : Relay
meanwhile = (on_datagram (client_up sample_hmac token) true true 7 240_000_000_001 hello swept.1).1

swept_closes : Closes swept.0 swept.1 (close_upstream 0 meanwhile)
swept_closes = rw (swept_test.1) (
    close 0 (goes stay (receives (client_up sample_hmac token) true true 7 240_000_000_001 hello))
      (done stay))

sweep_lem_example :
    Reach (close_upstream 0 meanwhile)
    × Swept 240_000_000_000 idle_used used swept (close_upstream 0 meanwhile) 7
sweep_lem_example =
    sweep_lem (client_up sample_hmac token) (client_down sample_hmac token) 240_000_000_000 (7 ∷ [])
      used (close_upstream 0 meanwhile) idle_used 7 used-Uses covers swept_closes

-- Peer 9 has sent a sealed datagram to the server, and the target has answered.
abbrev asked : Option Write × Relay
asked = on_datagram (server_up sample_hmac token) true true 9 100 sealed init

abbrev answered : Option Write × Relay
answered = on_reply (server_down sample_hmac token) true 0 200 (codes "ok") asked.1

abbrev traffic : List Traffic
traffic = logged_down 0 (codes "ok") answered.0 (logged_up 9 sealed asked.0 [])

traffic_history :
    History (server_up sample_hmac token) (server_down sample_hmac token) answered.1 traffic
unfolding on_datagram session received server_up open_datagram seal_datagram datagram_tag
traffic_history =
    replies true 0 200 (codes "ok") (omega arith)
      (Traffic.receives true true 9 100 sealed Traffic.start)

abbrev sealed_ok : Bytes
sealed_ok = seal_datagram sample_hmac token server_to_client (codes "ok")

in_traffic : Memᴰ (down 9 0 (codes "ok") sealed_ok) traffic
unfolding on_datagram session received server_up open_datagram on_reply server_down seal_datagram
    datagram_tag
in_traffic = Memᴰ.head refl

relay_isolates_example :
    (server_down sample_hmac token (codes "ok") ≡ some sealed_ok)
    × ((asked' : Bytes) × (sent : Bytes) × Memᴰ (up 9 0 asked' sent) traffic
        × (server_up sample_hmac token asked' ≡ some sent))
    × All (KeepsTo (server_up sample_hmac token) (server_down sample_hmac token) 0 9) traffic
relay_isolates_example =
    relay_isolates (server_up sample_hmac token) (server_down sample_hmac token) answered.1 traffic
      9 0 (codes "ok") sealed_ok traffic_history in_traffic
