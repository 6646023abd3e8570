-- ===== src/Transport/Udp.antt =====
-- internal/transport/udp.go: the datagram relay.
-- A peer's address is a number, and so is a session, in the order of the dials. The map and the
-- fields of the sessions are functions of these numbers; times are nanoseconds.
pub mod Table
pub mod Filters
pub mod Loop
pub mod Traffic
use g_tun.Prelude.{
  ℕ, zero, suc, ◌+◌, ◌-◌, ◌*◌, ◌<◌, Bytes, Bool, true, false, not, Option, none, some, List, [],
  ◌∷◌, ◌==◌, ltb, take, if◌then◌else◌, ◌≡◌, refl,
}
use g_tun.Auth.Mac.{Hmac}
use g_tun.Auth.Datagram.{client_to_server, server_to_client, seal_datagram, open_datagram}

-- 3 minutes.
abbrev pub udp_idle_timeout : ℕ
udp_idle_timeout = 180_000_000_000

abbrev pub max_datagram_size : ℕ
max_datagram_size = 65_535

-- What a read into the buffer gives of a datagram: the bytes that do not fit are lost.
unfoldable pub received : Bytes → Bytes
received pkt = take max_datagram_size pkt

pub record Relay : Type 0 where
  pub sessions : ℕ → Option ℕ
  pub created : ℕ
  pub peer : ℕ → ℕ
  pub last_seen : ℕ → ℕ
  -- A goroutine is past its last use of the session, and closes its socket next.
  pub doomed : ℕ → Bool
  pub closed : ℕ → Bool

abbrev pub init : Relay
init = record {
  sessions = λ p. none;
  created = 0;
  peer = λ s. 0;
  last_seen = λ s. 0;
  doomed = λ s. false;
  closed = λ s. false;
}

abbrev update {ℓ} : {A : Type ℓ} → (ℕ → A) → ℕ → A → ℕ → A
update f k v j = if k == j then v else f j

unfoldable pub touch : ℕ → ℕ → Relay → Relay
touch s now r = record r { last_seen = update r.last_seen s now }

-- A new session for the peer, whose number is the next one.
add_session : ℕ → ℕ → Relay → Relay
unfolding touch
add_session peer now r = touch r.created now (record r {
  sessions = update r.sessions peer (some r.created);
  created = suc r.created;
  peer = update r.peer r.created peer;
})

-- `dials` tells whether the dial of the upstream socket succeeds.
session_at : Option ℕ → Bool → ℕ → ℕ → Relay → Option ℕ × Relay
unfolding add_session
session_at (some s) dials peer now r = (some s, r)
session_at none false peer now r = (none, r)
session_at none true peer now r = (some r.created, add_session peer now r)

unfoldable pub session : Bool → ℕ → ℕ → Relay → Option ℕ × Relay
unfolding session_at
session dials peer now r = session_at (r.sessions peer) dials peer now r

-- A datagram filter: `none` drops the datagram.
abbrev pub Filter : Type 0
Filter = Bytes → Option Bytes

-- A call of `Write`: on which upstream socket, or to which peer, with which bytes, and whether it
-- succeeds. If it fails, the datagram is lost, which the relay only logs.
abbrev pub Write : Type 0
Write = ℕ × Bytes × Bool

forward : Bool → ℕ → Bytes → Option ℕ × Relay → Option Write × Relay
forward writes now payload (none, r) = (none, r)
forward writes now payload (some s, r) = (some (s, payload, writes), touch s now r)

passed_up : Option Bytes → Bool → Bool → ℕ → ℕ → Relay → Option Write × Relay
unfolding forward
passed_up none dials writes peer now r = (none, r)
passed_up (some payload) dials writes peer now r =
    forward writes now payload (session dials peer now r)

-- One round of the loop of `run`: a datagram from a peer. `writes` tells whether a write succeeds.
-- The lookup of the session, the touch and the write follow each other here without another goroutine
-- in between; `Transport.Udp.Table` has them as steps of their own, too.
unfoldable pub on_datagram : Filter → Bool → Bool → ℕ → ℕ → Bytes → Relay → Option Write × Relay
unfolding passed_up
on_datagram up dials writes peer now pkt r = passed_up (up (received pkt)) dials writes peer now r

passed_down : Option Bytes → Bool → ℕ → ℕ → Relay → Option Write × Relay
passed_down none writes s now r = (none, r)
passed_down (some out) writes s now r = (some (r.peer s, out, writes), touch s now r)

-- One round of `pump`: a datagram from the session's upstream socket goes back to its peer.
unfoldable pub on_reply : Filter → Bool → ℕ → ℕ → Bytes → Relay → Option Write × Relay
unfolding passed_down
on_reply down writes s now pkt r = passed_down (down (received pkt)) writes s now r

-- `r.sessions[p] == s`.
abbrev is_at : Option ℕ → ℕ → Bool
is_at none s = false
is_at (some t) s = t == s

-- The critical section of `remove`; the close comes after it.
unfoldable pub remove_entry : ℕ → Relay → Relay
remove_entry s r = record r {
  sessions =
      if is_at (r.sessions (r.peer s)) s then update r.sessions (r.peer s) none else r.sessions;
  doomed = update r.doomed s true;
}

unfoldable pub close_upstream : ℕ → Relay → Relay
close_upstream s r = record r { closed = update r.closed s true }

unfoldable remove : ℕ → Relay → Relay
unfolding remove_entry close_upstream
remove s r = close_upstream s (remove_entry s r)

forget : ℕ → ℕ → Relay → Relay
forget p s r = record r { sessions = update r.sessions p none; doomed = update r.doomed s true }

sweep_at : Option ℕ → ℕ → ℕ → Relay → Relay
unfolding forget
sweep_at none p cutoff r = r
sweep_at (some s) p cutoff r = if ltb (r.last_seen s) cutoff then forget p s r else r

-- The sweep's loop body at one entry of the map: an idle session is forgotten, and closed later.
unfoldable pub sweep_entry : ℕ → ℕ → Relay → Relay
unfolding sweep_at
sweep_entry now p r = sweep_at (r.sessions p) p (now - udp_idle_timeout) r

close_at : Option ℕ → ℕ → Relay → Relay
unfolding forget close_upstream
close_at none p r = r
close_at (some s) p r = close_upstream s (forget p s r)

-- The loop body of `closeAll` at one entry.
unfoldable pub close_entry : ℕ → Relay → Relay
unfolding close_at
close_entry p r = close_at (r.sessions p) p r

module _ (h : Hmac) (token : Bytes) where
  -- The filters of `serveUDP` and of `runUDP`.
  unfoldable pub server_up : Filter
  server_up pkt = open_datagram h token client_to_server pkt

  unfoldable pub server_down : Filter
  server_down pkt = some (seal_datagram h token server_to_client pkt)

  unfoldable pub client_up : Filter
  client_up pkt = some (seal_datagram h token client_to_server pkt)

  unfoldable pub client_down : Filter
  client_down pkt = open_datagram h token server_to_client pkt
