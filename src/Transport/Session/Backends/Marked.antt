-- ===== src/Transport/Session/Backends/Marked.antt =====
-- internal/transport/session.go and server.go: a stream that `Dial` opened over QUIC, at the server.
use g_tun.Prelude.{
  ℕ, zero, suc, Bytes, Bool, true, false, none, some, [], ◌++◌, ◌⊎◌, inl, inr, ◌≡◌, refl, Option,
}
use g_tun.Result.{ok, send_marker}
use g_tun.Auth.Mac.{Hmac}
use g_tun.Auth.Io.{Conn, run}
use g_tun.Transport.Conn.{handle_stream}
use g_tun.Transport.Quic.{open_quic, handle_quic_stream}
use g_tun.Transport.Quic.Streams.{open-handle_quic}
use g_tun.Transport.Session.{Dialer, dial}
use g_tun.Transport.Session.Backends.{QuicAttempt, quic_network, quic_open}
use g_tun.Transport.Session.Backends.Authenticated.{
  Kept, MadeFirst, MadeSecond, dial_from, QuicReady, connect-QuicReady,
}

-- The stream was opened, and the server relays it: the relay has exactly the bytes that follow.
abbrev pub Relays : Bool → Bytes → Conn → Conn → Type 0
Relays dials sent server c =
    ((run (open_quic true) c).0 ≡ ok tt)
    × (run (handle_quic_stream dials)
          (record server { input = (run (open_quic true) c).1.output ++ sent })
        ≡ (some (handle_stream dials), record server { input = sent; closed = true }))

breaks : (c : Conn) → c.budget ≡ 0 → quic_open (some c) ≡ some send_marker
unfolding quic_open open_quic run
breaks c e = rw (e, run)

open-Relays :
    (dials : Bool) (sent : Bytes) (server : Conn) (stream : Option Conn)
    → quic_open stream ≡ none
    → ((c : Conn) → stream ≡ some c → c.output ≡ [])
    → (c : Conn) × (stream ≡ some c) × Relays dials sent server c
unfolding quic_open
open-Relays dials sent server none opened fresh = cc
open-Relays dials sent server (some c) opened fresh = go c.budget refl
  where
    go : (n : ℕ) → c.budget ≡ n → (x : Conn) × (some c ≡ some x) × Relays dials sent server x
    go zero e = cc (breaks c e)
    go (suc n) e = (c, refl, open-handle_quic dials sent c _ n e (fresh c refl) refl)

-- The stream that the session gave is relayed.
abbrev pub RelaysFrom : Bool → Bytes → Conn → Option Conn → Type 0
RelaysFrom dials sent server stream = (c : Conn) × (stream ≡ some c) × Relays dials sent server c

module _ (h : Hmac) (token : Bytes) where
  -- A `Dial` over QUIC that succeeds, of a dialer that was not closed, gives a stream of the session
  -- that is the dialer's afterwards: the one that it had before, which was alive, or a new one, which
  -- one of the two attempts connected. On the first stream of a session that an attempt connected,
  -- the server proved that it knows the token, for the nonce that the client drew there, after a
  -- deadline was set. The server relays the stream, which the same attempt opened, also before the
  -- application has sent anything, and the relay has exactly the bytes that the application sends.
  -- The streams that quic-go opens are fresh ones.
  pub quic_dial_relayed :
      (first second : QuicAttempt) (d : Dialer) (s : ℕ) (dials : Bool) (sent : Bytes)
      (server : Conn)
      → ((c : Conn) → first.streams s ≡ some c → c.output ≡ [])
      → ((c : Conn) → second.streams s ≡ some c → c.output ≡ [])
      → (dial (quic_network h token first) (quic_network h token second) d).0 ≡ ok s
      → (d.closed ≡ false)
        × ((dial (quic_network h token first) (quic_network h token second) d).1.cur ≡ some s)
        × ((Kept (quic_network h token first) d s × RelaysFrom dials sent server (first.streams s))
            ⊎ (MadeFirst (quic_network h token first) d s
                × QuicReady h token first
                × RelaysFrom dials sent server (first.streams s))
            ⊎ (MadeSecond (quic_network h token first) (quic_network h token second) d s
                × QuicReady h token second
                × RelaysFrom dials sent server (second.streams s)))
  unfolding quic_network
  quic_dial_relayed first second d s dials sent server fresh fresh' gives =
      let (live_dialer, now, origin) = dial_from _ _ d s gives in
      (
        live_dialer,
        now,
        elim origin [
          | inl was ↦ inl (was, open-Relays dials sent server (first.streams s) was.2 fresh)
          | inr (inl made) ↦ inr (
              inl (
                made,
                connect-QuicReady h token first made.0,
                open-Relays dials sent server (first.streams s) made.2 fresh,
              ))
          | inr (inr made) ↦ inr (
              inr (
                made,
                connect-QuicReady h token second made.0,
                open-Relays dials sent server (second.streams s) made.2 fresh',
              ))
        ],
      )
