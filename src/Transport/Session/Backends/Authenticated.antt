-- ===== src/Transport/Session/Backends/Authenticated.antt =====
-- internal/transport/session.go: a dialer's sessions run on authenticated connections.
use g_tun.Prelude.{ℕ, suc, Bytes, false, none, some, ◌⊎◌, inl, inr, ◌≡◌, refl, arith}
use g_tun.Result.{ok}
use g_tun.Proto.{Name}
use g_tun.Auth.Mac.{Hmac}
use g_tun.Auth.Io.{Conn}
use g_tun.Transport.Kcp.{Ciphers}
use g_tun.Transport.Carrier.{Dialed, dial_raw, connect_mux}
use g_tun.Transport.Carrier
use g_tun.Transport.Carrier.Tidy.{KeepsOpen, Tidy, VerifiedOn, connect_mux-Tidy}
use g_tun.Transport.Quic.{QuicConn, QuicDialed, connected, failed, connect_quic}
use g_tun.Transport.Quic.Released.{Ready, Released, connect_quic-Released}
use g_tun.Transport.Session.{Dialer, Network, session, discard, dial}
use g_tun.Transport.Session.Backends.{MuxAttempt, QuicAttempt, mux_network, quic_network}

-- The dialer's session before, which the first attempt found alive.
abbrev pub Kept : Network → Dialer → ℕ → Type 0
Kept first d s = (d.cur ≡ some s) × (first.is_closed s ≡ false) × (first.open_stream s ≡ none)

-- The session that the first attempt connected: the dialer's next one.
abbrev pub MadeFirst : Network → Dialer → ℕ → Type 0
MadeFirst first d s = (first.connect ≡ none) × (s ≡ d.connected) × (first.open_stream s ≡ none)

-- The session that the second attempt connected: the next one, or the one behind that if the first
-- attempt connected one too.
abbrev pub MadeSecond : Network → Network → Dialer → ℕ → Type 0
MadeSecond first second d s =
    (second.connect ≡ none)
    × ((s ≡ d.connected) ⊎ ((first.connect ≡ none) × (s ≡ suc d.connected)))
    × (second.open_stream s ≡ none)

-- The session of a dial, with the attempt that connected it and opened the stream on it.
pub dial_from :
    (first second : Network) (d : Dialer) (s : ℕ)
    → (dial first second d).0 ≡ ok s
    → (d.closed ≡ false)
      × ((dial first second d).1.cur ≡ some s)
      × (Kept first d s ⊎ MadeFirst first d s ⊎ MadeSecond first second d s)
unfolding dial session discard
dial_from first second d s h = (ground arith, ground arith, ground arith)

-- The attempt made a session: its connection is open, and is what the handshake left of the one that
-- the carrier's dial made, on which the server proved that it knows the token.
abbrev pub MuxReady : Hmac → Bytes → Ciphers → Name → MuxAttempt → Type 0
MuxReady h token lib protocol a =
    (c : Conn) × (connect_mux h lib token a.starts protocol a.network a.raw ≡ Carrier.connected c)
    × (c.closed ≡ false)
    × VerifiedOn h token (dial_raw h lib token protocol a.network a.raw) c

abbrev pub QuicReady : Hmac → Bytes → QuicAttempt → Type 0
QuicReady h token a =
    (q : QuicConn) × (connect_quic h token a.dials a.auth ≡ connected q) × Ready h token a.auth q

module _ (h : Hmac) (token : Bytes) where
  connect-MuxReady :
      (lib : Ciphers) (protocol : Name) (a : MuxAttempt)
      → KeepsOpen a.network
      → a.raw.closed ≡ false
      → (mux_network h token lib protocol a).connect ≡ none
      → MuxReady h token lib protocol a
  unfolding mux_network
  connect-MuxReady lib protocol a keeps live made =
      go (connect_mux h lib token a.starts protocol a.network a.raw) refl
        (connect_mux-Tidy h lib token a.network keeps a.starts protocol a.raw live).1
    where
      go :
          (x : Dialed)
          → connect_mux h lib token a.starts protocol a.network a.raw ≡ x
          → Tidy (VerifiedOn h token (dial_raw h lib token protocol a.network a.raw)) x
          → MuxReady h token lib protocol a
      go (Carrier.connected c) e (still, verified) = (c, e, still, verified)
      go (Carrier.failed x c) e tidy = cc

  pub connect-QuicReady :
      (a : QuicAttempt) → (quic_network h token a).connect ≡ none → QuicReady h token a
  unfolding quic_network
  connect-QuicReady a made =
      go (connect_quic h token a.dials a.auth) refl (connect_quic-Released h token a.dials a.auth)
    where
      go :
          (x : QuicDialed)
          → connect_quic h token a.dials a.auth ≡ x
          → Released h token a.auth x
          → QuicReady h token a
      go (connected q) e ready = (q, e, ready)
      go (failed x q) e released = cc

  -- A `Dial` of a mux protocol that succeeds, of a dialer that was not closed, gives a stream on the
  -- session that is the dialer's afterwards: the one that it had before, which was alive, or a new
  -- one, which one of the two attempts connected and on which it opened the stream. The connection of
  -- such a new session is open. On the one that the carrier's dial made in that attempt, the server
  -- proved that it knows the token, for the nonce that the client drew there, after a deadline was
  -- set. The dials make open connections, which the handshake of shadowtls leaves open where it
  -- succeeds.
  pub mux_dial_authenticated :
      (lib : Ciphers) (protocol : Name) (first second : MuxAttempt) (d : Dialer) (s : ℕ)
      → KeepsOpen first.network
      → KeepsOpen second.network
      → first.raw.closed ≡ false
      → second.raw.closed ≡ false
      → (dial
          (mux_network h token lib protocol first)
          (mux_network h token lib protocol second)
          d).0
        ≡ ok s
      → (d.closed ≡ false)
        × ((dial
              (mux_network h token lib protocol first)
              (mux_network h token lib protocol second)
              d).1.cur
            ≡ some s)
        × (Kept (mux_network h token lib protocol first) d s
            ⊎ (MadeFirst (mux_network h token lib protocol first) d s
                × MuxReady h token lib protocol first)
            ⊎ (MadeSecond
                  (mux_network h token lib protocol first)
                  (mux_network h token lib protocol second)
                  d
                  s
                × MuxReady h token lib protocol second))
  mux_dial_authenticated lib protocol first second d s keeps keeps' live live' gives =
      let (live_dialer, now, origin) = dial_from _ _ d s gives in
      (
        live_dialer,
        now,
        elim origin [
          | inl was ↦ inl was
          | inr (inl made) ↦ inr (inl (made, connect-MuxReady lib protocol first keeps live made.0))
          | inr (inr made) ↦
              inr (inr (made, connect-MuxReady lib protocol second keeps' live' made.0))
        ],
      )
