-- ===== src/Transport/Quic/Released.antt =====
-- internal/transport/client.go: `connectQUIC` leaves no connection behind.
use g_tun.Prelude.{◌≡◌, refl, Bytes, Bool, true, false, Option, none, some}
use g_tun.Result.{Result, ok, err}
use g_tun.Auth.Mac.{Hmac}
use g_tun.Auth.Io.{Conn, run}
use g_tun.Auth.Io.Sequence.{run-bind}
use g_tun.Transport.Conn.{client_handshake_on}
use g_tun.Transport.Carrier.Tidy.{Verified, handshake_sound}
use g_tun.Transport.Quic.{
  QuicConn, QuicDialed, connected, failed, auth_on, after_client_auth, connect_quic, client_auth,
  close_auth,
}

-- The connection is open, its first stream carried the handshake and is closed.
abbrev pub Ready : Hmac → Bytes → Option Conn → QuicConn → Type 0
Ready h token first q =
    (q.closed ≡ false)
    × ((raw : Conn) × (c : Conn) × (first ≡ some raw)
        × Verified h token raw c
        × (q.auth ≡ some (record c { closed = true })))

abbrev pub Released : Hmac → Bytes → Option Conn → QuicDialed → Type 0
Released h token first (connected q) = Ready h token first q
Released h token first (failed e none) = Unit
Released h token first (failed e (some q)) = q.closed ≡ true

-- An attempt of the client to connect by QUIC that fails has closed the connection if there was one.
-- One that succeeds hands over an open connection, on whose first stream the server proved that it
-- knows the token, for the nonce that the client drew there, after a deadline was set; that stream
-- is closed.
pub connect_quic-Released :
    (h : Hmac) (token : Bytes) (dials : Bool) (raw : Option Conn)
    → Released h token raw (connect_quic h token dials raw)
unfolding connect_quic auth_on after_client_auth client_auth run
connect_quic-Released h token false raw = tt
connect_quic-Released h token true none = refl
connect_quic-Released h token true (some raw) =
    rw (run-bind (client_handshake_on h token) close_auth raw)
      (go (run (client_handshake_on h token) raw).0 (run (client_handshake_on h token) raw).1 refl)
  where
    go :
        (r : Result (Unit {0})) (c : Conn)
        → run (client_handshake_on h token) raw ≡ (r, c)
        → Released h token (some raw) (after_client_auth (run (close_auth r) c))
    go (ok u) c e = (refl, (raw, c, refl, (handshake_sound h token raw c e).1, refl))
    go (err x) c e = refl
