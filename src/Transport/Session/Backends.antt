-- ===== src/Transport/Session/Backends.antt =====
-- internal/transport/session.go: `smuxSession` and `quicSession`, the sessions behind a dialer.
-- What the network, smux and quic-go do during one attempt of `Dial` is a parameter.
pub mod Authenticated
pub mod Marked
use g_tun.Prelude.{ℕ, Bytes, Bool, true, false, Option, none, some}
use g_tun.Result.{Result, ok, err, Error, open_stream}
use g_tun.Proto.{Name}
use g_tun.Auth.Mac.{Hmac}
use g_tun.Auth.Io.{Conn, run}
use g_tun.Transport.Kcp.{Ciphers}
use g_tun.Transport.Carrier.{Dialed, connect_mux}
use g_tun.Transport.Carrier
use g_tun.Transport.Quic.{QuicDialed, connected, failed, open_quic, connect_quic}
use g_tun.Transport.Session.{Network}

-- smux: `IsClosed` of the sessions, the connection that a dial makes and whether `smux.Client`
-- starts a session on it, and the errors of `OpenStream`.
pub record MuxAttempt : Type 0 where
  pub is_closed : ℕ → Bool
  pub network : Carrier.Network
  pub raw : Conn
  pub starts : Bool
  pub open_stream : ℕ → Option Error

-- QUIC: whether the contexts of the connections are over, whether `DialAddr` gives a connection,
-- its first stream, and the stream that `OpenStreamSync` of a session gives.
pub record QuicAttempt : Type 0 where
  pub is_closed : ℕ → Bool
  pub dials : Bool
  pub auth : Option Conn
  pub streams : ℕ → Option Conn

mux_error : Dialed → Option Error
mux_error (Carrier.connected c) = none
mux_error (Carrier.failed e c) = some e

quic_error : QuicDialed → Option Error
quic_error (connected q) = none
quic_error (failed e q) = some e

result_error : {A : Type 0} → Result A → Option Error
result_error (ok a) = none
result_error (err e) = some e

-- `quicSession.open`.
unfoldable pub quic_open : Option Conn → Option Error
unfolding result_error
quic_open none = some open_stream
quic_open (some c) = result_error (run (open_quic true) c).0

module _ (h : Hmac) (token : Bytes) where
  -- What the dialer sees of `connectMux` and of its smux sessions.
  unfoldable pub mux_network : Ciphers → Name → MuxAttempt → Network
  unfolding mux_error
  mux_network lib protocol a = record {
    is_closed = a.is_closed;
    connect = mux_error (connect_mux h lib token a.starts protocol a.network a.raw);
    open_stream = a.open_stream;
  }

  -- What the dialer sees of `connectQUIC` and of its QUIC sessions.
  unfoldable pub quic_network : QuicAttempt → Network
  unfolding quic_error
  quic_network a = record {
    is_closed = a.is_closed;
    connect = quic_error (connect_quic h token a.dials a.auth);
    open_stream = λ s. quic_open (a.streams s);
  }
