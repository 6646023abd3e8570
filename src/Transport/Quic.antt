-- ===== src/Transport/Quic.antt =====
-- internal/transport: QUIC connections and their streams: `quicSession.open` and `quicStream.Close`
-- (session.go), `connectQUIC` (client.go), `serveQUICConn` and `handleQUICStream` (server.go).
-- A stream is a `Conn` of its own; what quic-go answers is a parameter.
pub mod Streams
pub mod Guarded
pub mod Ended
pub mod Released
use g_tun.Prelude.{
  ℕ, Bytes, Bool, true, false, Option, none, some, List, [], ◌∷◌, map, ◌==◌, if◌then◌else◌,
}
use g_tun.Result.{
  Result, ok, err, Error, open_stream, send_marker, dial_quic, open_auth_stream, authenticate,
}
use g_tun.Auth.Mac.{Hmac}
use g_tun.Auth.Io.{Io, pure, read_full, write, close, bind, return, raise, run, Conn}
use g_tun.Transport.Conn.{Fate, handle_stream, server_handshake_on, client_handshake_on}

abbrev pub quic_stream_marker : ℕ
quic_stream_marker = 0x01

-- Behind the write of the marker; the stream is closed in both directions if it failed.
after_marker : Bool → Io (Result (Unit {0}))
after_marker true = return tt
after_marker false = close (raise send_marker)

-- `open` on a stream that `OpenStreamSync` gave, and on none.
unfoldable pub open_quic : Bool → Io (Result (Unit {0}))
unfolding after_marker
open_quic opens = if opens then write (quic_stream_marker ∷ []) after_marker else raise open_stream

-- What became of an accepted stream: `none` if its marker was missing or wrong.
relay_stream : Bool → Io (Option Fate)
relay_stream dials = close (pure (some (handle_stream dials)))

after_first : Bool → Option Bytes → Io (Option Fate)
unfolding relay_stream
after_first dials none = close (pure none)
after_first dials (some []) = close (pure none)
after_first dials (some (b ∷ bs)) =
    if b == quic_stream_marker then relay_stream dials else close (pure none)

-- `dials` tells whether the dial of the target succeeds. `handleStream` closes the stream.
unfoldable pub handle_quic_stream : Bool → Io (Option Fate)
unfolding after_first
handle_quic_stream dials = read_full 1 (after_first dials)

-- One stream that was accepted later, with its dial.
pub handle_one : Conn × Bool → Option Fate × Conn
unfolding handle_quic_stream
handle_one (c, dials) = run (handle_quic_stream dials) c

-- `serveQUICConn`: the stream of the authentication, if there was one, the later ones, and whether
-- the connection is closed.
pub record Served : Type 0 where
  pub auth : Option Conn
  pub streams : List (Option Fate × Conn)
  pub closed : Bool

-- The end of the handshake's stream: `authStream.Close`, or the close of the whole connection.
pub close_auth : Result (Unit {0}) → Io (Result (Unit {0}))
close_auth r = close (pure r)

after_auth_stream : List (Conn × Bool) → Result (Unit {0}) × Conn → Served
unfolding handle_one
after_auth_stream later (err e, c) = record { auth = some c; streams = []; closed = true }
after_auth_stream later (ok u, c) = record {
  auth = some c;
  streams = map handle_one later;
  closed = true;
}

-- What became of the client's connection: the stream of the authentication, if it was opened, and
-- whether the connection is closed.
pub record QuicConn : Type 0 where
  pub auth : Option Conn
  pub closed : Bool

pub data QuicDialed : Type 0 where
  connected : QuicConn → QuicDialed
  failed : Error → Option QuicConn → QuicDialed

after_client_auth : Result (Unit {0}) × Conn → QuicDialed
after_client_auth (err e, c) = failed authenticate (some (record { auth = some c; closed = true }))
after_client_auth (ok u, c) = connected (record { auth = some c; closed = false })

module _ (h : Hmac) (token : Bytes) where
  -- The handshake on the first stream.
  unfoldable pub client_auth : Io (Result (Unit {0}))
  unfolding close_auth
  client_auth = bind (client_handshake_on h token) close_auth

  unfoldable pub server_auth : Io (Result (Unit {0}))
  unfolding close_auth
  server_auth = bind (server_handshake_on h token) close_auth

  -- The first stream that `AcceptStream` gave in time, and the streams that follow until it fails.
  unfoldable pub serve_quic_conn : Option Conn → List (Conn × Bool) → Served
  unfolding after_auth_stream
  serve_quic_conn none later = record { auth = none; streams = []; closed = true }
  serve_quic_conn (some raw) later = after_auth_stream later (run server_auth raw)

  auth_on : Option Conn → QuicDialed
  unfolding after_client_auth
  auth_on none = failed open_auth_stream (some (record { auth = none; closed = true }))
  auth_on (some raw) = after_client_auth (run client_auth raw)

  -- `dials` tells whether `DialAddr` gives a connection, and `raw` is the stream of its
  -- `OpenStreamSync`, or `none`.
  unfoldable pub connect_quic : Bool → Option Conn → QuicDialed
  unfolding auth_on
  connect_quic dials raw = if dials then auth_on raw else failed dial_quic none
