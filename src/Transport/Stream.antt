-- ===== src/Transport/Stream.antt =====
-- internal/transport/session.go, wsconn.go and transport.go: the types behind `Stream`, and how
-- internal/netutil/pipe.go closes them. What a stream of a library still does is a parameter.
pub mod Closing
pub mod Relayed
use g_tun.Prelude.{Bool, true, false, Option, none, some, ◌≡◌}
use g_tun.Transport.Plan.{
  Carrier, tcp_conn, kcp_session, quic_conn, udp_socket, shadow_tls, web_socket_conn, Streams,
  single, smux, quic_streams, datagrams, Plan,
}

-- `*net.TCPConn`, `*wsConn`, `muxStream` and `quicStream`.
pub data Stream : Type 0 where
  tcp_stream ws_stream mux_stream quic_stream : Stream

-- The calls of the libraries that end a stream of theirs or one direction of it.
pub record Library (S : Type 0) : Type 0 where
  pub tcp_close_write : S → S
  pub tcp_close : S → S
  pub web_socket_close : S → S
  pub smux_close : S → S
  -- `Close` of a QUIC stream, and its `CancelRead`.
  pub quic_close : S → S
  pub quic_cancel_read : S → S

-- What these calls are documented to do to the two directions of a stream.
pub record Documented {S : Type 0} (lib : Library S) (sends receives : S → Bool) : Type 0 where
  pub tcp_half :
      (s : S)
      → (sends (lib.tcp_close_write s) ≡ false) × (receives (lib.tcp_close_write s) ≡ receives s)
  pub tcp_whole : (s : S) → (sends (lib.tcp_close s) ≡ false) × (receives (lib.tcp_close s) ≡ false)
  pub web_socket_whole :
      (s : S)
      → (sends (lib.web_socket_close s) ≡ false) × (receives (lib.web_socket_close s) ≡ false)
  pub smux_whole :
      (s : S) → (sends (lib.smux_close s) ≡ false) × (receives (lib.smux_close s) ≡ false)
  pub quic_half :
      (s : S) → (sends (lib.quic_close s) ≡ false) × (receives (lib.quic_close s) ≡ receives s)
  pub quic_other_half :
      (s : S)
      → (sends (lib.quic_cancel_read s) ≡ sends s) × (receives (lib.quic_cancel_read s) ≡ false)

module _ {S : Type 0} (lib : Library S) where
  -- `quicStream.CloseWrite`.
  quic_stream_close_write : S → S
  quic_stream_close_write s = lib.quic_close s

  -- `quicStream.Close`.
  quic_stream_close : S → S
  quic_stream_close s = lib.quic_close (lib.quic_cancel_read s)

  -- `CloseWrite`, if the type has it.
  unfoldable pub close_write : Stream → Option (S → S)
  unfolding quic_stream_close_write
  close_write tcp_stream = some lib.tcp_close_write
  close_write ws_stream = none
  close_write mux_stream = none
  close_write quic_stream = some quic_stream_close_write

  unfoldable pub close : Stream → S → S
  unfolding quic_stream_close
  close tcp_stream = lib.tcp_close
  close ws_stream = lib.web_socket_close
  close mux_stream = lib.smux_close
  close quic_stream = quic_stream_close

  end_with : Option (S → S) → (S → S) → S → S
  end_with (some shut) close = shut
  end_with none close = close

  -- What `copyHalf` does with its destination behind the copy.
  unfoldable pub end_copy : Stream → S → S
  unfolding end_with close_write close
  end_copy st = end_with (close_write st) (close st)

-- The test of `copyHalf` for a `closeWriter`.
unfoldable pub has_close_write : Stream → Bool
has_close_write tcp_stream = true
has_close_write ws_stream = false
has_close_write mux_stream = false
has_close_write quic_stream = true

-- The connection itself as a stream; a carrier of packets has smux or QUIC streams only.
conn_stream : Carrier → Option Stream
conn_stream tcp_conn = some tcp_stream
conn_stream (web_socket_conn secure path) = some ws_stream
conn_stream kcp_session = none
conn_stream quic_conn = none
conn_stream udp_socket = none
conn_stream shadow_tls = none

-- What both sides give to `Pipe`, beside the TCP connection of the application or of the target.
unfoldable pub relayed_stream : Plan → Option Stream
unfolding conn_stream
relayed_stream plan = elim plan.streams [
  | single ↦ conn_stream plan.carrier
  | smux ↦ some mux_stream
  | quic_streams ↦ some quic_stream
  | datagrams ↦ none
]
