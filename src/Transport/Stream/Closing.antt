-- ===== src/Transport/Stream/Closing.antt =====
-- internal/transport/session.go and internal/netutil/pipe.go: what is left of a stream behind the
-- copy to it, and behind its `Close`.
use g_tun.Prelude.{Bool, false, ◌≡◌, ◌∙◌, if◌then◌else◌}
use g_tun.Transport.Stream.{
  Stream, tcp_stream, ws_stream, mux_stream, quic_stream, Library, Documented, close, end_copy,
  has_close_write,
}

module _ {S : Type 0} (lib : Library S) (sends receives : S → Bool)
    (doc : Documented lib sends receives) where
  -- Behind the copy to a stream nothing more is sent on it. It still receives what it received
  -- before if its type has `CloseWrite`, which TCP connections and QUIC streams have, and nothing if
  -- it is a WebSocket or an smux stream. `Close` ends both directions of each of them.
  end_copy-close :
      (st : Stream) (s : S)
      → (sends (end_copy lib st s) ≡ false)
        × (receives (end_copy lib st s) ≡ (if has_close_write st then receives s else false))
        × (sends (close lib st s) ≡ false)
        × (receives (close lib st s) ≡ false)
  unfolding end_copy close has_close_write
  end_copy-close tcp_stream s =
      ((doc.tcp_half s).0, (doc.tcp_half s).1, (doc.tcp_whole s).0, (doc.tcp_whole s).1)
  end_copy-close ws_stream s = (
    (doc.web_socket_whole s).0,
    (doc.web_socket_whole s).1,
    (doc.web_socket_whole s).0,
    (doc.web_socket_whole s).1,
  )
  end_copy-close mux_stream s =
      ((doc.smux_whole s).0, (doc.smux_whole s).1, (doc.smux_whole s).0, (doc.smux_whole s).1)
  end_copy-close quic_stream s = (
    (doc.quic_half s).0,
    (doc.quic_half s).1,
    (doc.quic_half (lib.quic_cancel_read s)).0,
    (doc.quic_half (lib.quic_cancel_read s)).1 ∙ (doc.quic_other_half s).1,
  )
