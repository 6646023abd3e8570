-- ===== src/Transport/Settings.antt =====
-- internal/transport/transport.go, quic.go and stealth.go: the times and the settings of the
-- libraries. Times are nanoseconds.
use g_tun.Prelude.{ℕ, Bytes, codes, ◌*◌, ◌<◌, ◌≤◌, Option, none, some, arith}
use g_tun.Netutil.Pipe.{copy_buffer_size}

abbrev second : ℕ
second = 1_000_000_000

abbrev handshake_timeout : ℕ
handshake_timeout = 10 * second

abbrev dial_timeout : ℕ
dial_timeout = 10 * second

abbrev keep_alive : ℕ
keep_alive = 15 * second

abbrev stealth_dial_timeout : ℕ
stealth_dial_timeout = 2 * handshake_timeout

-- The fields of smux.Config that are set.
record MuxConfig : Type 0 where
  keep_alive_interval : ℕ
  keep_alive_timeout : ℕ
  max_frame_size : ℕ
  max_receive_buffer : ℕ
  max_stream_buffer : ℕ

unfoldable mux_config : MuxConfig
mux_config = record {
  keep_alive_interval = 10 * second;
  keep_alive_timeout = 30 * second;
  max_frame_size = 32 * 1024;
  max_receive_buffer = 4 * 1024 * 1024;
  max_stream_buffer = 64 * 1024;
}

record QuicConfig : Type 0 where
  keep_alive_period : ℕ
  max_idle_timeout : ℕ
  max_incoming_streams : ℕ

unfoldable quic_config : QuicConfig
quic_config = record {
  keep_alive_period = 10 * second;
  max_idle_timeout = 300 * second;
  max_incoming_streams = 10000;
}

-- The address of a peer that has one.
unfoldable remote_addr : Option Bytes → Bytes
remote_addr none = codes "unknown"
remote_addr (some addr) = addr

-- smux accepts settings whose interval of keep-alives is below its timeout, whose frames have 65535
-- bytes at most, and whose buffer of a stream is within that of the session; these are such. What
-- one read of the relay gives fits in one frame. Both kinds of session, smux and QUIC, send
-- several keep-alives before they give a peer up.
settings_fit :
    (mux_config.keep_alive_interval < mux_config.keep_alive_timeout)
    × (0 < mux_config.max_frame_size)
    × (mux_config.max_frame_size ≤ 65535)
    × (mux_config.max_stream_buffer ≤ mux_config.max_receive_buffer)
    × (copy_buffer_size ≤ mux_config.max_frame_size)
    × (3 * mux_config.keep_alive_interval ≤ mux_config.keep_alive_timeout)
    × (3 * quic_config.keep_alive_period ≤ quic_config.max_idle_timeout)
unfolding mux_config quic_config
settings_fit =
    (omega arith, omega arith, omega arith, omega arith, omega arith, omega arith, omega arith)
