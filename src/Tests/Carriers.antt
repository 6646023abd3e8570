-- ===== src/Tests/Carriers.antt =====
-- Dials of the client, and QUIC connections.
use g_tun.Prelude.{
  arith, split_at?, ◌≡◌, ◌⊎◌, inl, refl, Bytes, codes, true, false, Bool, List, none, some, [], ◌∷◌,
}
use g_tun.Result.{ok}
use g_tun.Proto.{stealth, tcp_mux, web_socket, is_one_of}
use g_tun.Auth.Mac.{sign, verify}
use g_tun.Auth.Handshake.{client_handshake}
use g_tun.Auth.Io.{Conn, pure, run, return, bind, ◌>>◌, sets_deadline, draws, writes, reads}
use g_tun.Transport.Conn.{client_handshake_on, handshake}
use g_tun.Transport.Kcp.{Ciphers}
use g_tun.Transport.Carrier.{Network, dial_raw, dial_authenticated, connect_mux}
use g_tun.Transport.Carrier.Tidy.{KeepsOpen, Tidy, VerifiedOn, connect_mux-Tidy}
use g_tun.Transport.Quic.{quic_stream_marker, open_quic, connect_quic, serve_quic_conn, client_auth}
use g_tun.Transport.Quic.Guarded.{serve_quic_guarded}
use g_tun.Transport.Quic.Guarded
use g_tun.Auth.Io.Wire.{wire}
use g_tun.Transport.Conn.Joined.{end_with}
use g_tun.Transport.Quic.Ended.{auth_stream, quic_auth_ends}
use g_tun.Transport.Session.{init, dial, session}
use g_tun.Transport.Session.Backends.{MuxAttempt, QuicAttempt, mux_network, quic_network, quic_open}
use g_tun.Transport.Session.Backends.Authenticated.{
  Kept, MadeFirst, MadeSecond, MuxReady, QuicReady, mux_dial_authenticated,
}
use g_tun.Transport.Session.Backends.Marked.{RelaysFrom, quic_dial_relayed}
use g_tun.Tests.Handshake.{server_sent, client_sent}
use g_tun.Tests.Samples.{sample_hmac, token, client_nonce, server_nonce, conn}

abbrev pub ciphers : Ciphers
ciphers = record { Block = Bytes; new_aes_block_crypt = λ key. some key }

abbrev net : Network
net = record { dials = true; new_stealth = true; shadow_handshake = return tt }

keeps_open : KeepsOpen net
unfolding run
keeps_open c c' e = cc e

-- The deadline of the stealth handshake takes two calls more.
abbrev raw : Conn
raw = record (conn server_sent client_nonce) { budget = 6 }

connect_mux-Tidy_example :
    Tidy
      (VerifiedOn sample_hmac token (dial_raw sample_hmac ciphers token stealth net raw))
      (dial_authenticated sample_hmac ciphers token stealth net raw)
    × Tidy
        (VerifiedOn sample_hmac token (dial_raw sample_hmac ciphers token stealth net raw))
        (connect_mux sample_hmac ciphers token true stealth net raw)
connect_mux-Tidy_example =
    connect_mux-Tidy sample_hmac ciphers token net keeps_open true stealth raw refl

abbrev ssh : Bytes
ssh = codes "SSH-2.0"

-- A dialer without a session; it connects to session 0, which opens a stream.
abbrev muxing : MuxAttempt
muxing = record {
  is_closed = λ s. false;
  network = net;
  raw = raw;
  starts = true;
  open_stream = λ s. none;
}

mux_dials :
    (dial
      (mux_network sample_hmac token ciphers tcp_mux muxing)
      (mux_network sample_hmac token ciphers tcp_mux muxing)
      init).0
    ≡ ok 0
unfolding mux_network dial session connect_mux dial_authenticated dial_raw web_socket is_one_of bind
    run client_handshake_on handshake ◌>>◌ sets_deadline client_handshake draws split_at? writes
    reads sign verify
mux_dials = refl

mux_dial_authenticated_example :
    (init.closed ≡ false)
    × ((dial
          (mux_network sample_hmac token ciphers tcp_mux muxing)
          (mux_network sample_hmac token ciphers tcp_mux muxing)
          init).1.cur
        ≡ some 0)
    × (Kept (mux_network sample_hmac token ciphers tcp_mux muxing) init 0
        ⊎ (MadeFirst (mux_network sample_hmac token ciphers tcp_mux muxing) init 0
            × MuxReady sample_hmac token ciphers tcp_mux muxing)
        ⊎ (MadeSecond
              (mux_network sample_hmac token ciphers tcp_mux muxing)
              (mux_network sample_hmac token ciphers tcp_mux muxing)
              init
              0
            × MuxReady sample_hmac token ciphers tcp_mux muxing))
mux_dial_authenticated_example =
    mux_dial_authenticated sample_hmac token ciphers tcp_mux muxing muxing init 0 keeps_open
      keeps_open refl refl mux_dials

abbrev quic_attempt : QuicAttempt
quic_attempt = record {
  is_closed = λ s. false;
  dials = true;
  auth = some (conn server_sent client_nonce);
  streams = λ s. some (conn [] []);
}

fresh : (c : Conn) → quic_attempt.streams 0 ≡ some c → c.output ≡ []
fresh c e = ground arith

quic_dials :
    (dial
      (quic_network sample_hmac token quic_attempt)
      (quic_network sample_hmac token quic_attempt)
      init).0
    ≡ ok 0
unfolding quic_network dial session connect_quic quic_open open_quic client_auth bind run
    client_handshake_on handshake ◌>>◌ sets_deadline client_handshake draws split_at? writes reads
    sign verify
quic_dials = refl

quic_dial_relayed_example :
    (init.closed ≡ false)
    × ((dial
          (quic_network sample_hmac token quic_attempt)
          (quic_network sample_hmac token quic_attempt)
          init).1.cur
        ≡ some 0)
    × ((Kept (quic_network sample_hmac token quic_attempt) init 0
          × RelaysFrom true ssh (conn [] []) (quic_attempt.streams 0))
        ⊎ (MadeFirst (quic_network sample_hmac token quic_attempt) init 0
            × QuicReady sample_hmac token quic_attempt
            × RelaysFrom true ssh (conn [] []) (quic_attempt.streams 0))
        ⊎ (MadeSecond
              (quic_network sample_hmac token quic_attempt)
              (quic_network sample_hmac token quic_attempt)
              init
              0
            × QuicReady sample_hmac token quic_attempt
            × RelaysFrom true ssh (conn [] []) (quic_attempt.streams 0)))
quic_dial_relayed_example =
    quic_dial_relayed sample_hmac token quic_attempt quic_attempt init 0 true ssh (conn [] []) fresh
      fresh quic_dials

abbrev later : List (Conn × Bool)
later = (conn (quic_stream_marker ∷ ssh) [], true) ∷ (conn ssh [], true) ∷ []

serve_quic_guarded_example :
    ((serve_quic_conn sample_hmac token (some (conn client_sent server_nonce)) later).closed ≡ true)
    × ((Guarded.Opened sample_hmac token
            (conn client_sent server_nonce)
            (serve_quic_conn sample_hmac token (some (conn client_sent server_nonce)) later)
          × Guarded.Relays later
              (serve_quic_conn sample_hmac token (some (conn client_sent server_nonce)) later))
        ⊎ ((serve_quic_conn sample_hmac token (some (conn client_sent server_nonce)) later).streams
            ≡ []))
serve_quic_guarded_example =
    serve_quic_guarded sample_hmac token (conn client_sent server_nonce) later

quic_auth_ends_example :
    wire 14 (auth_stream sample_hmac token token client_nonce server_nonce refl refl) ≡ record {
      left = end_with (pure (ok tt)) [];
      right = end_with (pure (ok tt)) [];
      left_closed = true;
      right_closed = true;
    }
quic_auth_ends_example =
    quic_auth_ends sample_hmac token token client_nonce server_nonce refl refl (inl refl) 0
