-- ===== src/Tests/Handshake.antt =====
-- The handshake and the connections that run it.
use g_tun.Prelude.{arith, ℕ, ◌≡◌, ap, ◌≢◌, refl, ◌↔◌, ◌⊎◌, inr, Bytes, true, false, [], ◌∷◌, ◌++◌}
use g_tun.Result.{ok, authenticate, read_client_proof}
use g_tun.Auth.Mac.{sign, label_client, label_server}
use g_tun.Auth.Io.{run, pure, raise}
use g_tun.Auth.Io.Wire.{wire}
use g_tun.Auth.Handshake.{client_handshake, server_handshake}
use g_tun.Auth.Handshake.Server
use g_tun.Auth.Handshake.Client
use g_tun.Auth.Handshake.Server.{server_handshake_iff}
use g_tun.Auth.Handshake.Client.{client_handshake_iff}
use g_tun.Transport.Conn.{handle_conn, rejected}
use g_tun.Transport.Conn.Joined.{end_with}
use g_tun.Transport.Conn.Ended.{joined, data_connection_ends}
use g_tun.Transport.Conn.Guarded.{Authenticated, Refused, handle_conn_guarded}
use g_tun.Proto.{tcp_mux}
use g_tun.Tests.Samples.{
  key_part, sample_hmac, token, other_token, client_nonce, server_nonce, conn,
}

abbrev session : Bytes
session = client_nonce ++ server_nonce

abbrev pub client_sent : Bytes
client_sent = client_nonce ++ sign sample_hmac token label_client (client_nonce ∷ server_nonce ∷ [])

abbrev pub server_sent : Bytes
server_sent = server_nonce ++ sign sample_hmac token label_server (client_nonce ∷ server_nonce ∷ [])

server_handshake_iff_example :
    (run (server_handshake sample_hmac token) (conn client_sent server_nonce)
      ≡ (ok session, record (conn [] []) { output = server_sent; budget = 3 }))
    ↔ Server.Proved sample_hmac token
        (conn client_sent server_nonce)
        session
        (record (conn [] []) { output = server_sent; budget = 3 })
server_handshake_iff_example =
    server_handshake_iff sample_hmac token (conn client_sent server_nonce)
      (record (conn [] []) { output = server_sent; budget = 3 }) session

client_handshake_iff_example :
    (run (client_handshake sample_hmac token) (conn server_sent client_nonce)
      ≡ (ok session, record (conn [] []) { output = client_sent; budget = 2 }))
    ↔ Client.Proved sample_hmac token
        (conn server_sent client_nonce)
        session
        (record (conn [] []) { output = client_sent; budget = 2 })
client_handshake_iff_example =
    client_handshake_iff sample_hmac token (conn server_sent client_nonce)
      (record (conn [] []) { output = client_sent; budget = 2 }) session

handle_conn_guarded_example :
    (Authenticated sample_hmac token
        (conn client_sent server_nonce)
        (run
          (handle_conn sample_hmac token tcp_mux true true (true ∷ false ∷ []))
          (conn client_sent server_nonce)).1
      ⊎ Refused sample_hmac token (
          run
            (handle_conn sample_hmac token tcp_mux true true (true ∷ false ∷ []))
            (conn client_sent server_nonce)))
    × ((run
          (handle_conn sample_hmac token tcp_mux true true (true ∷ false ∷ []))
          (conn client_sent server_nonce)).1.closed
        ≡ true)
handle_conn_guarded_example =
    handle_conn_guarded sample_hmac token tcp_mux true true (true ∷ false ∷ [])
      (conn client_sent server_nonce)

proofs_differ :
    sign sample_hmac token label_server (client_nonce ∷ server_nonce ∷ [])
    ≢ sign sample_hmac other_token label_server (client_nonce ∷ server_nonce ∷ [])
unfolding sign
proofs_differ e = different (ap key_part e)
  where
    different : ◌≡◌ {A = ℕ} 22204 27662 → ⊥
    different h = omega arith

-- The client has another token.
data_connection_ends_example :
    wire 13 (
      joined sample_hmac other_token token client_nonce server_nonce tcp_mux true true
        (true ∷ false ∷ [])
        refl
        refl)
    ≡ record {
      left = end_with (raise authenticate) [];
      right = end_with (pure (rejected read_client_proof)) [];
      left_closed = true;
      right_closed = true;
    }
data_connection_ends_example =
    data_connection_ends sample_hmac other_token token client_nonce server_nonce tcp_mux true true
      (true ∷ false ∷ []) refl refl (inr proofs_differ) 0
