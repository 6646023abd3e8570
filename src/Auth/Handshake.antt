-- ===== src/Auth/Handshake.antt =====
-- internal/auth/auth.go: the two sides of the three-message handshake.
pub mod Server
pub mod Client
pub mod Agreement
pub mod Opening
use g_tun.Prelude.{
  ℕ, ◌+◌, ◌≡◌, refl, Bytes, take, drop, append_all, Bool, true, false, Option, none, some, List, [],
  ◌∷◌, ◌++◌, if◌then◌else◌,
}
use g_tun.Result.{
  Result, ok, err, Error, auth_failed, generate_nonce, send_nonce, read_server_proof,
  send_client_proof, read_client_nonce, send_server_proof, read_client_proof,
}
use g_tun.Auth.Mac.{
  Hmac, Channel, nonce_size, tag_size, label_client, label_server, sign, verify, transcript,
}
use g_tun.Auth.Io.{Io, ◌>>=◌, ◌>>◌, return, raise_unless, reads, writes, draws}

module _ (h : Hmac) (token : Bytes) where
  unfoldable pub client_handshake : Io (Result Channel)
  client_handshake = do
    client_nonce ← draws nonce_size generate_nonce
    writes client_nonce send_nonce
    reply ← reads (nonce_size + tag_size) read_server_proof
    let server_nonce = take nonce_size reply
    let server_tag = drop nonce_size reply
    let nonces = client_nonce ∷ server_nonce ∷ []
    raise_unless (verify h token label_server server_tag nonces) auth_failed
    writes (sign h token label_client nonces) send_client_proof
    return (transcript client_nonce server_nonce)

  unfoldable pub server_handshake : Io (Result Channel)
  server_handshake = do
    client_nonce ← reads nonce_size read_client_nonce
    server_nonce ← draws nonce_size generate_nonce
    let nonces = client_nonce ∷ server_nonce ∷ []
    writes (server_nonce ++ sign h token label_server nonces) send_server_proof
    client_tag ← reads tag_size read_client_proof
    raise_unless (verify h token label_client client_tag nonces) auth_failed
    return (transcript client_nonce server_nonce)
