-- ===== src/Auth/Mac.antt =====
-- internal/auth/auth.go: `Sign`, `Verify`, `DeriveKey` and `transcript`.
use g_tun.Prelude.{
  ℕ, ◌≡◌, ◌↔◌, Bytes, codes, bytes_eq, bytes_eq_iff, append_all, length, Bool, true, List, [], ◌++◌,
}

abbrev pub nonce_size : ℕ
nonce_size = 32

-- sha256.Size
abbrev pub tag_size : ℕ
tag_size = 32

abbrev pub label_client : Bytes
label_client = codes "gtun/v1/client"

abbrev pub label_server : Bytes
label_server = codes "gtun/v1/server"

-- What the code relies on of crypto/hmac with SHA-256: a function of the key and of all the bytes
-- that were written, whose value has 32 bytes.
pub record Hmac : Type 0 where
  pub sum : Bytes → Bytes → Bytes
  pub sum_size : (key message : Bytes) → length (sum key message) ≡ 32

-- The name of a session: the handshake's nonces.
abbrev pub Channel : Type 0
Channel = Bytes

unfoldable pub transcript : Bytes → Bytes → Channel
transcript client_nonce server_nonce = client_nonce ++ server_nonce

module _ (h : Hmac) where
  unfoldable pub sign : Bytes → Bytes → List Bytes → Bytes
  unfolding append_all
  sign token label parts = h.sum token (label ++ append_all parts)

  unfoldable pub verify : Bytes → Bytes → Bytes → List Bytes → Bool
  unfolding sign
  verify token label tag parts = bytes_eq tag (sign token label parts)

  unfoldable pub derive_key : Bytes → Bytes → Bytes
  unfolding sign
  derive_key token purpose = sign token (codes "gtun/v1/key/" ++ purpose) []

  pub length-sign :
      (token label : Bytes) (parts : List Bytes) → length (sign token label parts) ≡ 32
  unfolding sign
  length-sign token label parts = h.sum_size token (label ++ append_all parts)

  -- Verification accepts a tag exactly if it is the one that signing gives.
  pub verify_iff :
      (token label tag : Bytes) (parts : List Bytes)
      → (verify token label tag parts ≡ true) ↔ (tag ≡ sign token label parts)
  unfolding verify
  verify_iff token label tag parts = bytes_eq_iff tag (sign token label parts)

  -- A derived key has the 32 bytes of an AES-256 key.
  pub length-derive_key : (token purpose : Bytes) → length (derive_key token purpose) ≡ 32
  unfolding derive_key
  length-derive_key token purpose = h.sum_size token _
