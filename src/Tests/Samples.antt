-- ===== src/Tests/Samples.antt =====
-- A small keyed sum in the place of HMAC-SHA256, tokens, nonces and connections.
use g_tun.Prelude.{ℕ, ◌+◌, ◌%◌, ◌≡◌, refl, Bytes, codes, length, false, [], ◌∷◌, ◌++◌}
use g_tun.Auth.Mac.{Hmac}
use g_tun.Auth.Io.{Conn}

abbrev total : ℕ → Bytes → ℕ
total n [] = n
total n (b ∷ bs) = total ((n + n + b) % 65536) bs

-- Thirty zero bytes behind the two of the sum.
abbrev zeros : Bytes
zeros =
    0 ∷ 0 ∷ 0 ∷ 0 ∷ 0 ∷ 0 ∷ 0 ∷ 0 ∷ 0 ∷ 0 ∷ 0 ∷ 0 ∷ 0 ∷ 0 ∷ 0 ∷ 0 ∷ 0 ∷ 0 ∷ 0 ∷ 0 ∷ 0 ∷ 0 ∷ 0 ∷ 0
    ∷ 0 ∷ 0 ∷ 0 ∷ 0 ∷ 0 ∷ 0 ∷ []

abbrev keyed_sum : Bytes → Bytes → Bytes
keyed_sum key message = total 7 key ∷ total 11 (key ++ message) ∷ zeros

pub keyed_sum-length : (key message : Bytes) → length (keyed_sum key message) ≡ 32
keyed_sum-length key message = refl

abbrev pub sample_hmac : Hmac
sample_hmac = record { sum = keyed_sum; sum_size = keyed_sum-length }

abbrev pub token : Bytes
token = codes "shared-secret-token"

abbrev pub other_token : Bytes
other_token = codes "other-client-secret"

abbrev pub client_nonce : Bytes
client_nonce = 1 ∷ 2 ∷ zeros

abbrev pub server_nonce : Bytes
server_nonce = 3 ∷ 4 ∷ zeros

-- A connection that holds for four writes and deadline calls.
abbrev pub conn : Bytes → Bytes → Conn
conn input entropy = record {
  input = input;
  output = [];
  entropy = entropy;
  budget = 4;
  armed = false;
  closed = false;
}

-- The sum of the key, and that of the key and the message.
abbrev pub key_part : Bytes → ℕ
key_part [] = 0
key_part (b ∷ bs) = b

abbrev message_part : Bytes → ℕ
message_part [] = 0
message_part (b ∷ bs) = key_part bs
