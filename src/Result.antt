-- ===== src/Result.antt =====
-- Go's `error` values and the pair `(value, error)`.
-- Each constructor of `Error` is one place of the source that makes or wraps an error; the text of
-- its message is left out, and so is the cause that it wraps.
use g_tun.Prelude.{◌≡◌, refl, Bytes, Bool, true, false, ◌⊎◌, inl, inr}

pub data Error : Type 0 where
  -- internal/auth
  auth_failed generate_nonce send_nonce read_server_proof send_client_proof : Error
  read_client_nonce send_server_proof read_client_proof : Error
  -- internal/control
  encode_config config_too_large send_config : Error
  read_header message_too_large read_message decode_config : Error
  -- internal/proto
  unknown_protocol : Bytes → Error
  -- internal/config; the argument is the field's name
  kcp_interval kcp_window kcp_shards : Error
  -- a panic, not an error value
  nil_dereference : Error
  open_config parse_config : Error
  bad_port bad_host_port missing_host : Bytes → Error
  ports_equal token_short tls_paths sni_required no_remote_host : Error
  -- internal/transport
  set_deadline dialer_closed open_stream connect_failed : Error
  unsupported_protocol handshake_site load_key_pair read_pinned : Error
  dial_tcp dial_ws dial_kcp create_cipher dial_quic open_auth_stream : Error
  create_stealth stealth_failed authenticate start_smux send_marker : Error
  listen listen_control accept resolve_address read_datagram create_service http_failed : Error
  -- internal/tlsutil
  certificate_mismatch generate_key generate_serial create_certificate : Error
  marshal_key write_key write_certificate : Error
  -- internal/client
  read_ca_file no_certificates server_closed : Error

pub data Result {ℓ} (A : Type ℓ) : Type ℓ where
  ok : A → Result A
  err : Error → Result A

infixl 5 ◌>>=◌ ◌>>◌
abbrev pub ◌>>=◌ {ℓ κ} : {A : Type ℓ} {B : Type κ} → Result A → (A → Result B) → Result B
ok a >>= f = f a
err e >>= f = err e

abbrev pub ◌>>◌ {ℓ κ} : {A : Type ℓ} {B : Type κ} → Result A → Result B → Result B
m >> k = m >>= λ _. k

-- `if test { return err }`.
abbrev pub fail_if : Bool → Error → Result (Unit {0})
fail_if true e = err e
fail_if false e = ok tt

abbrev pub is_ok {ℓ} : {A : Type ℓ} → Result A → Bool
is_ok (ok a) = true
is_ok (err e) = false

pub Result-cases {ℓ} :
    {A : Type ℓ} (r : Result A) → ((a : A) × (r ≡ ok a)) ⊎ ((e : Error) × (r ≡ err e))
Result-cases (ok a) = inl (a, refl)
Result-cases (err e) = inr (e, refl)

-- What a chain that succeeded went through.
pub >>-inv {ℓ κ μ} :
    {A : Type ℓ} {B : Type κ} {P : Type μ} (m : Result A) (k : Result B) {v : B}
    → (m >> k) ≡ ok v
    → ((a : A) → m ≡ ok a → k ≡ ok v → P)
    → P
>>-inv (ok a) k h next = next a refl h
>>-inv (err e) k h next = cc

pub >>=-inv {ℓ κ μ} :
    {A : Type ℓ} {B : Type κ} {P : Type μ} (m : Result A) (f : A → Result B) {v : B}
    → (m >>= f) ≡ ok v
    → ((a : A) → m ≡ ok a → f a ≡ ok v → P)
    → P
>>=-inv (ok a) f h next = next a refl h
>>=-inv (err e) f h next = cc

pub fail_if-inv : (test : Bool) (e : Error) {v : Unit {0}} → fail_if test e ≡ ok v → test ≡ false
fail_if-inv true e h = cc
fail_if-inv false e h = refl
