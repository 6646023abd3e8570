-- ===== src/Control.antt =====
-- internal/control/control.go: the message with the transport settings.
-- encoding/json is the parameter `Json`.
pub mod Equal
pub mod Receive
pub mod RoundTrip
use g_tun.Prelude.{
  ℕ, ◌+◌, ◌*◌, ◌/◌, ◌%◌, ◌^◌, Bytes, codes, bytes_eq, length, take, drop, Bool, true, false, ◌&&◌,
  ◌||◌, not, Option, none, some, List, [], ◌∷◌, ◌++◌, ltb, if◌then◌else◌,
}
use g_tun.Result.{
  Result, ok, err, Error, auth_failed, encode_config, config_too_large, send_config, read_header,
  message_too_large, read_message, decode_config,
}
use g_tun.Proto.{Name, parse}
use g_tun.Auth.Mac.{Hmac, Channel, tag_size, sign, verify}
use g_tun.Auth.Io.{Io, ◌>>=◌, ◌>>◌, return, raise_if, raise_unless, or_raise, lift, reads, writes}
use g_tun.Config.Kcp.{Kcp, eq_kcp, validate_kcp}

abbrev max_body_size : ℕ
max_body_size = 4096

abbrev pub label_config : Bytes
label_config = codes "gtun/v1/config"

-- `control.Config`; `none` is the nil pointer.
pub record Settings : Type 0 where
  pub protocol : Name
  pub port : Bytes
  pub kcp : Option Kcp

equal_kcp : Option Kcp → Option Kcp → Bool
equal_kcp none none = true
equal_kcp none (some k) = false
equal_kcp (some k) none = false
equal_kcp (some k) (some l) = eq_kcp k l

unfoldable pub equal : Settings → Settings → Bool
unfolding equal_kcp
equal c o =
    if not (bytes_eq c.protocol o.protocol) || not (bytes_eq c.port o.port)
    then false
    else equal_kcp c.kcp o.kcp

-- `json.Marshal` and `json.Unmarshal` at the settings.
pub record Json : Type 0 where
  pub marshal : Settings → Option Bytes
  pub unmarshal : Bytes → Option Settings

-- `binary.BigEndian.PutUint16` of `uint16(n)`, and `Uint16`.
abbrev pub put_uint16 : ℕ → Bytes
put_uint16 n = let w : ℕ = n % 2 ^ 16 in w / 256 ∷ w % 256 ∷ []

abbrev pub uint16 : Bytes → ℕ
uint16 [] = 0
uint16 (hi ∷ []) = 0
uint16 (hi ∷ lo ∷ rest) = hi * 256 + lo

abbrev pub validate_announced : Option Kcp → Result (Unit {0})
validate_announced none = ok tt
validate_announced (some k) = validate_kcp k

module _ (h : Hmac) (json : Json) (token : Bytes) (channel : Channel) where
  unfoldable pub frame : Bytes → Bytes
  frame body = put_uint16 (length body) ++ (body ++ sign h token label_config (channel ∷ body ∷ []))

  unfoldable pub send : Settings → Io (Result (Unit {0}))
  send cfg = do
    body ← or_raise encode_config (json.marshal cfg)
    raise_if (ltb max_body_size (length body)) config_too_large
    writes (frame body) send_config
    return tt

  unfoldable pub receive : Io (Result Settings)
  receive = do
    header ← reads 2 read_header
    raise_if (ltb max_body_size (uint16 header)) message_too_large
    buf ← reads (uint16 header + tag_size) read_message
    let body = take (uint16 header) buf
    let tag = drop (uint16 header) buf
    raise_unless (verify h token label_config tag (channel ∷ body ∷ [])) auth_failed
    cfg ← or_raise decode_config (json.unmarshal body)
    lift (parse cfg.protocol)
    lift (validate_announced cfg.kcp)
    return cfg
