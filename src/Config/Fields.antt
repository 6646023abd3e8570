-- ===== src/Config/Fields.antt =====
-- internal/config/config.go: the validation of one field.
use g_tun.Prelude.{
  ℕ, ◌≤◌, ◌≡◌, ◌≢◌, Bytes, codes, bytes_eq, bytes_eq_iff, length, ◌||◌, ◌&&◌, not, Option, none,
  some, Option-cases, inl, inr, arith, ltb, if◌then◌else◌, [], ◌⊎◌,
}
use g_tun.Prelude.Int.{ℤ, pos, negsuc, ltb_ℤ}
use g_tun.Net.{atoi, split_host_port}
use g_tun.Result.{Result, ok, err, bad_port, bad_host_port, missing_host, token_short}

abbrev min_token_length : ℕ
min_token_length = 16

unfoldable pub validate_token : Bytes → Result (Unit {0})
validate_token token = if ltb (length token) min_token_length then err token_short else ok tt

port_in_range : Bytes → Option ℤ → Result (Unit {0})
port_in_range field none = err (bad_port field)
port_in_range field (some n) =
    if ltb_ℤ n (pos 1) || ltb_ℤ (pos 65535) n then err (bad_port field) else ok tt

unfoldable pub validate_port : Bytes → Bytes → Result (Unit {0})
unfolding port_in_range
validate_port field port = port_in_range field (atoi port)

host_and_port : Bytes → Option (Bytes × Bytes) → Result (Unit {0})
host_and_port field none = err (bad_host_port field)
host_and_port field (some (host, port)) =
    if bytes_eq host [] && not (bytes_eq field (codes "local_listen_port"))
    then err (missing_host field)
    else validate_port field port

unfoldable pub validate_host_port : Bytes → Bytes → Result (Unit {0})
unfolding host_and_port
validate_host_port field addr = host_and_port field (split_host_port addr)

-- A decimal port number.
abbrev pub IsPort : Bytes → Type 0
IsPort port = (n : ℕ) × (atoi port ≡ some (pos n)) × (1 ≤ n) × (n ≤ 65535)

-- An address with a port number, and with a host unless the field is the listening address.
abbrev pub IsHostPort : Bytes → Bytes → Type 0
IsHostPort field addr =
    (host : Bytes) × (port : Bytes) × (split_host_port addr ≡ some (host, port))
    × ((host ≢ []) ⊎ (field ≡ codes "local_listen_port"))
    × IsPort port

pub validate_port_sound : (field port : Bytes) → validate_port field port ≡ ok tt → IsPort port
unfolding validate_port
validate_port_sound field port e = elim (Option-cases (atoi port)) [
  | inl absent ↦ cc (rw absent at e)
  | inr (pos n, found) ↦ (n, found, ground (arith, found), ground (arith, found))
  | inr (negsuc n, found) ↦ ground (arith, found)
]

pub validate_port_complete : (field port : Bytes) → IsPort port → validate_port field port ≡ ok tt
unfolding validate_port
validate_port_complete field port (n, e, lo, hi) = ground arith

pub validate_host_port_sound :
    (field addr : Bytes) → validate_host_port field addr ≡ ok tt → IsHostPort field addr
unfolding validate_host_port
validate_host_port_sound field addr e = elim (Option-cases (split_host_port addr)) [
  | inl absent ↦ cc (rw absent at e)
  | inr ((host, port), found) ↦ (
    host,
    port,
    found,
    ground (arith, found, bytes_eq_iff host [], bytes_eq_iff field (codes "local_listen_port")),
    validate_port_sound field port (ground (arith, found)),
  )
]

pub validate_host_port_complete :
    (field addr : Bytes) → IsHostPort field addr → validate_host_port field addr ≡ ok tt
unfolding validate_host_port
validate_host_port_complete field addr (host, port, found, named, p) = ground (
  arith,
  found,
  bytes_eq_iff host [],
  bytes_eq_iff field (codes "local_listen_port"),
  validate_port_complete field port p,
)

pub validate_token_sound : (token : Bytes) → validate_token token ≡ ok tt → 16 ≤ length token
unfolding validate_token
validate_token_sound token e = ground arith

pub validate_token_complete : (token : Bytes) → 16 ≤ length token → validate_token token ≡ ok tt
unfolding validate_token
validate_token_complete token h = ground arith
