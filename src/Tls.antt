-- ===== src/Tls.antt =====
-- internal/tlsutil/tlsutil.go: the two TLS configurations. Certificates are byte sequences; reading
-- a key pair (crypto/tls), a file (os) and the PEM decoder (encoding/pem) are parameters.
pub mod Pinned
pub mod Generate
use g_tun.Prelude.{
  ℕ, ◌≡◌, ◌↔◌, refl, Bytes, codes, bytes_eq, bytes_eq_iff, Bool, true, false, not, Option, none,
  some, List, [], ◌∷◌, arith, if◌then◌else◌, Option-cases, inl, inr, ◌⊎◌,
}
use g_tun.Result.{Result, ok, err, load_key_pair, read_pinned, certificate_mismatch}

-- The PEM block: its type and its bytes.
pub record Block : Type 0 where
  pub kind : Bytes
  pub bytes : Bytes

pub record TlsFiles : Type 0 where
  pub load_x509_key_pair : Bytes → Bytes → Option Bytes
  pub read_file : Bytes → Option Bytes
  pub decode_pem : Bytes → Option Block

-- What the configurations fix; both are TLS 1.3 at least.
pub record ServerTls : Type 0 where
  pub certificate : Bytes
  pub next_protos : List Bytes

pub record ClientTls : Type 0 where
  pub pinned : Bytes
  pub next_protos : List Bytes

key_pair : Option Bytes → List Bytes → Result ServerTls
key_pair none next_protos = err load_key_pair
key_pair (some cert) next_protos = ok (record { certificate = cert; next_protos = next_protos })

unfoldable pub server_config : TlsFiles → Bytes → Bytes → List Bytes → Result ServerTls
unfolding key_pair
server_config files cert_path key_path next_protos =
    key_pair (files.load_x509_key_pair cert_path key_path) next_protos

pinned_block : Option Block → List Bytes → Result ClientTls
pinned_block none next_protos = err read_pinned
pinned_block (some b) next_protos =
    if not (bytes_eq b.kind (codes "CERTIFICATE"))
    then err read_pinned
    else ok (record { pinned = b.bytes; next_protos = next_protos })

pinned_file : TlsFiles → Option Bytes → List Bytes → Result ClientTls
unfolding pinned_block
pinned_file files none next_protos = err read_pinned
pinned_file files (some text) next_protos = pinned_block (files.decode_pem text) next_protos

unfoldable pub pinned_client_config : TlsFiles → Bytes → List Bytes → Result ClientTls
unfolding pinned_file
pinned_client_config files cert_path next_protos =
    pinned_file files (files.read_file cert_path) next_protos

-- `VerifyConnection` at the certificates that the peer presented.
unfoldable pub verify_connection : ClientTls → List Bytes → Result (Unit {0})
verify_connection c [] = err certificate_mismatch
verify_connection c (leaf ∷ chain) =
    if bytes_eq leaf c.pinned then ok tt else err certificate_mismatch
