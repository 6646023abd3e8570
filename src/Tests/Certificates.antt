-- ===== src/Tests/Certificates.antt =====
-- A certificate and its use. Here PEM puts the length of a block's type in front of the type, and
-- a certificate is the serial number.
use g_tun.Prelude.{
  ◌≡◌, ◌≢◌, ◌↔◌, refl, ap, Bytes, codes, length, take, drop, take-append, drop-append, Option, none,
  some, [], ◌∷◌, ◌++◌,
}
use g_tun.Result.{ok}
use g_tun.Tls.{Block, ServerTls, ClientTls, server_config, pinned_client_config, verify_connection}
use g_tun.Tls.Generate.{
  Crypto, Disk, wrote, Writes, certificate_block, generate_self_signed, files_of,
}
use g_tun.Tls.Generate.Pins.{Lawful, generate_pins}

abbrev encode : Block → Bytes
encode b = length b.kind ∷ (b.kind ++ b.bytes)

abbrev decode : Bytes → Option Block
decode [] = none
decode (n ∷ text) = some (record { kind = take n text; bytes = drop n text })

abbrev bytes_of : Option Block → Option Bytes
bytes_of none = none
bytes_of (some b) = some b.bytes

abbrev lib : Crypto
lib = record {
  Key = Bytes;
  new_key = some (codes "key");
  random_serial = some 5;
  new_certificate = λ t key. some (t.serial_number ∷ []);
  marshal = λ key. some key;
  encode_pem = encode;
  decode_pem = decode;
  x509_key_pair = λ cert key. bytes_of (decode cert);
}

decode-encode : (b : Block) → decode (encode b) ≡ some b
decode-encode b =
    rw
      (
        take-append (length b.kind) b.kind b.bytes refl,
        drop-append (length b.kind) b.kind b.bytes refl,
      )
      refl

lib-Lawful : Lawful lib
lib-Lawful = record {
  decodes = decode-encode;
  pairs = λ now serial key der key_der made marshalled.
      ap bytes_of (decode-encode (certificate_block der));
}

abbrev cert_path : Bytes
cert_path = codes "cert.pem"

abbrev key_path : Bytes
key_path = codes "key.pem"

paths_differ : cert_path ≢ key_path
paths_differ e = cc e

abbrev empty_disk : Disk
empty_disk path = none

abbrev ends : Writes
ends = record { key = wrote; certificate = wrote }

abbrev written : Disk
written = (generate_self_signed lib 9000 ends cert_path key_path empty_disk).1

succeeds : generate_self_signed lib 9000 ends cert_path key_path empty_disk ≡ (ok tt, written)
unfolding generate_self_signed
succeeds = refl

generate_pins_example :
    (s : ServerTls) × (c : ClientTls) × (server_config
        (files_of lib written)
        cert_path
        key_path
        (codes "g-tun" ∷ [])
      ≡ ok s)
    × (pinned_client_config (files_of lib written) cert_path (codes "g-tun" ∷ []) ≡ ok c)
    × ((verify_connection c ((5 ∷ []) ∷ []) ≡ ok tt) ↔ (5 ∷ [] ≡ s.certificate))
generate_pins_example =
    generate_pins lib 9000 ends cert_path key_path empty_disk written succeeds (codes "g-tun" ∷ [])
      [] (5 ∷ []) lib-Lawful paths_differ
