-- ===== src/Tls/Generate.antt =====
-- internal/tlsutil/tlsutil.go: `GenerateSelfSigned`.
-- The key, the certificate and PEM are those of the parameter `Crypto`. Times are seconds since 1970,
-- and `now` is an hour later at least. A disk is a function from paths to files.
pub mod Pins
use g_tun.Prelude.{
  ℕ, ◌+◌, ◌-◌, ◌*◌, ◌≡◌, Bytes, codes, bytes_eq, take, Bool, true, false, Option, none, some, List,
  [], ◌∷◌, if◌then◌else◌,
}
use g_tun.Result.{
  Result, ok, err, Error, generate_key, generate_serial, create_certificate, marshal_key, write_key,
  write_certificate,
}
use g_tun.Tls.{Block, TlsFiles}

-- 10 years.
abbrev cert_lifetime : ℕ
cert_lifetime = 10 * 365 * 24 * 3600

pub record Template : Type 0 where
  pub serial_number : ℕ
  pub common_name : Bytes
  pub dns_names : List Bytes
  pub not_before : ℕ
  pub not_after : ℕ

-- crypto/ecdsa, crypto/x509 and encoding/pem; `none` is an error. A certificate is signed by the
-- key that it is for.
pub record Crypto : Type 1 where
  pub Key : Type 0
  pub new_key : Option Key
  pub random_serial : Option ℕ
  pub new_certificate : Template → Key → Option Bytes
  pub marshal : Key → Option Bytes
  pub encode_pem : Block → Bytes
  pub decode_pem : Bytes → Option Block
  -- The certificate of a key pair, from the texts of its two files.
  pub x509_key_pair : Bytes → Bytes → Option Bytes

pub record File : Type 0 where
  pub content : Bytes
  pub mode : ℕ

abbrev pub Disk : Type 0
Disk = Bytes → Option File

-- How one call of os.WriteFile ends: it may fail before the file is opened, or behind `n` bytes.
pub data WriteEnd : Type 0 where
  wrote refused : WriteEnd
  cut : ℕ → WriteEnd

-- The mode is that of a new file; a file that is there keeps its own.
abbrev mode_of : Option File → ℕ → ℕ
mode_of none mode = mode
mode_of (some f) mode = f.mode

abbrev put : Disk → Bytes → Bytes → ℕ → Disk
put d path content mode p =
    if bytes_eq path p
    then some (record { content = content; mode = mode_of (d path) mode })
    else d p

unfoldable pub write_file : WriteEnd → Bytes → Bytes → ℕ → Disk → Bool × Disk
write_file wrote path content mode d = (true, put d path content mode)
write_file refused path content mode d = (false, d)
write_file (cut n) path content mode d = (false, put d path (take n content) mode)

-- The two modes, `0o600` and `0o644`.
abbrev pub owner_only : ℕ
owner_only = 6 * 64

abbrev pub world_readable : ℕ
world_readable = 6 * 64 + 4 * 8 + 4

unfoldable pub template : ℕ → ℕ → Template
template now serial = record {
  serial_number = serial;
  common_name = codes "localhost";
  dns_names = codes "localhost" ∷ [];
  not_before = now - 3600;
  not_after = now + cert_lifetime;
}

abbrev pub certificate_block : Bytes → Block
certificate_block der = record { kind = codes "CERTIFICATE"; bytes = der }

abbrev pub key_block : Bytes → Block
key_block der = record { kind = codes "EC PRIVATE KEY"; bytes = der }

done_or : Error → Bool × Disk → Result (Unit {0}) × Disk
done_or e (true, d) = (ok tt, d)
done_or e (false, d) = (err e, d)

then_certificate : WriteEnd → Bytes → Bytes → Bool × Disk → Result (Unit {0}) × Disk
unfolding done_or write_file
then_certificate end path pem (false, d) = (err write_key, d)
then_certificate end path pem (true, d) =
    done_or write_certificate (write_file end path pem world_readable d)

-- How the two writes end, that of the key first.
pub record Writes : Type 0 where
  pub key : WriteEnd
  pub certificate : WriteEnd

module _ (lib : Crypto) (now : ℕ) (ends : Writes) (cert_path key_path : Bytes) where
  write_both : Bytes → Bytes → Disk → Result (Unit {0}) × Disk
  unfolding then_certificate write_file
  write_both der key_der d =
      then_certificate ends.certificate cert_path (lib.encode_pem (certificate_block der))
        (write_file ends.key key_path (lib.encode_pem (key_block key_der)) owner_only d)

  marshalled : Bytes → Option Bytes → Disk → Result (Unit {0}) × Disk
  unfolding write_both
  marshalled der none d = (err marshal_key, d)
  marshalled der (some key_der) d = write_both der key_der d

  certified : lib.Key → Option Bytes → Disk → Result (Unit {0}) × Disk
  unfolding marshalled
  certified key none d = (err create_certificate, d)
  certified key (some der) d = marshalled der (lib.marshal key) d

  numbered : lib.Key → Option ℕ → Disk → Result (Unit {0}) × Disk
  unfolding certified
  numbered key none d = (err generate_serial, d)
  numbered key (some serial) d = certified key (lib.new_certificate (template now serial) key) d

  keyed : Option lib.Key → Disk → Result (Unit {0}) × Disk
  unfolding numbered
  keyed none d = (err generate_key, d)
  keyed (some key) d = numbered key lib.random_serial d

  unfoldable pub generate_self_signed : Disk → Result (Unit {0}) × Disk
  unfolding keyed
  generate_self_signed d = keyed lib.new_key d

content_of : Option File → Option Bytes
content_of none = none
content_of (some f) = some f.content

pair_of : Crypto → Option Bytes → Option Bytes → Option Bytes
pair_of lib none key = none
pair_of lib (some cert) none = none
pair_of lib (some cert) (some key) = lib.x509_key_pair cert key

-- The files of a disk as the TLS configurations read them.
unfoldable pub files_of : Crypto → Disk → TlsFiles
unfolding content_of pair_of
files_of lib d = record {
  load_x509_key_pair = λ cert key. pair_of lib (content_of (d cert)) (content_of (d key));
  read_file = λ path. content_of (d path);
  decode_pem = lib.decode_pem;
}
