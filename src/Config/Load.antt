-- ===== src/Config/Load.antt =====
-- internal/config/config.go: `LoadServer` and `LoadClient`.
use g_tun.Prelude.{
  ◌≡◌, ◌↔◌, ◌∙◌, sym, ap, subst, Bytes, codes, bytes_eq, Option, none, some, Option-cases, inl, inr,
  [], arith, if◌then◌else◌,
}
use g_tun.Result.{Result, ok, err, ◌>>=◌, ◌>>◌, >>=-inv, >>-inv, open_config, parse_config}
use g_tun.Config.Kcp.{Kcp, default_kcp}
use g_tun.Config.Server.{Server}
use g_tun.Config.Server
use g_tun.Config.Client.{Client}
use g_tun.Config.Client

-- The file system, the JSON decoder for the record, and `filepath.Join(filepath.Dir(path), name)`.
pub record Files {ℓ} (A : Type ℓ) : Type ℓ where
  pub read : Bytes → Option Bytes
  pub decode : Bytes → Option A

decoded {ℓ} : {A : Type ℓ} → Option A → Result A
decoded none = err parse_config
decoded (some a) = ok a

opened {ℓ} : {A : Type ℓ} → Files A → Option Bytes → Result A
unfolding decoded
opened files none = err open_config
opened files (some text) = decoded (files.decode text)

unfoldable pub load {ℓ} : {A : Type ℓ} → Files A → Bytes → Result A
unfolding opened
load files path = opened files (files.read path)

-- `if cfg.KCP == nil { cfg.KCP = &d }`.
with_kcp : Server → Option Kcp → Server
with_kcp cfg none = record cfg { kcp = some default_kcp }
with_kcp cfg (some k) = cfg

abbrev or_default : Option Kcp → Kcp
or_default none = default_kcp
or_default (some k) = k

unfoldable pub load_server : Files Server → Bytes → Result Server
unfolding with_kcp
load_server files path = do
  cfg ← load files path
  let cfg' = with_kcp cfg cfg.kcp
  Server.validate cfg'
  ok cfg'

with_cert : Client → Bytes → Client
with_cert cfg default_cert =
    if bytes_eq cfg.tls_cert_path [] then record cfg { tls_cert_path = default_cert } else cfg

unfoldable pub load_client : (Bytes → Bytes → Bytes) → Files Client → Bytes → Result Client
unfolding with_cert
load_client beside files path = do
  cfg ← load files path
  let cfg' = with_cert cfg (beside path (codes "cert.pem"))
  Client.validate cfg'
  ok cfg'

-- What the file itself says, before the defaults.
abbrev pub Stored {ℓ} : {A : Type ℓ} → Files A → Bytes → A → Type ℓ
Stored files path cfg =
    (text : Bytes) × (files.read path ≡ some text) × (files.decode text ≡ some cfg)

load_sound {ℓ} :
    {A : Type ℓ} (files : Files A) (path : Bytes) (cfg : A)
    → load files path ≡ ok cfg
    → Stored files path cfg
unfolding load
load_sound files path cfg h = elim (Option-cases (files.read path)) [
  | inl missing ↦ cc (rw missing at h)
  | inr (text, found) ↦ (
    text,
    found,
    elim (Option-cases (files.decode text)) [
      | inl bad ↦ cc (rw (found, opened, bad) at h)
      | inr (a, good) ↦ ground (arith, found, good)
    ],
  )
]

load_complete {ℓ} :
    {A : Type ℓ} (files : Files A) (path : Bytes) (cfg : A)
    → Stored files path cfg
    → load files path ≡ ok cfg
unfolding load
load_complete files path cfg (text, found, good) = rw (found, opened, good)

module _ (files : Files Server) (path : Bytes) where
  -- `LoadServer` returns exactly the valid configurations that a file holds, where a file without
  -- KCP parameters gets the defaults; so the result always has KCP parameters, and usable ones.
  pub load_server_iff :
      (cfg : Server)
      → (load_server files path ≡ ok cfg) ↔ (
          (raw : Server) × Stored files path raw
          × (cfg ≡ record raw { kcp = some (or_default raw.kcp) })
          × Server.IsValid cfg)
  unfolding load_server
  load_server_iff cfg = (sound, complete)
    where
      filled :
          (raw : Server) → with_kcp raw raw.kcp ≡ record raw { kcp = some (or_default raw.kcp) }
      filled raw = ground arith

      sound :
          load_server files path ≡ ok cfg
          → (raw : Server) × Stored files path raw
            × (cfg ≡ record raw { kcp = some (or_default raw.kcp) })
            × Server.IsValid cfg
      sound h = >>=-inv (load files path) _ h λ raw stored h1.
          >>-inv (Server.validate (with_kcp raw raw.kcp)) _ h1 λ _ valid same.
            let e : cfg ≡ with_kcp raw raw.kcp = cc in
            (
              raw,
              load_sound files path raw stored,
              e ∙ filled raw,
              subst Server.IsValid (sym e) ((Server.server_validate_iff _).0 valid),
            )

      complete :
          (raw : Server) × Stored files path raw
            × (cfg ≡ record raw { kcp = some (or_default raw.kcp) })
            × Server.IsValid cfg
          → load_server files path ≡ ok cfg
      complete (raw, stored, same, valid) =
          let e : cfg ≡ with_kcp raw raw.kcp = same ∙ sym (filled raw) in
          rw
            (
              load_complete files path raw stored,
              (Server.server_validate_iff _).1 (subst Server.IsValid e valid),
            )
            (ap ok (sym e))

module _ (beside : Bytes → Bytes → Bytes) (files : Files Client) (path : Bytes) where
  -- `LoadClient` returns exactly the valid configurations that a file holds, where an empty path of
  -- the pinned certificate stands for `cert.pem` beside the file.
  pub load_client_iff :
      (cfg : Client)
      → (load_client beside files path ≡ ok cfg) ↔ (
          (raw : Client) × Stored files path raw
          × (cfg ≡ record raw {
            tls_cert_path =
                if bytes_eq raw.tls_cert_path []
                then beside path (codes "cert.pem")
                else raw.tls_cert_path;
          })
          × Client.IsValid cfg)
  unfolding load_client
  load_client_iff cfg = (sound, complete)
    where
      default_cert : Bytes
      default_cert = beside path (codes "cert.pem")

      filled :
          (raw : Client)
          → with_cert raw default_cert ≡ record raw {
            tls_cert_path =
                if bytes_eq raw.tls_cert_path [] then default_cert else raw.tls_cert_path;
          }
      filled raw = ground arith

      sound :
          load_client beside files path ≡ ok cfg
          → (raw : Client) × Stored files path raw
            × (cfg ≡ record raw {
              tls_cert_path =
                  if bytes_eq raw.tls_cert_path [] then default_cert else raw.tls_cert_path;
            })
            × Client.IsValid cfg
      sound h = >>=-inv (load files path) _ h λ raw stored h1.
          >>-inv (Client.validate (with_cert raw default_cert)) _ h1 λ _ valid same.
            let e : cfg ≡ with_cert raw default_cert = cc in
            (
              raw,
              load_sound files path raw stored,
              e ∙ filled raw,
              subst Client.IsValid (sym e) ((Client.client_validate_iff _).0 valid),
            )

      complete :
          (raw : Client) × Stored files path raw
            × (cfg ≡ record raw {
              tls_cert_path =
                  if bytes_eq raw.tls_cert_path [] then default_cert else raw.tls_cert_path;
            })
            × Client.IsValid cfg
          → load_client beside files path ≡ ok cfg
      complete (raw, stored, same, valid) =
          let e : cfg ≡ with_cert raw default_cert = same ∙ sym (filled raw) in
          rw
            (
              load_complete files path raw stored,
              (Client.client_validate_iff _).1 (subst Client.IsValid e valid),
            )
            (ap ok (sym e))
