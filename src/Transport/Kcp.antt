-- ===== src/Transport/Kcp.antt =====
-- internal/transport/kcp.go: the cipher of all KCP traffic, and the tuning of a session.
-- github.com/xtaci/kcp-go is a parameter: its cipher from a key, with `none` for an error.
use g_tun.Prelude.{◌≡◌, Bytes, codes, length, Option, none, some}
use g_tun.Prelude.Int.{ℤ}
use g_tun.Result.{Result, ok, err, create_cipher}
use g_tun.Auth.Mac.{Hmac, derive_key, length-derive_key}
use g_tun.Config.Kcp.{Kcp}

pub record Ciphers : Type 1 where
  pub Block : Type 0
  pub new_aes_block_crypt : Bytes → Option Block

-- AES takes keys of 16, 24 and 32 bytes.
abbrev pub TakesKeys : Ciphers → Type 0
TakesKeys lib =
    (key : Bytes) → length key ≡ 32 → (b : lib.Block) × (lib.new_aes_block_crypt key ≡ some b)

block_or_error : {A : Type 0} → Option A → Result A
block_or_error none = err create_cipher
block_or_error (some b) = ok b

module _ (h : Hmac) (lib : Ciphers) where
  unfoldable pub kcp_block_crypt : Bytes → Result lib.Block
  unfolding block_or_error
  kcp_block_crypt token =
      block_or_error (lib.new_aes_block_crypt (derive_key h token (codes "kcp")))

  pub kcp_block_crypt_ok :
      (token : Bytes) → TakesKeys lib → (b : lib.Block) × (kcp_block_crypt token ≡ ok b)
  unfolding kcp_block_crypt
  kcp_block_crypt_ok token takes =
      let (b, made) =
        takes (derive_key h token (codes "kcp")) (length-derive_key h token (codes "kcp")) in
      (b, rw made)

-- The arguments of `SetNoDelay` and `SetWindowSize`.
pub record Tuning : Type 0 where
  pub no_delay : ℤ
  pub interval : ℤ
  pub resend : ℤ
  pub no_congestion : ℤ
  pub snd_wnd : ℤ
  pub rcv_wnd : ℤ

unfoldable pub tune_kcp : Kcp → Tuning
tune_kcp k = record {
  no_delay = k.no_delay;
  interval = k.interval;
  resend = k.resend;
  no_congestion = k.no_congestion;
  snd_wnd = k.snd_wnd;
  rcv_wnd = k.rcv_wnd;
}
