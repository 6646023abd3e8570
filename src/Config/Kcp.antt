-- ===== src/Config/Kcp.antt =====
-- internal/config/config.go: the KCP parameters, their defaults and their validation.
use g_tun.Prelude.{◌≡◌, ◌↔◌, Bool, true, ◌||◌, ◌&&◌, arith, if◌then◌else◌}
use g_tun.Prelude.Int.{ℤ, pos, ◌≤ℤ◌, leb_ℤ, ltb_ℤ, eq_ℤ, eq_ℤ_iff, eq_ℤ-refl}
use g_tun.Result.{Result, ok, err, kcp_interval, kcp_window, kcp_shards}

pub record Kcp : Type 0 where
  pub no_delay : ℤ
  pub interval : ℤ
  pub resend : ℤ
  pub no_congestion : ℤ
  pub snd_wnd : ℤ
  pub rcv_wnd : ℤ
  pub data_shards : ℤ
  pub parity_shards : ℤ

abbrev pub default_kcp : Kcp
default_kcp = record {
  no_delay = pos 1;
  interval = pos 20;
  resend = pos 2;
  no_congestion = pos 1;
  snd_wnd = pos 4096;
  rcv_wnd = pos 4096;
  data_shards = pos 10;
  parity_shards = pos 3;
}

unfoldable pub validate_kcp : Kcp → Result (Unit {0})
validate_kcp k =
    if leb_ℤ k.interval (pos 0)
    then err kcp_interval
    else if leb_ℤ k.snd_wnd (pos 0) || leb_ℤ k.rcv_wnd (pos 0)
    then err kcp_window
    else if ltb_ℤ k.data_shards (pos 0) || ltb_ℤ k.parity_shards (pos 0)
    then err kcp_shards
    else ok tt

-- The struct comparison `==`.
unfoldable pub eq_kcp : Kcp → Kcp → Bool
eq_kcp a b =
    eq_ℤ a.no_delay b.no_delay
    && (eq_ℤ a.interval b.interval
        && (eq_ℤ a.resend b.resend
            && (eq_ℤ a.no_congestion b.no_congestion
                && (eq_ℤ a.snd_wnd b.snd_wnd
                    && (eq_ℤ a.rcv_wnd b.rcv_wnd
                        && (eq_ℤ a.data_shards b.data_shards
                            && eq_ℤ a.parity_shards b.parity_shards))))))

-- The usable parameters.
pub record IsUsable (k : Kcp) : Type 0 where
  pub interval : pos 1 ≤ℤ k.interval
  pub snd_wnd : pos 1 ≤ℤ k.snd_wnd
  pub rcv_wnd : pos 1 ≤ℤ k.rcv_wnd
  pub data_shards : pos 0 ≤ℤ k.data_shards
  pub parity_shards : pos 0 ≤ℤ k.parity_shards

pub validate_kcp_sound : (k : Kcp) → validate_kcp k ≡ ok tt → IsUsable k
unfolding validate_kcp
validate_kcp_sound k e = ground arith

pub validate_kcp_complete : (k : Kcp) → IsUsable k → validate_kcp k ≡ ok tt
unfolding validate_kcp
validate_kcp_complete k u = ground arith

eq_kcp_refl : (k : Kcp) → eq_kcp k k ≡ true
unfolding eq_kcp
eq_kcp_refl k = simp eq_ℤ-refl

pub eq_kcp_iff : (a b : Kcp) → (eq_kcp a b ≡ true) ↔ (a ≡ b)
unfolding eq_kcp
eq_kcp_iff a b = (sound, complete)
  where
    sound : eq_kcp a b ≡ true → a ≡ b
    sound h = ground (
      arith,
      eq_ℤ_iff a.no_delay b.no_delay,
      eq_ℤ_iff a.interval b.interval,
      eq_ℤ_iff a.resend b.resend,
      eq_ℤ_iff a.no_congestion b.no_congestion,
      eq_ℤ_iff a.snd_wnd b.snd_wnd,
      eq_ℤ_iff a.rcv_wnd b.rcv_wnd,
      eq_ℤ_iff a.data_shards b.data_shards,
      eq_ℤ_iff a.parity_shards b.parity_shards,
    )

    complete : a ≡ b → eq_kcp a b ≡ true
    complete h = rw h (eq_kcp_refl b)
