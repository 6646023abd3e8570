-- ===== src/Control/Equal.antt =====
-- internal/control/control.go: `Equal`.
use g_tun.Prelude.{◌≡◌, ◌↔◌, refl, bytes_eq_iff, true, Option, none, some, arith}
use g_tun.Config.Kcp.{Kcp, eq_kcp_iff}
use g_tun.Control.{Settings, equal, equal_kcp}

equal_kcp_iff : (a b : Option Kcp) → (equal_kcp a b ≡ true) ↔ (a ≡ b)
unfolding equal_kcp
equal_kcp_iff none none = (λ h. refl, λ h. refl)
equal_kcp_iff none (some k) = (λ h. cc, λ h. cc)
equal_kcp_iff (some k) none = (λ h. cc, λ h. cc)
equal_kcp_iff (some k) (some l) = (λ h. cc ((eq_kcp_iff k l).0 h), λ h. (eq_kcp_iff k l).1 (cc))

-- `Equal` compares two settings field by field, the KCP parameters behind their pointers: it holds
-- exactly of equal settings.
pub equal_iff : (c o : Settings) → (equal c o ≡ true) ↔ (c ≡ o)
unfolding equal
equal_iff c o = ground (
  arith,
  bytes_eq_iff c.protocol o.protocol,
  bytes_eq_iff c.port o.port,
  equal_kcp_iff c.kcp o.kcp,
)
