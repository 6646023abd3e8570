-- ===== src/Auth/Datagram.antt =====
-- internal/auth/datagram.go: the tag in front of each datagram of the `udp` protocol.
pub mod Seal
use g_tun.Prelude.{
  ℕ, ◌+◌, ◌<◌, ◌≡◌, ◌≢◌, ◌↔◌, ◌⊎◌, inl, inr, refl, sym, ap, ◌∙◌, Bytes, codes, bytes_eq,
  bytes_eq_iff, bytes_ne, append_all, length, length-append, length-take, take, drop, take-append,
  drop-append, take-append-drop, Bool, true, false, Bool-cases, Option, none, some, List, [], ◌∷◌,
  ◌++◌, arith, ltb, if◌then◌else◌,
}
use g_tun.Auth.Mac.{Hmac}

abbrev datagram_overhead : ℕ
datagram_overhead = 16

pub data Direction : Type 0 where
  client_to_server server_to_client : Direction

-- `byte(dir)`; the constants count from 1.
abbrev to_byte : Direction → ℕ
to_byte client_to_server = 1
to_byte server_to_client = 2

module _ (h : Hmac) (token : Bytes) where
  -- `mac.Sum(nil)[:DatagramOverhead]`.
  unfoldable pub datagram_tag : Direction → Bytes → Bytes
  datagram_tag dir payload =
      take datagram_overhead (h.sum token (codes "gtun/v1/udp" ++ (to_byte dir ∷ payload)))

  -- The two copies fill the buffer: the tag takes its first 16 bytes and the payload the rest.
  unfoldable pub seal_datagram : Direction → Bytes → Bytes
  seal_datagram dir payload = datagram_tag dir payload ++ payload

  unfoldable pub open_datagram : Direction → Bytes → Option Bytes
  open_datagram dir pkt =
      if ltb (length pkt) datagram_overhead
      then none
      else let tag = take datagram_overhead pkt in
        let payload = drop datagram_overhead pkt in
        if bytes_eq tag (datagram_tag dir payload) then some payload else none

  pub length-datagram_tag : (dir : Direction) (m : Bytes) → length (datagram_tag dir m) ≡ 16
  unfolding datagram_tag
  length-datagram_tag dir m = omega (
    arith,
    length-take 16 (h.sum token _),
    h.sum_size token (codes "gtun/v1/udp" ++ (to_byte dir ∷ m)),
  )
