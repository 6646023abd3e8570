-- ===== src/Auth/Datagram/Seal.antt =====
-- internal/auth/datagram.go: what `OpenDatagram` accepts.
use g_tun.Prelude.{
  ◌+◌, ◌≡◌, ◌≢◌, ◌↔◌, ◌∙◌, Bytes, bytes_eq, bytes_eq_iff, bytes_ne, length, length-append, take,
  drop, take-append, drop-append, bytes_eq_refl, take-append-drop, none, some, arith, if◌then◌else◌,
}
use g_tun.Auth.Mac.{Hmac}
use g_tun.Auth.Datagram.{Direction, datagram_tag, seal_datagram, open_datagram, length-datagram_tag}

module _ (h : Hmac) (token : Bytes) (dir : Direction) where
  abbrev seal : Bytes → Bytes
  seal = seal_datagram h token dir

  open_sound : (pkt m : Bytes) → open_datagram h token dir pkt ≡ some m → pkt ≡ seal m
  unfolding open_datagram seal_datagram
  open_sound pkt m e = ground (
    arith,
    bytes_eq_iff (take 16 pkt) (datagram_tag h token dir (drop 16 pkt)),
    take-append-drop 16 pkt,
  )

  pub length-seal : (m : Bytes) → length (seal m) ≡ 16 + length m
  unfolding seal_datagram
  length-seal m =
      omega (arith, length-append (datagram_tag h token dir m) m, length-datagram_tag h token dir m)

  take-seal : (m : Bytes) → take 16 (seal m) ≡ datagram_tag h token dir m
  unfolding seal_datagram
  take-seal m = take-append 16 (datagram_tag h token dir m) m (length-datagram_tag h token dir m)

  drop-seal : (m : Bytes) → drop 16 (seal m) ≡ m
  unfolding seal_datagram
  drop-seal m = drop-append 16 (datagram_tag h token dir m) m (length-datagram_tag h token dir m)

  -- A sealed datagram that comes in under a direction whose tag for its payload is another one.
  open_seal :
      (dir' : Direction) (m : Bytes)
      → open_datagram h token dir' (seal m) ≡ (
          if bytes_eq (datagram_tag h token dir m) (datagram_tag h token dir' m)
          then some m
          else none)
  unfolding open_datagram
  open_seal dir' m = simp (take-seal, drop-seal) (ground (arith, length-seal m))

  -- `OpenDatagram` returns a payload exactly for the datagram that `SealDatagram` makes of it, with
  -- the same token and direction.
  pub open_datagram_iff :
      (pkt m : Bytes) → (open_datagram h token dir pkt ≡ some m) ↔ (pkt ≡ seal m)
  open_datagram_iff pkt m = (
    open_sound pkt m,
    λ e. rw e (open_seal dir m ∙ rw (bytes_eq_refl (datagram_tag h token dir m))),
  )

  -- A datagram is dropped by the side that sealed it, if the tags of its payload in the two
  -- directions differ; a sealed datagram is 16 bytes longer than its payload.
  open_datagram_reflected :
      (dir' : Direction) (m : Bytes)
      → datagram_tag h token dir m ≢ datagram_tag h token dir' m
      → (open_datagram h token dir' (seal m) ≡ none) × (length (seal m) ≡ 16 + length m)
  open_datagram_reflected dir' m ne = (
    open_seal dir' m ∙ rw (bytes_ne (datagram_tag h token dir m) (datagram_tag h token dir' m) ne),
    length-seal m,
  )
