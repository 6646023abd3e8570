-- ===== src/Proto/Classes.antt =====
-- What `Parse` accepts, and how the classes of a supported name (proto.go) relate.
use g_tun.Prelude.{
  Bytes, bytes_eq-cases, true, false, ◌≡◌, sym, subst, All, ◌↔◌, ◌⊎◌, inl, inr, List, [], ◌∷◌,
  arith,
}
use g_tun.Result.{ok}
use g_tun.Proto.{
  Name, utcp_mux, quic, supported, parse, parse_from, mux, web_socket, tls, udp_based,
}

-- The name stands in the list.
abbrev pub IsOneOf : Name → List Name → Type 0
IsOneOf n [] = ⊥
IsOneOf n (m ∷ ms) = (n ≡ m) ⊎ IsOneOf n ms

parse_from_ok : (ns : List Name) (s n : Bytes) → (parse_from ns s ≡ ok n) ↔ ((n ≡ s) × IsOneOf s ns)
unfolding parse_from
parse_from_ok [] s n = (λ h. cc, λ h. absurd h.1)
parse_from_ok (m ∷ ms) s n = elim (bytes_eq-cases m s) [
  | inl (e, p) ↦ rw e (λ h. (ground arith, inl (sym p)), λ h. ground arith)
  | inr (e, p) ↦ rw e (ground (arith, parse_from_ok ms s n))
]

-- `Parse` accepts exactly the ten supported names, and returns the name that it was given.
pub parse_iff : (s n : Bytes) → (parse s ≡ ok n) ↔ ((n ≡ s) × IsOneOf s supported)
unfolding parse
parse_iff s n = parse_from_ok supported s n

-- What holds at each name of a list holds of every name that stands in it.
All-IsOneOf {ℓ} : (P : Name → Type ℓ) (ns : List Name) (n : Name) → All P ns → IsOneOf n ns → P n
All-IsOneOf P [] n all i = absurd i
All-IsOneOf P (m ∷ ms) n all (inl e) = subst P (sym e) all.0
All-IsOneOf P (m ∷ ms) n all (inr i) = All-IsOneOf P ms n all.1 i

-- To prove a fact of a name that `Parse` accepted, prove it at the ten supported names.
pub parse-ind {ℓ} : (P : Name → Type ℓ) (s n : Bytes) → All P supported → parse s ≡ ok n → P n
parse-ind P s n all p =
    let (e, i) = (parse_iff s n).0 p in subst P (sym e) (All-IsOneOf P supported s all i)

abbrev ClassLaws : Name → Type 0
ClassLaws n =
    (tls n ≡ true → (web_socket n ≡ true) ⊎ (n ≡ quic))
    × (web_socket n ≡ true → udp_based n ≡ false)
    × (mux n ≡ true → udp_based n ≡ true → n ≡ utcp_mux)
    × (tls n ≡ true → udp_based n ≡ true → n ≡ quic)

ClassLaws-table : All ClassLaws supported
unfolding tls web_socket udp_based mux
ClassLaws-table = ground arith

-- A name that `Parse` accepts is TLS only if it is a WebSocket name or `quic`; a WebSocket name is
-- never UDP based; `utcpmux` is the only name that is both multiplexed and UDP based; `quic` is the
-- only name that is both TLS and UDP based.
parse-ClassLaws : (s n : Bytes) → parse s ≡ ok n → ClassLaws n
parse-ClassLaws s n p = parse-ind ClassLaws s n ClassLaws-table p
