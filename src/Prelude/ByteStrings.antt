-- ===== src/Prelude/ByteStrings.antt =====
-- Byte sequences: Go's `string` and `[]byte`. A text literal stands for its bytes.
use Prim.Native.Nat.{ℕ, zero, suc, ◌<◌}
use Prim.Native.Char.{code}
use Prim.Native.String.{String}
use mathlib.Core.Path.{◌≡◌, refl}
use mathlib.Core.Logic.{◌↔◌, ◌≢◌, ◌⊎◌, inl, inr}
use mathlib.Core.Bool.{Bool, true, false, ◌&&◌}
use mathlib.Core.Option.{Option, none, some}
use mathlib.Core.List.{List, [], ◌∷◌, ◌++◌}
use native.Mathlib.Omega.{arith}
use g_tun.Prelude.Tests.{◌==◌, Bool-cases, Option-cases}
use g_tun.Prelude.Lists.{length}

abbrev pub Bytes : Type 0
Bytes = List ℕ

-- The bytes of an ASCII text.
abbrev pub codes : String → Bytes
codes String.[] = []
codes (String.◌∷◌ c s) = code c ∷ codes s

-- Comparison of strings, and `hmac.Equal`, whose constant time the model does not see.
abbrev pub bytes_eq : Bytes → Bytes → Bool
bytes_eq [] [] = true
bytes_eq [] (y ∷ ys) = false
bytes_eq (x ∷ xs) [] = false
bytes_eq (x ∷ xs) (y ∷ ys) = (x == y) && bytes_eq xs ys

bytes_eq_sound : (xs ys : Bytes) → bytes_eq xs ys ≡ true → xs ≡ ys
bytes_eq_sound [] [] h = refl
bytes_eq_sound [] (y ∷ ys) h = cc
bytes_eq_sound (x ∷ xs) [] h = cc
bytes_eq_sound (x ∷ xs) (y ∷ ys) h = ground (arith, bytes_eq_sound xs ys)

pub bytes_eq_refl : (xs : Bytes) → bytes_eq xs xs ≡ true
bytes_eq_refl [] = refl
bytes_eq_refl (x ∷ xs) = ground (arith, bytes_eq_refl xs)

pub bytes_eq_iff : (xs ys : Bytes) → (bytes_eq xs ys ≡ true) ↔ (xs ≡ ys)
bytes_eq_iff xs ys = (bytes_eq_sound xs ys, λ e. rw e (bytes_eq_refl ys))

pub bytes_ne : (xs ys : Bytes) → xs ≢ ys → bytes_eq xs ys ≡ false
bytes_ne xs ys h = ground (arith, bytes_eq_sound xs ys)

pub bytes_eq-false : (xs ys : Bytes) → bytes_eq xs ys ≡ false → xs ≢ ys
bytes_eq-false xs ys h e = ground (arith, bytes_eq_iff xs ys)

pub bytes_eq-cases :
    (xs ys : Bytes) → ((bytes_eq xs ys ≡ true) × (xs ≡ ys)) ⊎ ((bytes_eq xs ys ≡ false) × (xs ≢ ys))
bytes_eq-cases xs ys = elim (Bool-cases (bytes_eq xs ys)) [
  | inl e ↦ inl (e, bytes_eq_sound xs ys e)
  | inr e ↦ inr (e, bytes_eq-false xs ys e)
]

-- The concatenation of the parts.
unfoldable pub append_all : List Bytes → Bytes
append_all [] = []
append_all (p ∷ ps) = p ++ append_all ps

-- The first `n` bytes and the rest; `none` if there are fewer.
unfoldable pub split_at? : ℕ → Bytes → Option (Bytes × Bytes)
split_at? zero xs = some ([], xs)
split_at? (suc n) [] = none
split_at? (suc n) (x ∷ xs) = elim (split_at? n xs) [
  | none ↦ none
  | some (front, rest) ↦ some (x ∷ front, rest)
]

pub split_at?-append :
    (n : ℕ) (xs ys : Bytes) → length xs ≡ n → split_at? n (xs ++ ys) ≡ some (xs, ys)
unfolding split_at?
split_at?-append zero [] ys h = refl
split_at?-append zero (x ∷ xs) ys h = absurd (omega arith)
split_at?-append (suc n) [] ys h = absurd (omega arith)
split_at?-append (suc n) (x ∷ xs) ys h = rw (split_at?-append n xs ys (omega arith))

pub split_at?_whole : (n : ℕ) (xs : Bytes) → length xs ≡ n → split_at? n xs ≡ some (xs, [])
unfolding split_at?
split_at?_whole zero [] h = refl
split_at?_whole zero (x ∷ xs) h = absurd (omega arith)
split_at?_whole (suc n) [] h = absurd (omega arith)
split_at?_whole (suc n) (x ∷ xs) h = rw (split_at?_whole n xs (omega arith))

pub split_at?_sound :
    (n : ℕ) (zs xs ys : Bytes) → split_at? n zs ≡ some (xs, ys) → (zs ≡ xs ++ ys) × (length xs ≡ n)
unfolding split_at?
split_at?_sound zero zs xs ys h = ground arith
split_at?_sound (suc n) [] xs ys h = cc
split_at?_sound (suc n) (z ∷ zs) xs ys h = elim (Option-cases (split_at? n zs)) [
  | inl e ↦ cc (rw (e, split_at?) at h)
  | inr ((front, rest), e) ↦ ground (arith, split_at?_sound n zs front rest)
]

pub split_at?_short : (n : ℕ) (xs : Bytes) → length xs < n → split_at? n xs ≡ none
unfolding split_at?
split_at?_short zero xs h = absurd (omega arith)
split_at?_short (suc n) [] h = refl
split_at?_short (suc n) (x ∷ xs) h = rw (split_at?_short n xs (omega arith))

pub split_at?-cases :
    (n : ℕ) (zs : Bytes)
    → (split_at? n zs ≡ none)
      ⊎ ((xs ys : Bytes) × (split_at? n zs ≡ some (xs, ys)) × (zs ≡ xs ++ ys) × (length xs ≡ n))
split_at?-cases n zs = go (split_at? n zs) refl
  where
    go :
        (r : Option (Bytes × Bytes))
        → split_at? n zs ≡ r
        → (split_at? n zs ≡ none)
          ⊎ ((xs ys : Bytes) × (split_at? n zs ≡ some (xs, ys)) × (zs ≡ xs ++ ys) × (length xs ≡ n))
    go none e = inl e
    go (some (xs, ys)) e =
        inr (xs, ys, e, (split_at?_sound n zs xs ys e).0, (split_at?_sound n zs xs ys e).1)
