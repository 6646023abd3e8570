-- ===== src/Net.antt =====
-- What the program uses of Go's packages net and strconv on texts: `strconv.Atoi`,
-- `net.SplitHostPort` and `net.JoinHostPort`, as their documentation and code have them.
use g_tun.Prelude.{
  ℕ, suc, ◌+◌, ◌-◌, ◌*◌, ◌^◌, Bytes, length, take, drop, Bool, true, false, ◌&&◌, ◌||◌, Option,
  none, some, [], ◌∷◌, ◌++◌, ltb, leb, ◌==◌, if◌then◌else◌, codes,
}
use g_tun.Prelude.Int.{ℤ, pos, negsuc}

is_digit : ℕ → Bool
is_digit c = leb b'0' c && leb c b'9'

-- The value of the digits after `acc`; `none` at a byte that is no digit.
unfoldable pub digits_value : ℕ → Bytes → Option ℕ
unfolding is_digit
digits_value acc [] = some acc
digits_value acc (c ∷ cs) = elim (is_digit c) [
  | true ↦ digits_value (acc * 10 + (c - b'0')) cs
  | false ↦ none
]

-- A text without its sign: at least one digit, and digits only.
unfoldable pub magnitude : Bytes → Option ℕ
magnitude [] = none
magnitude (c ∷ cs) = digits_value 0 (c ∷ cs)

-- A value out of the range of a 64-bit `int` is an error.
abbrev in_range : Bool → Option ℕ → Option ℤ
in_range negative none = none
in_range false (some n) = if ltb n (2 ^ 63) then some (pos n) else none
in_range true (some n) =
    if n == 0 then some (pos 0) else if leb n (2 ^ 63) then some (negsuc (n - 1)) else none

unfoldable pub atoi : Bytes → Option ℤ
atoi [] = none
atoi (c ∷ cs) =
    if c == b'-'
    then in_range true (magnitude cs)
    else if c == b'+'
    then in_range false (magnitude cs)
    else in_range false (magnitude (c ∷ cs))

-- `strings.IndexByte` and `LastIndexByte`, with `none` for -1.
unfoldable pub index_byte : ℕ → Bytes → Option ℕ
index_byte b [] = none
index_byte b (c ∷ cs) =
    if c == b then some 0 else elim (index_byte b cs) [ none ↦ none | some i ↦ some (suc i) ]

unfoldable pub last_index_byte : ℕ → Bytes → Option ℕ
last_index_byte b [] = none
last_index_byte b (c ∷ cs) = elim (last_index_byte b cs) [
  | some i ↦ some (suc i)
  | none ↦ if c == b then some 0 else none
]

unfoldable pub contains : ℕ → Bytes → Bool
contains b [] = false
contains b (c ∷ cs) = c == b || contains b cs

-- The last tests: no `[` from `j` on and no `]` from `k` on.
finish_split : Bytes → Bytes → ℕ → ℕ → ℕ → Option (Bytes × Bytes)
finish_split addr host i j k =
    if contains b'[' (drop j addr)
    then none
    else if contains b']' (drop k addr)
    then none
    else some (host, drop (suc i) addr)

-- An address that begins with `[`; `i` is the place of its last colon.
split_bracketed : Bytes → ℕ → Option ℕ → Option (Bytes × Bytes)
unfolding finish_split
split_bracketed addr i none = none
split_bracketed addr i (some end) =
    if suc end == length addr
    then none
    else if suc end == i
    then finish_split addr (drop 1 (take end addr)) i 1 (suc end)
    else none

split_at_colon : Bytes → Option ℕ → Option (Bytes × Bytes)
unfolding split_bracketed finish_split
split_at_colon addr none = none
split_at_colon [] (some i) = none
split_at_colon (c ∷ cs) (some i) =
    if c == b'['
    then split_bracketed (c ∷ cs) i (index_byte b']' (c ∷ cs))
    else if contains b':' (take i (c ∷ cs))
    then none
    else finish_split (c ∷ cs) (take i (c ∷ cs)) i 0 0

unfoldable pub split_host_port : Bytes → Option (Bytes × Bytes)
unfolding split_at_colon
split_host_port addr = split_at_colon addr (last_index_byte b':' addr)

unfoldable pub join_host_port : Bytes → Bytes → Bytes
join_host_port host port =
    if contains b':' host
    then codes "[" ++ (host ++ (codes "]:" ++ port))
    else host ++ (codes ":" ++ port)
