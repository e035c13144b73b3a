-- ===== src/Hex.antt =====
-- `sscanf(text, "%x", &n)` for an `unsigned int`, as `HttpChunkReader::read_next_chunk` uses it on
-- the line with a chunk's size: spaces, a sign and `0x` may stand before the digits, the number is
-- read as an `unsigned long` that saturates, and its low 32 bits are kept.
pub mod Digits
use r_exasol.Base.{
  Bool, List, Option, [], false, if◌then◌else◌, leb, none, size_mod, some, true, ℕ, ◌%◌, ◌&&◌, ◌*◌,
  ◌+◌, ◌-◌, ◌==◌, ◌^◌, ◌||◌, ◌∷◌,
}

abbrev in_range : ℕ → ℕ → ℕ → Bool
in_range lo hi c = leb lo c && leb c hi

unfoldable pub digit_value : ℕ → Option ℕ
digit_value c =
    if in_range b'0' b'9' c
    then some (c - b'0')
    else if in_range b'a' b'f' c
    then some (c - b'a' + 10)
    else if in_range b'A' b'F' c
    then some (c - b'A' + 10)
    else none

-- The number that the digits continue, up to the first other character.
unfoldable pub scan_digits : ℕ → List ℕ → ℕ
scan_digits n [] = n
scan_digits n (c ∷ cs) = elim (digit_value c) [ none ↦ n | some d ↦ scan_digits (n * 16 + d) cs ]

unfoldable pub to_uint : Bool → ℕ → ℕ
to_uint negative n =
    if leb size_mod n then 2 ^ 32 - 1 else if negative then (size_mod - n) % 2 ^ 32 else n % 2 ^ 32

unfoldable pub scan_number : Bool → List ℕ → Option ℕ
scan_number negative [] = none
scan_number negative (c ∷ cs) = elim (digit_value c) [
  | none ↦ none
  | some d ↦ some (to_uint negative (scan_digits d cs))
]

unfoldable pub strip_0x : List ℕ → List ℕ
strip_0x [] = []
strip_0x (a ∷ []) = a ∷ []
strip_0x (a ∷ b ∷ cs) = if a == b'0' && (b == b'x' || b == b'X') then cs else a ∷ b ∷ cs

unfoldable pub scan_signed : List ℕ → Option ℕ
scan_signed [] = none
scan_signed (c ∷ cs) =
    if c == b'-'
    then scan_number true (strip_0x cs)
    else if c == b'+'
    then scan_number false (strip_0x cs)
    else scan_number false (strip_0x (c ∷ cs))

abbrev is_space : ℕ → Bool
is_space c = c == b' ' || in_range 9 13 c

unfoldable pub scan_hex : List ℕ → Option ℕ
scan_hex [] = none
scan_hex (c ∷ cs) = elim (is_space c) [ true ↦ scan_hex cs | false ↦ scan_signed (c ∷ cs) ]
