-- ===== src/Hex/Digits.antt =====
-- A line of hexadecimal digits is read as its number.
use r_exasol.Base.{
  All, List, [], ap, arith, false, refl, some, sym, ℕ, ◌<◌, ◌^◌, ◌∙◌, ◌∷◌, ◌≡◌, ◌≢◌, ◌≤◌, ◌⊎◌,
}
use r_exasol.Hex.{digit_value, scan_digits, to_uint, scan_number, strip_0x, scan_signed, scan_hex}

-- A hexadecimal digit in ASCII, of either case.
abbrev pub IsDigit : ℕ → Type 0
IsDigit c = (d : ℕ) × (digit_value c ≡ some d)

-- The number that a text of digits stands for.
abbrev pub hex_number : List ℕ → ℕ
hex_number cs = scan_digits 0 cs

-- The characters that are no digits.
pub IsDigit-range :
    (c : ℕ)
    → IsDigit c
    → (b'0' ≤ c) × (c ≤ b'f') × ((c ≤ b'9') ⊎ (b'A' ≤ c)) × (c ≢ b'x') × (c ≢ b'X')
unfolding digit_value
IsDigit-range c (d, e) = ground arith

pub to_uint-small : (n : ℕ) → n < 2 ^ 32 → to_uint false n ≡ n
unfolding to_uint
to_uint-small n h = ground arith

hex_number-cons :
    (c d : ℕ) (cs : List ℕ) → digit_value c ≡ some d → hex_number (c ∷ cs) ≡ scan_digits d cs
unfolding scan_digits
hex_number-cons c d cs e = rw (e, scan_digits) (ap (λ k. scan_digits k cs) (omega arith))

scan_number-digits :
    (c : ℕ) (cs : List ℕ)
    → IsDigit c
    → hex_number (c ∷ cs) < 2 ^ 32
    → scan_number false (c ∷ cs) ≡ some (hex_number (c ∷ cs))
unfolding scan_number
scan_number-digits c cs (d, e) h =
    let first = hex_number-cons c d cs e in
    rw (e, scan_number) (ap some (to_uint-small (scan_digits d cs) (rw first at h) ∙ sym first))

-- A line that begins with a digit has neither space nor sign.
scan_hex-first :
    (c : ℕ) (cs : List ℕ) → IsDigit c → scan_hex (c ∷ cs) ≡ scan_number false (strip_0x (c ∷ cs))
unfolding scan_hex scan_signed
scan_hex-first c cs h = ground (arith, IsDigit-range c h)

strip_0x-digits : (cs : List ℕ) → All IsDigit cs → strip_0x cs ≡ cs
unfolding strip_0x
strip_0x-digits [] h = refl
strip_0x-digits (a ∷ []) h = refl
strip_0x-digits (a ∷ b ∷ cs) h = ground (arith, IsDigit-range b h.1.0)

-- `sscanf` reads a line of digits, which is not empty, as their number, if it is below 2 ^ 32.
pub scan_hex-digits :
    (cs : List ℕ)
    → cs ≢ []
    → All IsDigit cs
    → hex_number cs < 2 ^ 32
    → scan_hex cs ≡ some (hex_number cs)
scan_hex-digits [] ne h b = absurd (ne refl)
scan_hex-digits (c ∷ cs) ne h b =
    scan_hex-first c cs h.0
    ∙ ap (scan_number false) (strip_0x-digits (c ∷ cs) h)
    ∙ scan_number-digits c cs h.0 b
