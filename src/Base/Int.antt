-- ===== src/Base/Int.antt =====
-- C's signed results, and the conversions between `ssize_t`, `size_t`, `int` and `char`.
use Prim.Native.Nat.{ℕ, ◌+◌, ◌-◌, ◌%◌, ◌^◌}
use mathlib.Core.Bool.{Bool, true, false}
use r_exasol.Base.Tests.{ltb, if◌then◌else◌}

-- `negsuc n` is -(n + 1).
pub data ℤ : Type 0 where
  pos : ℕ → ℤ
  negsuc : ℕ → ℤ

abbrev pub minus_one : ℤ
minus_one = negsuc 0

abbrev pub is_neg : ℤ → Bool
is_neg (pos n) = false
is_neg (negsuc n) = true

-- `x < 1` and `x <= 0`
abbrev pub lt_one : ℤ → Bool
lt_one (pos n) = ltb n 1
lt_one (negsuc n) = true

abbrev pub size_mod : ℕ
size_mod = 2 ^ 64

-- A signed value converted to `size_t`.
abbrev pub to_size : ℤ → ℕ
to_size (pos n) = n % size_mod
to_size (negsuc n) = (size_mod - 1 - n % size_mod) % size_mod

-- The low bits of a number read as a two's complement `int`.
abbrev pub to_int : ℕ → ℤ
to_int n = let r = n % 2 ^ 32 in if ltb r (2 ^ 31) then pos r else negsuc (2 ^ 32 - 1 - r)

-- A byte held in a `char`, which is signed, converted to `int`.
abbrev pub char_to_int : ℕ → ℤ
char_to_int b = if ltb b 128 then pos b else negsuc (255 - b)

-- `size_t` arithmetic
abbrev pub add_size : ℕ → ℕ → ℕ
add_size a b = (a + b) % size_mod

abbrev pub sub_size : ℕ → ℕ → ℕ
sub_size a b = (a + size_mod - b) % size_mod
