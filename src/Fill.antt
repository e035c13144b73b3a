-- ===== src/Fill.antt =====
-- `repeatingBufferFill` (src/r_exasol/algorithm/repeating_buffer_fill.h), which calls a filler until
-- a buffer is full. The filler works on a state of its own; it gets the length of the rest as an
-- `int` and stores bytes at the place where the rest begins.
pub mod Whole
pub mod Packets
pub mod Keeps
use r_exasol.Base.{
  Bool, List, Option, false, length, lt_one, none, some, sub_size, suc, to_int, true, zero, ℕ, ℤ,
  ◌++◌, ◌+◌, ◌==◌,
}
use r_exasol.Socket.{Received, stored, count}

-- `std::distance(first, last)` as an `int`, where `first` has moved by `at` in a buffer of `len`.
abbrev pub next_length : ℕ → ℕ → ℤ
next_length at len = to_int (sub_size len at)

module _ {T : Type 0} (filler : T → ℤ → Received × T) where
  -- The loop; `none` means that the fuel ran out. The result is whether the last call of the filler
  -- succeeded, and what has been stored from `at` on.
  unfoldable pub fill_loop : ℕ → ℕ → ℕ → T → Option (Bool × List ℕ × T)
  fill_loop zero at len t = none
  fill_loop (suc fuel) at len t =
      let (r, t') = filler t (next_length at len) in
      elim (lt_one (count r)) [
        | true ↦ some (false, stored r, t')
        | false ↦ elim (at + length (stored r) == len) [
          | true ↦ some (true, stored r, t')
          | false ↦ elim (fill_loop fuel (at + length (stored r)) len t') [
            | none ↦ none
            | some (success, bs, t'') ↦ some (success, stored r ++ bs, t'')
          ]
        ]
      ]

  -- Each call but the last stores a byte.
  unfoldable pub repeating_buffer_fill : ℕ → T → Option (Bool × List ℕ × T)
  unfolding fill_loop
  repeating_buffer_fill len t = fill_loop (len + 1) 0 len t
