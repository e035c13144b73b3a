-- ===== src/Fill/Keeps.antt =====
-- What every call of the filler keeps, the loop keeps.
use r_exasol.Base.{
  Bool, Bool-cases, List, Option, inl, inr, length, lt_one, none, some, suc, zero, ℕ, ℤ, ◌++◌, ◌+◌,
  ◌==◌,
}
use r_exasol.Socket.{Received, stored, count}
use r_exasol.Fill.{next_length, fill_loop, repeating_buffer_fill}

module _ {T : Type 0} (filler : T → ℤ → Received × T) (P : T → Type 0)
    (keeps : (t : T) (n : ℤ) → P t → P (filler t n).1) where
  -- It holds of the state behind a result, if there is one.
  abbrev pub After : Option (Bool × List ℕ × T) → Type 0
  After none = Unit {0}
  After (some (success, bytes, t)) = P t

  After-later :
      (bs : List ℕ) (rest : Option (Bool × List ℕ × T))
      → After rest
      → After
          (elim rest [ none ↦ none | some (success, later, t) ↦ some (success, bs ++ later, t) ])
  After-later bs none h = tt
  After-later bs (some (success, later, t)) h = h

  fill_loop-After : (fuel at len : ℕ) (t : T) → P t → After (fill_loop filler fuel at len t)
  unfolding fill_loop
  fill_loop-After zero at len t h = tt
  fill_loop-After (suc fuel) at len t h =
      let (r, t1) = filler t (next_length at len) in
      let h1 : P (filler t (next_length at len)).1 = keeps t (next_length at len) h in
      elim (Bool-cases (lt_one (count (filler t (next_length at len)).0))) [
        | inl e ↦ rw (e, fill_loop) h1
        | inr e ↦
            elim (Bool-cases (at + length (stored (filler t (next_length at len)).0) == len)) [
              | inl full ↦ rw (e, full, fill_loop) h1
              | inr room ↦
                  let later =
                    fill_loop-After fuel (at + length (stored (filler t (next_length at len)).0))
                      len (filler t (next_length at len)).1 h1 in
                  rw (e, room, fill_loop)
                    (After-later (stored (filler t (next_length at len)).0)
                      (fill_loop filler fuel
                        (at + length (stored (filler t (next_length at len)).0)) len
                        (filler t (next_length at len)).1)
                      later)
            ]
      ]

  pub repeating_buffer_fill-After :
      (len : ℕ) (t : T) → P t → After (repeating_buffer_fill filler len t)
  unfolding repeating_buffer_fill
  repeating_buffer_fill-After len t h = fill_loop-After (len + 1) 0 len t h
