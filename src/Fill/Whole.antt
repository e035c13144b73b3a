-- ===== src/Fill/Whole.antt =====
-- The loop ends, and success means that the buffer is full.
use r_exasol.Base.{
  ==→eq, Bool, Bool-cases, List, Option, [], arith, false, inl, inr, length, length-append, lt_one,
  lt→ltb, none, pos, refl, some, sub_size, suc, true, zero, ℕ, ℤ, ◌%◌, ◌++◌, ◌+◌, ◌-◌, ◌<◌, ◌==◌,
  ◌^◌, ◌∷◌, ◌≡◌, ◌≤◌,
}
use r_exasol.Socket.{Received, got, lost, stored, count}
use r_exasol.Fill.{next_length, fill_loop, repeating_buffer_fill}

pub next_length-rest : (at len : ℕ) → at ≤ len → len < 2 ^ 31 → next_length at len ≡ pos (len - at)
next_length-rest at len h b =
    let small : sub_size len at % 2 ^ 32 ≡ len - at = omega arith in
    rw (small, lt→ltb (len - at) (2 ^ 31) (omega arith))

count-some : (r : Received) → lt_one (count r) ≡ false → 0 < length (stored r)
count-some (got []) e = cc e
count-some (got (b ∷ bs)) e = omega arith
count-some (lost bs) e = cc e

module _ {T : Type 0} (filler : T → ℤ → Received × T) where
  -- A filler never stores more than it was asked for.
  pub record IsFiller : Type 0 where
    pub fill_le : (t : T) (n : ℕ) → length (stored (filler t (pos n)).0) ≤ n

  -- What holds of the loop's result: it is there, no more is stored than there is room, and all of
  -- the room is filled on success.
  pub record Filled (at len : ℕ) (result : Option (Bool × List ℕ × T)) : Type 0 where
    pub success : Bool
    pub bytes : List ℕ
    pub later : T
    pub stops : result ≡ some (success, bytes, later)
    pub within : at + length bytes ≤ len
    pub whole : success ≡ true → at + length bytes ≡ len

  more-Filled :
      (at len : ℕ) (bs : List ℕ) (rest : Option (Bool × List ℕ × T))
      → Filled (at + length bs) len rest
      → Filled at len
          (elim rest [ none ↦ none | some (success, later, t) ↦ some (success, bs ++ later, t) ])
  more-Filled at len bs rest f =
      let sum = length-append bs f.bytes in
      record {
        success = f.success;
        bytes = bs ++ f.bytes;
        later = f.later;
        stops = rw f.stops;
        within = omega (arith, f.within, sum);
        whole = λ e. omega (arith, f.whole e, sum);
      }

  module _ (ok_filler : IsFiller) where
    fill_loop-Filled :
        (fuel at len : ℕ) (t : T)
        → at ≤ len
        → len < 2 ^ 31
        → len - at < fuel
        → Filled at len (fill_loop filler fuel at len t)
    unfolding fill_loop
    fill_loop-Filled zero at len t h b f = absurd (omega arith)
    fill_loop-Filled (suc fuel) at len t h b f =
        let rest = next_length-rest at len h b in
        let call = filler t (next_length at len) in
        let k : length (stored call.0) ≤ len - at = rw rest (ok_filler.fill_le t (len - at)) in
        elim (Bool-cases (lt_one (count call.0))) [
          | inl e ↦
              rw (e, fill_loop)
                record {
                  success = false;
                  bytes = stored call.0;
                  later = call.1;
                  stops = refl;
                  within = omega arith;
                  whole = λ x. cc x;
                }
          | inr e ↦
              let more = count-some call.0 e in
              elim (Bool-cases (at + length (stored call.0) == len)) [
                | inl full ↦
                    rw (e, full, fill_loop)
                      record {
                        success = true;
                        bytes = stored call.0;
                        later = call.1;
                        stops = refl;
                        within = omega arith;
                        whole = λ _. ==→eq (at + length (stored call.0)) len full;
                      }
                | inr room ↦
                    let later =
                      fill_loop-Filled fuel (at + length (stored call.0)) len call.1 (omega arith) b
                        (omega arith) in
                    rw (e, room, fill_loop)
                      (more-Filled at len (stored call.0)
                        (fill_loop filler fuel (at + length (stored call.0)) len call.1) later)
              ]
        ]

    -- With a filler that stores no more than it was asked for, `repeatingBufferFill` returns for
    -- every buffer whose length fits an `int`. It never stores behind the buffer's end, and it has
    -- filled the whole buffer when it reports success.
    pub repeating_buffer_fill-whole :
        (len : ℕ) (t : T)
        → len < 2 ^ 31
        → (success : Bool) × (bytes : List ℕ) × (later : T) × (repeating_buffer_fill filler len t
            ≡ some (success, bytes, later))
          × (length bytes ≤ len)
          × (success ≡ true → length bytes ≡ len)
    unfolding repeating_buffer_fill
    repeating_buffer_fill-whole len t b =
        let d = fill_loop-Filled (len + 1) 0 len t (omega arith) b (omega arith) in
        (
          d.success,
          d.bytes,
          d.later,
          d.stops,
          omega (arith, d.within),
          λ e. omega (arith, d.whole e),
        )
