-- ===== src/Fill/Packets.antt =====
-- The loop over a filler that hands out a stream in packets, as `SSL_read` does.
use r_exasol.Base.{
  ==_false→ne, ==→eq, Bool, Bool-cases, List, Option, ap, ap₂, arith, drop, drop-drop, false, inl,
  inr, length, length-drop, length-take, le→ltb_false, lt_one, ne→==_false, pos, refl, some, suc,
  take, take-drop, true, zero, ℕ, ℤ, ◌++◌, ◌+◌, ◌-◌, ◌<◌, ◌==◌, ◌^◌, ◌∙◌, ◌≡◌, ◌≤◌,
}
use r_exasol.Socket.{Received, got, stored, count}
use r_exasol.Fill.{next_length, fill_loop, repeating_buffer_fill}
use r_exasol.Fill.Whole.{next_length-rest}

module _ {T : Type 0} (filler : T → ℤ → Received × T) where
  -- The filler stores the next bytes of its stream, at least one while there is one, and fails at
  -- the end. How many it stores is not known.
  pub record Packets : Type 0 where
    pub pending : T → List ℕ
    pub taken : T → ℕ → ℕ
    pub some_taken : (t : T) (n : ℕ) → 0 < n → 0 < length (pending t) → 0 < taken t n
    pub taken_le : (t : T) (n : ℕ) → taken t n ≤ n
    pub taken_there : (t : T) (n : ℕ) → taken t n ≤ length (pending t)
    pub fills :
        (t : T) (n : ℕ)
        → 0 < n
        → 0 < length (pending t)
        → (filler t (pos n)).0 ≡ got (take (taken t n) (pending t))
    pub later :
        (t : T) (n : ℕ)
        → 0 < n
        → 0 < length (pending t)
        → pending (filler t (pos n)).1 ≡ drop (taken t n) (pending t)
    pub ends : (t : T) (n : ℕ) → length (pending t) ≡ 0 → lt_one (count (filler t (pos n)).0) ≡ true

  round_last :
      (fuel at len : ℕ) (t : T)
      → lt_one (count (filler t (next_length at len)).0) ≡ false
      → (at + length (stored (filler t (next_length at len)).0) == len) ≡ true
      → fill_loop filler (suc fuel) at len t
        ≡ some (true, stored (filler t (next_length at len)).0, (filler t (next_length at len)).1)
  unfolding fill_loop
  round_last fuel at len t more full = rw (more, full, fill_loop) refl

  round_more :
      (fuel at len : ℕ) (t : T) (b : Bool) (bs : List ℕ) (t2 : T)
      → lt_one (count (filler t (next_length at len)).0) ≡ false
      → (at + length (stored (filler t (next_length at len)).0) == len) ≡ false
      → fill_loop filler fuel
          (at + length (stored (filler t (next_length at len)).0))
          len
          (filler t (next_length at len)).1
        ≡ some (b, bs, t2)
      → fill_loop filler (suc fuel) at len t
        ≡ some (b, stored (filler t (next_length at len)).0 ++ bs, t2)
  unfolding fill_loop
  round_more fuel at len t b bs t2 more room rest = rw (more, room, fill_loop) (rw rest refl)

  round_lost :
      (fuel at len : ℕ) (t : T)
      → lt_one (count (filler t (next_length at len)).0) ≡ true
      → fill_loop filler (suc fuel) at len t
        ≡ some (false, stored (filler t (next_length at len)).0, (filler t (next_length at len)).1)
  unfolding fill_loop
  round_lost fuel at len t none_left = rw (none_left, fill_loop) refl

  module _ (p : Packets) where
    -- What the loop stores and leaves where the stream has enough.
    pub record Enough (at len : ℕ) (t : T) (result : Option (Bool × List ℕ × T)) : Type 0 where
      pub rest : T
      pub stops : result ≡ some (true, take (len - at) (p.pending t), rest)
      pub left : p.pending rest ≡ drop (len - at) (p.pending t)

    -- The loop fails where the stream has not.
    pub record Short (result : Option (Bool × List ℕ × T)) : Type 0 where
      pub bytes : List ℕ
      pub rest : T
      pub stops : result ≡ some (false, bytes, rest)

    -- What one call stores.
    record Packet (at len : ℕ) (t : T) : Type 0 where
      n : ℕ
      n_eq : n ≡ p.taken t (len - at)
      bytes : stored (filler t (next_length at len)).0 ≡ take n (p.pending t)
      number : length (stored (filler t (next_length at len)).0) ≡ n
      goes_on : lt_one (count (filler t (next_length at len)).0) ≡ false
      left : p.pending (filler t (next_length at len)).1 ≡ drop n (p.pending t)
      positive : 0 < n
      fits : n ≤ len - at
      there : n ≤ length (p.pending t)

    packet :
        (at len : ℕ) (t : T) → at < len → len < 2 ^ 31 → 0 < length (p.pending t) → Packet at len t
    packet at len t h b k =
        let n = p.taken t (len - at) in
        let e = next_length-rest at len (omega arith) b in
        let there = p.taken_there t (len - at) in
        let positive = p.some_taken t (len - at) (omega arith) k in
        let got_now : (filler t (next_length at len)).0 ≡ got (take n (p.pending t)) =
          ap (λ z. (filler t z).0) e ∙ p.fills t (len - at) (omega arith) k in
        let number : length (take n (p.pending t)) ≡ n =
          omega (arith, length-take n (p.pending t)) in
        record {
          n = n;
          n_eq = refl;
          bytes = ap stored got_now;
          number = ap (λ r. length (stored r)) got_now ∙ number;
          goes_on = ap (λ r. lt_one (count r)) got_now ∙ le→ltb_false _ 1 (omega (arith, number));
          left = ap (λ z. p.pending (filler t z).1) e ∙ p.later t (len - at) (omega arith) k;
          positive = positive;
          fits = p.taken_le t (len - at);
          there = there;
        }

    fill_loop-Enough :
        (fuel at len : ℕ) (t : T)
        → at < len
        → len < 2 ^ 31
        → len - at < fuel
        → len - at ≤ length (p.pending t)
        → Enough at len t (fill_loop filler fuel at len t)
    fill_loop-Enough zero at len t h b f k = absurd (omega arith)
    fill_loop-Enough (suc fuel) at len t h b f k =
        let one = packet at len t h b (omega arith) in
        let call = filler t (next_length at len) in
        let size = one.number in
        elim (Bool-cases (at + length (stored call.0) == len)) [
          | inl full ↦
              let whole : one.n ≡ len - at =
                omega (arith, ==→eq (at + length (stored call.0)) len full, size) in
              record {
                rest = call.1;
                stops =
                    round_last fuel at len t one.goes_on full
                    ∙ ap (λ bs. some (true, bs, call.1))
                        (one.bytes ∙ ap (λ i. take i (p.pending t)) whole);
                left = one.left ∙ ap (λ i. drop i (p.pending t)) whole;
              }
          | inr room ↦
              let at' : ℕ = at + length (stored call.0) in
              let ne = ==_false→ne at' len room in
              let len_left : length (p.pending call.1) ≡ length (p.pending t) - one.n =
                ap length one.left ∙ length-drop one.n (p.pending t) in
              let later =
                fill_loop-Enough fuel at' len call.1 (omega (arith, size, one.fits, ne)) b
                  (omega (arith, size, one.positive, one.fits))
                  (omega (arith, size, len_left, one.there, one.fits)) in
              let sum : one.n + (len - at') ≡ len - at = omega (arith, size, one.fits) in
              record {
                rest = later.rest;
                stops =
                    round_more fuel at len t true (take (len - at') (p.pending call.1)) later.rest
                      one.goes_on room later.stops
                    ∙ ap (λ bs. some (true, bs, later.rest))
                        (ap₂ ◌++◌ one.bytes (ap (take (len - at')) one.left)
                          ∙ take-drop one.n (len - at') (p.pending t)
                          ∙ ap (λ i. take i (p.pending t)) sum);
                left =
                    later.left
                    ∙ ap (drop (len - at')) one.left
                    ∙ drop-drop one.n (len - at') (p.pending t)
                    ∙ ap (λ i. drop i (p.pending t)) sum;
              }
        ]

    fill_loop-Short :
        (fuel at len : ℕ) (t : T)
        → at < len
        → len < 2 ^ 31
        → len - at < fuel
        → length (p.pending t) < len - at
        → Short (fill_loop filler fuel at len t)
    fill_loop-Short zero at len t h b f k = absurd (omega arith)
    fill_loop-Short (suc fuel) at len t h b f k =
        let call = filler t (next_length at len) in
        elim (Bool-cases (length (p.pending t) == 0)) [
          | inl empty ↦
              let e = next_length-rest at len (omega arith) b in
              record {
                bytes = stored call.0;
                rest = call.1;
                stops = round_lost fuel at len t (
                    ap (λ z. lt_one (count (filler t z).0)) e
                    ∙ p.ends t (len - at) (==→eq (length (p.pending t)) 0 empty));
              }
          | inr more ↦
              let ne = ==_false→ne (length (p.pending t)) 0 more in
              let one = packet at len t h b (omega arith) in
              let size = one.number in
              let at' : ℕ = at + length (stored call.0) in
              let len_left : length (p.pending call.1) ≡ length (p.pending t) - one.n =
                ap length one.left ∙ length-drop one.n (p.pending t) in
              let room : (at' == len) ≡ false =
                ne→==_false at' len (λ e. omega (arith, e, size, one.there)) in
              let later =
                fill_loop-Short fuel at' len call.1 (omega (arith, size, one.there)) b
                  (omega (arith, size, one.positive, one.fits))
                  (omega (arith, size, len_left, one.there, one.fits)) in
              record {
                bytes = stored call.0 ++ later.bytes;
                rest = later.rest;
                stops =
                    round_more fuel at len t false later.bytes later.rest one.goes_on room
                      later.stops;
              }
        ]

    -- Where the stream has the bytes of a buffer that is not empty and whose length fits an `int`,
    -- however many each call of the filler stores, `repeatingBufferFill` stores exactly the next
    -- bytes, succeeds, and leaves the bytes behind them.
    pub repeating_buffer_fill-Enough :
        (len : ℕ) (t : T)
        → 0 < len
        → len < 2 ^ 31
        → len ≤ length (p.pending t)
        → Enough 0 len t (repeating_buffer_fill filler len t)
    unfolding repeating_buffer_fill
    repeating_buffer_fill-Enough len t h b k =
        fill_loop-Enough (len + 1) 0 len t h b (omega arith) (omega arith)

    -- Where the stream has fewer bytes than such a buffer, `repeatingBufferFill` returns and fails.
    pub repeating_buffer_fill-Short :
        (len : ℕ) (t : T)
        → 0 < len
        → len < 2 ^ 31
        → length (p.pending t) < len
        → Short (repeating_buffer_fill filler len t)
    unfolding repeating_buffer_fill
    repeating_buffer_fill-Short len t h b k =
        fill_loop-Short (len + 1) 0 len t h b (omega arith) (omega arith)
