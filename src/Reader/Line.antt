-- ===== src/Reader/Line.antt =====
-- How the reader takes the line with a chunk's size from the stream.
use r_exasol.Base.{
  All, Bool-cases, List, [], ap, ap₂, arith, drop, false, get_or, if◌then◌else◌, inl, inr, length,
  lt_one, ok, refl, suc, true, zero, ℕ, ◌++◌, ◌+◌, ◌<◌, ◌==◌, ◌∙◌, ◌∷◌, ◌≡◌, ◌≤◌,
}
use r_exasol.Socket.{SocketOps, Streams, stored, count}
use r_exasol.Socket.Stream.{recv_byte}
use r_exasol.Chunk.{Memory, Chunk, store, slice}
use r_exasol.Chunk.Memory.{put_self, put_ne, store-below}
use r_exasol.Hex.Digits.{IsDigit, IsDigit-range}
use r_exasol.Reader.{Wire, c_string, poke, recv_at, at_line_end, drop_return, read_line}

abbrev pub line_end : List ℕ
line_end = b'\r' ∷ b'\n' ∷ []

-- Two chunks that differ only in their buffers, and these only from address `at` on.
pub record AgreesBelow (at : ℕ) (c c' : Chunk) : Type 0 where
  pub len_same : c'.chunk_len ≡ c.chunk_len
  pub pos_same : c'.chunk_pos ≡ c.chunk_pos
  pub num_same : c'.chunk_num ≡ c.chunk_num
  pub below : (i : ℕ) → i < at → c'.chunk_buf i ≡ c.chunk_buf i

pub AgreesBelow-trans :
    {at : ℕ} {c d e : Chunk} (to : ℕ)
    → at ≤ to
    → AgreesBelow at c d
    → AgreesBelow to d e
    → AgreesBelow at c e
AgreesBelow-trans to h k l = record {
  len_same = l.len_same ∙ k.len_same;
  pos_same = l.pos_same ∙ k.pos_same;
  num_same = l.num_same ∙ k.num_same;
  below = λ i b. l.below i (omega arith) ∙ k.below i b;
}

pub poke-AgreesBelow : (c : Chunk) (at i v : ℕ) → at ≤ i → AgreesBelow at c (poke c i v)
poke-AgreesBelow c at i v h = record {
  len_same = refl;
  pos_same = refl;
  num_same = refl;
  below = λ j b. put_ne c.chunk_buf i v j (omega arith);
}

drop_return-AgreesBelow : (at : ℕ) (c : Chunk) → AgreesBelow at c (drop_return at c)
unfolding drop_return
drop_return-AgreesBelow at c = elim (Bool-cases (c.chunk_buf at == b'\r')) [
  | inl t ↦ rw t (poke-AgreesBelow c at at 0 (omega arith))
  | inr t ↦ rw t (record { len_same = refl; pos_same = refl; num_same = refl; below = λ i b. refl })
]

-- What is left of a byte that the line has brought.
abbrev kept_byte : ℕ → ℕ
kept_byte b = if b == b'\r' then 0 else b

drop_return-at :
    (at b : ℕ) (c : Chunk) → c.chunk_buf at ≡ b → (drop_return at c).chunk_buf at ≡ kept_byte b
unfolding drop_return
drop_return-at at b c e = elim (Bool-cases (b == b'\r')) [
  | inl t ↦ rw (e, t) (put_self c.chunk_buf at 0)
  | inr t ↦ rw (e, t) e
]

stored-here : (m : Memory) (at b : ℕ) → store m at (b ∷ []) at ≡ b
unfolding store
stored-here m at b = put_self m at b

module _ {S : Type 0} (io : SocketOps S) (st : Streams io) where
  -- A round of the loop, over the byte `b`.
  record Round (at b : ℕ) (w w' : Wire S) (rest : List ℕ) : Type 0 where
    step :
        (rounds : ℕ)
        → read_line io (suc rounds) at w ≡ (elim (at_line_end w'.chunk at) [
          | true ↦ (ok at, w')
          | false ↦ read_line io rounds (at + 1) w'
        ])
    agrees : AgreesBelow at w.chunk w'.chunk
    here : w'.chunk.chunk_buf at ≡ kept_byte b
    left : st.pending w'.sock ≡ rest

  after_byte : ℕ → Wire S → Wire S
  after_byte at w =
      let w1 = (recv_at io at 1 (record w { chunk = poke (poke w.chunk (at + 1) 0) at 0 })).1 in
      record w1 { chunk = drop_return at w1.chunk }

  read_line-step :
      (rounds at : ℕ) (w : Wire S)
      → lt_one (count (io.recv w.sock 1).0) ≡ false
      → read_line io (suc rounds) at w ≡ (elim (at_line_end (after_byte at w).chunk at) [
        | true ↦ (ok at, after_byte at w)
        | false ↦ read_line io rounds (at + 1) (after_byte at w)
      ])
  unfolding read_line after_byte
  read_line-step rounds at w t = rw (t, read_line)

  read_line-Round :
      (at b : ℕ) (w : Wire S) (rest : List ℕ)
      → st.pending w.sock ≡ b ∷ rest
      → Round at b w (after_byte at w) rest
  unfolding after_byte recv_at
  read_line-Round at b w rest p =
      let (now, later) = recv_byte io st w.sock b rest p in
      let c0 = poke (poke w.chunk (at + 1) 0) at 0 in
      let c1 : Chunk = record c0 {
        chunk_buf = store c0.chunk_buf at (stored (io.recv w.sock 1).0);
      } in
      let cleared =
        AgreesBelow-trans at (omega arith) (poke-AgreesBelow w.chunk at (at + 1) 0 (omega arith))
          (poke-AgreesBelow (poke w.chunk (at + 1) 0) at at 0 (omega arith)) in
      let stored_below = AgreesBelow-trans at (omega arith) cleared (record {
        len_same = refl;
        pos_same = refl;
        num_same = refl;
        below = λ i h. store-below c0.chunk_buf at (stored (io.recv w.sock 1).0) i h;
      }) in
      record {
        step = λ rounds. read_line-step rounds at w (ap (λ r. lt_one (count r)) now);
        agrees = AgreesBelow-trans at (omega arith) stored_below (drop_return-AgreesBelow at c1);
        here = drop_return-at at b c1 (rw now (stored-here c0.chunk_buf at b));
        left = later;
      }

  goes_on :
      {at b : ℕ} {w w' : Wire S} {rest : List ℕ} (rounds : ℕ)
      → Round at b w w' rest
      → (kept_byte b == b'\n') ≡ false
      → read_line io (suc rounds) at w ≡ read_line io rounds (at + 1) w'
  goes_on rounds r t = r.step rounds ∙ rw (r.here, t)

  breaks :
      {at b : ℕ} {w w' : Wire S} {rest : List ℕ} (rounds : ℕ)
      → Round at b w w' rest
      → (kept_byte b == b'\n') ≡ true
      → read_line io (suc rounds) at w ≡ (ok at, w')
  breaks rounds r t = r.step rounds ∙ rw (r.here, t)

  kept_digit : (d : ℕ) → IsDigit d → (kept_byte d ≡ d) × ((kept_byte d == b'\n') ≡ false)
  kept_digit d h = ground (arith, IsDigit-range d h)

  -- What is known of the line once it has been read: `digits` stand from `at` on.
  pub record Line (at : ℕ) (digits : List ℕ) (w w' : Wire S) (rest : List ℕ) : Type 0 where
    pub agrees : AgreesBelow at w.chunk w'.chunk
    pub shown : slice w'.chunk.chunk_buf at (length digits) ≡ digits
    pub ended : w'.chunk.chunk_buf (at + length digits) ≡ 0
    pub left : st.pending w'.sock ≡ rest

  pub read_line-digits :
      (digits : List ℕ) (rounds at : ℕ) (w : Wire S) (rest : List ℕ)
      → st.pending w.sock ≡ digits ++ (line_end ++ rest)
      → All IsDigit digits
      → length digits + 2 ≤ rounds
      → (w' : Wire S) × (read_line io rounds at w ≡ (ok (at + length digits + 1), w'))
        × Line at digits w w' rest
  unfolding slice
  read_line-digits [] zero at w rest p h f = absurd (omega arith)
  read_line-digits [] (suc zero) at w rest p h f = absurd (omega arith)
  read_line-digits [] (suc (suc rounds)) at w rest p h f =
      let w1 = after_byte at w in
      let w2 = after_byte (at + 1) w1 in
      let r1 = read_line-Round at b'\r' w (b'\n' ∷ rest) p in
      let r2 = read_line-Round (at + 1) b'\n' w1 rest r1.left in
      (
        w2,
        goes_on (suc rounds) r1 refl ∙ breaks rounds r2 refl ∙ ap (λ k. (ok k, w2)) (omega arith),
        record {
          agrees = AgreesBelow-trans (at + 1) (omega arith) r1.agrees r2.agrees;
          shown = refl;
          ended = ap w2.chunk.chunk_buf (omega arith) ∙ r2.agrees.below at (omega arith) ∙ r1.here;
          left = r2.left;
        },
      )
  read_line-digits (d ∷ ds) zero at w rest p h f = absurd (omega arith)
  read_line-digits (d ∷ ds) (suc rounds) at w rest p h f =
      let w1 = after_byte at w in
      let r1 = read_line-Round at d w (ds ++ (line_end ++ rest)) p in
      let (same, no_end) = kept_digit d h.0 in
      let (w2, steps, l) = read_line-digits ds rounds (at + 1) w1 rest r1.left h.1 (omega arith) in
      (
        w2,
        goes_on rounds r1 no_end ∙ steps ∙ ap (λ k. (ok k, w2)) (omega arith),
        record {
          agrees = AgreesBelow-trans (at + 1) (omega arith) r1.agrees l.agrees;
          shown = ap₂ ◌∷◌ (l.agrees.below at (omega arith) ∙ r1.here ∙ same) l.shown;
          ended = ap w2.chunk.chunk_buf (omega arith) ∙ l.ended;
          left = l.left;
        },
      )

  -- The text that `sscanf` sees.
  pub c_string-digits :
      (digits : List ℕ) (n : ℕ) (m : Memory) (at : ℕ)
      → slice m at (length digits) ≡ digits
      → m (at + length digits) ≡ 0
      → All IsDigit digits
      → length digits < n
      → c_string n m at ≡ digits
  unfolding c_string slice
  c_string-digits [] zero m at e z h f = absurd (omega arith)
  c_string-digits [] (suc n) m at e z h f =
      let here : m at ≡ 0 = ap m (omega arith) ∙ z in rw (here, c_string)
  c_string-digits (d ∷ ds) zero m at e z h f = absurd (omega arith)
  c_string-digits (d ∷ ds) (suc n) m at e z h f =
      let here : m at ≡ d = ap (λ l. get_or l 0 0) e in
      let later : slice m (at + 1) (length ds) ≡ ds = ap (drop 1) e in
      let more : (m at == 0) ≡ false = ground (arith, here, IsDigit-range d h.0) in
      rw (more, c_string)
        (ap₂ ◌∷◌ here
          (c_string-digits ds n m (at + 1) later (ap m (omega arith) ∙ z) h.1 (omega arith)))
