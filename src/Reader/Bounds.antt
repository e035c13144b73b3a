-- ===== src/Reader/Bounds.antt =====
-- The bounds of the reader: its read position, and which cells of the chunk are written.
use r_exasol.Base.{
  Bool-cases, Option, Option-cases, Result, arith, err, inl, inr, leb, leb→le, length, lt_one, ltb,
  ltb_false→le, negsuc, none, ok, pos, refl, some, suc, then_run, then_run-holds, zero, ℕ, ℤ, ◌+◌,
  ◌-◌, ◌<◌, ◌==◌, ◌∙◌, ◌≡◌, ◌≤◌,
}
use r_exasol.Socket.{SocketOps, Received, IsBounded, got, lost, stored, count}
use r_exasol.Chunk.{Chunk, max_http_chunk_size}
use r_exasol.Chunk.Memory.{store-above, put_ne}
use r_exasol.Answers.{Thrown}
use r_exasol.Hex.{scan_hex}
use r_exasol.Reader.{
  Reader, Wire, c_string, poke, add_uint, take_over, recv_at, at_line_end, drop_return, read_line,
  read_size, finish, accept, receive, finish_or_receive, next_chunk, after_next, next_over,
  read_next_chunk,
}

-- The read position lies within the received bytes, and these within the buffer.
pub record IsValid (c : Chunk) : Type 0 where
  pub pos_le : c.chunk_pos ≤ c.chunk_len
  pub len_le : c.chunk_len + 2 ≤ max_http_chunk_size

-- No cell behind the buffer's end changed.
abbrev pub InBuffer : Chunk → Chunk → Type 0
InBuffer c c' = (i : ℕ) → max_http_chunk_size ≤ i → c'.chunk_buf i ≡ c.chunk_buf i

-- The counters are as before.
pub record Kept (c c' : Chunk) : Type 0 where
  pub len_same : c'.chunk_len ≡ c.chunk_len
  pub pos_same : c'.chunk_pos ≡ c.chunk_pos
  pub num_same : c'.chunk_num ≡ c.chunk_num
  pub in_buffer : InBuffer c c'

Kept-refl : (c : Chunk) → Kept c c
Kept-refl c = record { len_same = refl; pos_same = refl; num_same = refl; in_buffer = λ i h. refl }

Kept-trans : {c d e : Chunk} → Kept c d → Kept d e → Kept c e
Kept-trans h k = record {
  len_same = k.len_same ∙ h.len_same;
  pos_same = k.pos_same ∙ h.pos_same;
  num_same = k.num_same ∙ h.num_same;
  in_buffer = λ i l. k.in_buffer i l ∙ h.in_buffer i l;
}

poke-Kept : (c : Chunk) (i v : ℕ) → i < max_http_chunk_size → Kept c (poke c i v)
poke-Kept c i v h = record {
  len_same = refl;
  pos_same = refl;
  num_same = refl;
  in_buffer = λ j k. put_ne c.chunk_buf i v j (omega arith);
}

drop_return-Kept : (at : ℕ) (c : Chunk) → at < max_http_chunk_size → Kept c (drop_return at c)
unfolding drop_return
drop_return-Kept at c h = elim (Bool-cases (c.chunk_buf at == b'\r')) [
  | inl t ↦ rw t (poke-Kept c at 0 h)
  | inr t ↦ rw t (Kept-refl c)
]

-- What `read_next_chunk` may do to the chunk, by its result: a positive one is the number of bytes
-- now there to read, and no other changes the counters.
abbrev pub Next : Chunk → ℤ → Chunk → Type 0
Next c (negsuc n) c' = Kept c c'
Next c (pos zero) c' = Kept c c'
Next c (pos (suc n)) c' =
    (c'.chunk_len ≡ suc n) × (c'.chunk_pos ≡ 0) × (suc n + 2 ≤ max_http_chunk_size) × InBuffer c c'

abbrev NextWire : {S : Type 0} → Chunk → Result Thrown ℤ × Wire S → Type 0
NextWire c (ok n, w) = Next c n w.chunk
NextWire c (err e, w) = Kept c w.chunk

module _ {S : Type 0} (io : SocketOps S) (bounded : IsBounded io) where
  recv_at-Kept :
      (at n : ℕ) (w : Wire S)
      → at + n ≤ max_http_chunk_size
      → Kept w.chunk (recv_at io at n w).1.chunk
  unfolding recv_at
  recv_at-Kept at n w h = record {
    len_same = refl;
    pos_same = refl;
    num_same = refl;
    in_buffer = λ i k.
        store-above w.chunk.chunk_buf at (stored (io.recv w.sock n).0) i
          (omega (arith, bounded.recv_le w.sock n));
  }

  read_line-Kept :
      (rounds at : ℕ) (w : Wire S)
      → at + rounds ≤ 20
      → Kept w.chunk (read_line io rounds at w).1.chunk
  unfolding read_line
  read_line-Kept zero at w h = Kept-refl w.chunk
  read_line-Kept (suc rounds) at w h =
      let cleared : Wire S = record w { chunk = poke (poke w.chunk (at + 1) 0) at 0 } in
      let w1 = (recv_at io at 1 cleared).1 in
      let w2 : Wire S = record w1 { chunk = drop_return at w1.chunk } in
      let k0 =
        Kept-trans (poke-Kept w.chunk (at + 1) 0 (omega arith))
          (poke-Kept (poke w.chunk (at + 1) 0) at 0 (omega arith)) in
      let k1 = Kept-trans k0 (recv_at-Kept at 1 cleared (omega arith)) in
      let k2 = Kept-trans k1 (drop_return-Kept at w1.chunk (omega arith)) in
      elim (Bool-cases (lt_one (count (io.recv w.sock 1).0))) [
        | inl t ↦ rw (t, read_line) k1
        | inr t ↦ elim (Bool-cases (at_line_end w2.chunk at)) [
          | inl u ↦ rw (t, u, read_line) k2
          | inr u ↦
              rw (t, u, read_line) (Kept-trans k2 (read_line-Kept rounds (at + 1) w2 (omega arith)))
        ]
      ]

  -- The steps of `read_size` behind its loop.
  read_size-Kept : (w : Wire S) → Kept w.chunk (read_size io w).1.chunk
  unfolding read_size
  read_size-Kept w =
      then_run-holds (λ (v : Wire S). Kept w.chunk v.chunk) (read_line io 20 0 w) _
        (read_line-Kept 20 0 w (omega arith))
        λ at v k. elim (Bool-cases (leb at 19)) [
          | inr t ↦ rw t k
          | inl t ↦
              let k1 = Kept-trans k (poke-Kept v.chunk at 0 (omega (arith, leb→le at 19 t))) in
              let c1 = poke v.chunk at 0 in
              elim (Bool-cases (c1.chunk_buf 0 == 0)) [
                | inl u ↦ rw (t, u) k1
                | inr u ↦ elim (Option-cases (scan_hex (c_string 20 c1.chunk_buf 0))) [
                  | inl e ↦ rw (t, u, e) k1
                  | inr (n, e) ↦ rw (t, u, e) k1
                ]
              ]
        ]

  accept-Next :
      (c : Chunk) (r : Received) (w : Wire S)
      → Kept c w.chunk
      → length (stored r) ≤ max_http_chunk_size
      → NextWire c (accept io r w)
  unfolding accept take_over
  accept-Next c (lost bs) w k h = k
  accept-Next c (got bs) w k h = elim (Bool-cases (ltb (length bs) 3)) [
    | inl t ↦ rw t k
    | inr t ↦
        let long = ltb_false→le (length bs) 3 t in
        let m : ℕ = length bs - 3 in
        let e : length bs - 2 ≡ suc m = omega (arith, long) in
        rw (t, e)
          (
            refl,
            refl,
            omega (arith, long),
            λ i l. put_ne w.chunk.chunk_buf (suc m) 0 i (omega arith) ∙ k.in_buffer i l,
          )
  ]

  receive-Next :
      (c : Chunk) (buflen : ℕ) (w : Wire S) → Kept c w.chunk → NextWire c (receive io buflen w)
  unfolding receive recv_at
  receive-Next c buflen w k = elim (Bool-cases (leb (add_uint buflen 2) max_http_chunk_size)) [
    | inr t ↦ rw t k
    | inl t ↦
        let n = add_uint buflen 2 in
        let small = leb→le n max_http_chunk_size t in
        rw t (
          accept-Next c (io.recv w.sock n).0 (recv_at io 0 n w).1
            (Kept-trans k (recv_at-Kept 0 n w (omega (arith, small))))
            (omega (arith, small, bounded.recv_le w.sock n)))
  ]

  finish_or_receive-Next :
      (c : Chunk) (buflen : ℕ) (w : Wire S)
      → Kept c w.chunk
      → NextWire c (finish_or_receive io buflen w)
  unfolding finish
  finish_or_receive-Next c buflen w k = elim (Bool-cases (buflen == 0)) [
    | inl t ↦ rw t k
    | inr t ↦ rw t (receive-Next c buflen w k)
  ]

  next_chunk-Next : (w : Wire S) → NextWire w.chunk (next_chunk io w)
  unfolding next_chunk
  next_chunk-Next w = after_size (read_size io w) (read_size-Kept w)
    where
      after_size :
          (m : Result Thrown ℕ × Wire S)
          → Kept w.chunk m.1.chunk
          → NextWire w.chunk (then_run m (finish_or_receive io))
      after_size (ok n, v) k = finish_or_receive-Next w.chunk n v k
      after_size (err e, v) k = k

  after_next-Next :
      (c : Chunk) (m : Result Thrown ℤ × Wire S)
      → NextWire c m
      → Next c (after_next io m).0 (after_next io m).1.chunk
  unfolding after_next
  after_next-Next c (ok n, w) h = h
  after_next-Next c (err e, w) h = h

  next_over-Next :
      (o : Option S) (c : Chunk) → Next c (next_over io o c).0 (next_over io o c).1.chunk
  unfolding next_over
  next_over-Next none c = Kept-refl c
  next_over-Next (some s) c =
      after_next-Next c (next_chunk io (record { sock = s; chunk = c }))
        (next_chunk-Next (record { sock = s; chunk = c }))

  -- Whatever a socket delivers that keeps its bounds, `read_next_chunk` writes only inside the buffer. A positive result
  -- is the number of bytes that are then there to read, all of the chunk, and leaves room for the end
  -- of its line; any other result leaves the chunk's counters as they were.
  pub read_next_chunk-Next :
      (r : Reader S) → Next r.chunk (read_next_chunk io r).0 (read_next_chunk io r).1.chunk
  unfolding read_next_chunk
  read_next_chunk-Next r = next_over-Next r.socket r.chunk
