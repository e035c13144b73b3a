-- ===== src/Reader/Loop.antt =====
-- The loop of `read_next`: it ends, and stays within the client's buffer and the chunk's.
use r_exasol.Base.{
  Bool-cases, Option, add_size, arith, false, if◌then◌else◌, inl, inr, is_neg, leb, leb_false→lt,
  leb→le, le→ltb_false, lt_one, ltb, ltb_false→le, minus_one, negsuc, pos, refl, size_mod, some,
  sub_size, suc, zero, ℕ, ℤ, ◌%◌, ◌*◌, ◌+◌, ◌-◌, ◌<◌, ◌∙◌, ◌≡◌, ◌≤◌, ◌⊎◌,
}
use r_exasol.Socket.{SocketOps, IsBounded}
use r_exasol.Chunk.{Memory, Chunk, store, slice}
use r_exasol.Chunk.Memory.{store-above, length-slice}
use r_exasol.Reader.{
  Reader, read_next_chunk, is_zero, read_loop, read_next, items, pipe_read, next_char, fgetc,
}
use r_exasol.Reader.Bounds.{IsValid, InBuffer, Kept, Next, read_next_chunk-Next}

pub Kept-IsValid : {c c' : Chunk} → Kept c c' → IsValid c → IsValid c'
Kept-IsValid k v = record {
  pos_le = omega (arith, k.len_same, k.pos_same, v.pos_le);
  len_le = omega (arith, k.len_same, v.len_le);
}

-- A chunk stays valid over `read_next_chunk`, and no cell behind its buffer is written.
pub Next-IsValid :
    (c : Chunk) (n : ℤ) (c' : Chunk) → Next c n c' → IsValid c → IsValid c' × InBuffer c c'
Next-IsValid c (negsuc n) c' k v = (Kept-IsValid k v, k.in_buffer)
Next-IsValid c (pos zero) c' k v = (Kept-IsValid k v, k.in_buffer)
Next-IsValid c (pos (suc n)) c' (len, at, fits, k) v =
    (record { pos_le = omega (arith, len, at); len_le = omega (arith, len, fits) }, k)

-- What is there to read after a result that is neither 0 nor negative.
pub Next-fresh :
    (c : Chunk) (n : ℤ) (c' : Chunk)
    → Next c n c'
    → is_zero n ≡ false
    → is_neg n ≡ false
    → (c'.chunk_pos ≡ 0) × (0 < c'.chunk_len)
Next-fresh c (negsuc n) c' k z g = cc
Next-fresh c (pos zero) c' k z g = cc
Next-fresh c (pos (suc n)) c' (len, at, fits, k) z g = (at, omega (arith, len))

module _ {S : Type 0} (io : SocketOps S) (bounded : IsBounded io) where
  -- What the loop has done when it stops: `at` bytes were copied before.
  pub record Read (c : Chunk) (dest : Memory) (at len : ℕ) (out : Option (ℤ × Memory × Reader S))
      : Type 0 where
    pub result : ℤ
    pub buffer : Memory
    pub reader : Reader S
    pub stops : out ≡ some (result, buffer, reader)
    pub valid : IsValid reader.chunk
    pub in_buffer : InBuffer c reader.chunk
    pub in_dest : (i : ℕ) → at + len ≤ i → buffer i ≡ dest i
    pub bound : (result ≡ minus_one) ⊎ ((n : ℕ) × (result ≡ pos n) × (n ≤ at + len))

  Read-later :
      {c c' : Chunk} {dest dest' : Memory} {at n len : ℕ} {out : Option (ℤ × Memory × Reader S)}
      → InBuffer c c'
      → ((i : ℕ) → at + len ≤ i → dest' i ≡ dest i)
      → n ≤ len
      → Read c' dest' (at + n) (len - n) out
      → Read c dest at len out
  Read-later {at = at} {n = n} {len = len} k d h v =
      let sum : at + n + (len - n) ≡ at + len = omega arith in
      record {
        result = v.result;
        buffer = v.buffer;
        reader = v.reader;
        stops = v.stops;
        valid = v.valid;
        in_buffer = λ i l. v.in_buffer i l ∙ k i l;
        in_dest = λ i l. v.in_dest i (rw sum l) ∙ d i l;
        bound = rw sum at v.bound;
      }

  read_loop-Read :
      (fuel : ℕ) (dest : Memory) (at rest_chunk len : ℕ) (r : Reader S)
      → IsValid r.chunk
      → r.chunk.chunk_pos + rest_chunk ≡ r.chunk.chunk_len
      → (len + 1 < fuel) ⊎ ((len < fuel) × (0 < rest_chunk))
      → Read r.chunk dest at len (read_loop io fuel dest at rest_chunk len r)
  unfolding read_loop
  read_loop-Read zero dest at rest_chunk len r v e h = absurd (omega arith)
  read_loop-Read (suc fuel) dest at rest_chunk len r v e h =
      elim (Bool-cases (leb len rest_chunk)) [
        | inl t ↦
            rw (t, read_loop)
              (record {
                result = pos (at + len);
                buffer = store dest at (slice r.chunk.chunk_buf r.chunk.chunk_pos len);
                reader = record r {
                  chunk = record r.chunk { chunk_pos = add_size r.chunk.chunk_pos len };
                };
                stops = refl;
                valid = record {
                  pos_le = omega (arith, leb→le len rest_chunk t, v.len_le);
                  len_le = v.len_le;
                };
                in_buffer = λ i l. refl;
                in_dest = λ i l.
                    store-above dest at (slice r.chunk.chunk_buf r.chunk.chunk_pos len) i
                      (omega (arith, length-slice r.chunk.chunk_buf r.chunk.chunk_pos len));
                bound = inr (at + len, refl, omega arith);
              })
        | inr t ↦
            let piece = slice r.chunk.chunk_buf r.chunk.chunk_pos rest_chunk in
            let dest' = store dest at piece in
            let next = read_next_chunk-Next io bounded r in
            let n = (read_next_chunk io r).0 in
            let r' = (read_next_chunk io r).1 in
            let less = leb_false→lt len rest_chunk t in
            let (valid, kept) = Next-IsValid r.chunk n r'.chunk next v in
            let outside = λ (i : ℕ) (l : at + len ≤ i).
              store-above dest at piece i
                (omega (arith, length-slice r.chunk.chunk_buf r.chunk.chunk_pos rest_chunk)) in
            elim (Bool-cases (is_zero n)) [
              | inl u ↦
                  rw (t, u, read_loop)
                    (record {
                      result = pos (at + rest_chunk);
                      buffer = dest';
                      reader = r';
                      stops = refl;
                      valid = valid;
                      in_buffer = kept;
                      in_dest = outside;
                      bound = inr (at + rest_chunk, refl, omega arith);
                    })
              | inr u ↦ elim (Bool-cases (is_neg n)) [
                | inl g ↦
                    rw (t, u, g, read_loop)
                      (record {
                        result = minus_one;
                        buffer = dest';
                        reader = r';
                        stops = refl;
                        valid = valid;
                        in_buffer = kept;
                        in_dest = outside;
                        bound = inl refl;
                      })
                | inr g ↦
                    let (start, more) = Next-fresh r.chunk n r'.chunk next u g in
                    rw (t, u, g, read_loop)
                      (Read-later kept outside (omega arith) (
                        read_loop-Read fuel dest' (at + rest_chunk) r'.chunk.chunk_len
                          (len - rest_chunk) r' valid (omega arith) (inr (omega arith, more))))
              ]
            ]
      ]

  -- If the read position lies within the received bytes, `pipe_read` returns for every socket that
  -- keeps its bounds: its loop ends within its fuel. It
  -- writes at most the `size * nitems` bytes of the client's buffer and nothing behind the chunk's,
  -- and keeps the read position within the received bytes.
  pub pipe_read-IsValid :
      (dest : Memory) (size nitems : ℕ) (r : Reader S)
      → IsValid r.chunk
      → (result : ℕ) × (dest' : Memory) × (r' : Reader S) × (pipe_read io dest size nitems r
          ≡ some (result, dest', r'))
        × IsValid r'.chunk
        × InBuffer r.chunk r'.chunk
        × ((i : ℕ) → size * nitems % size_mod ≤ i → dest' i ≡ dest i)
  unfolding pipe_read read_next
  pipe_read-IsValid dest size nitems r v =
      let len = size * nitems % size_mod in
      let rest = sub_size r.chunk.chunk_len r.chunk.chunk_pos in
      let done =
        read_loop-Read (len + 2) dest 0 rest len r v (omega (arith, v.pos_le, v.len_le))
          (inl (omega arith)) in
      (
        items size done.result,
        done.buffer,
        done.reader,
        rw (done.stops, pipe_read, read_next),
        done.valid,
        done.in_buffer,
        (λ i h. done.in_dest i (omega arith)),
      )

  next_char-IsValid :
      (r : Reader S)
      → IsValid r.chunk
      → r.chunk.chunk_pos < r.chunk.chunk_len
      → IsValid (next_char r).1.chunk × InBuffer r.chunk (next_char r).1.chunk
  unfolding next_char
  next_char-IsValid r v h =
      (record { pos_le = omega (arith, v.len_le); len_le = v.len_le }, λ i l. refl)

  refill-IsValid :
      (c : Chunk) (n : ℤ) (r : Reader S)
      → Next c n r.chunk
      → IsValid c
      → let r' = (if lt_one n then (minus_one, r) else next_char r).1 in
        IsValid r'.chunk × InBuffer c r'.chunk
  refill-IsValid c (negsuc n) r k v = (Kept-IsValid k v, k.in_buffer)
  refill-IsValid c (pos zero) r k v = (Kept-IsValid k v, k.in_buffer)
  refill-IsValid c (pos (suc n)) r k v =
      let (now, same) = Next-IsValid c (pos (suc n)) r.chunk k v in
      let (valid, there) = next_char-IsValid r now (omega (arith, k.0, k.1)) in
      rw (le→ltb_false (suc n) 1 (omega arith)) (valid, λ i l. there i l ∙ same i l)

  -- For every socket that keeps its bounds, `fgetc` keeps the read position within the received
  -- bytes, if it lies there, and writes nothing behind the buffer.
  pub fgetc-IsValid :
      (r : Reader S)
      → IsValid r.chunk
      → IsValid (fgetc io r).1.chunk × InBuffer r.chunk (fgetc io r).1.chunk
  unfolding fgetc
  fgetc-IsValid r v = elim (Bool-cases (ltb (sub_size r.chunk.chunk_len r.chunk.chunk_pos) 1)) [
    | inl t ↦ rw t (
        refill-IsValid r.chunk (read_next_chunk io r).0 (read_next_chunk io r).1
          (read_next_chunk-Next io bounded r) v)
    | inr t ↦ rw t (
        next_char-IsValid r v (
          omega (
            arith,
            ltb_false→le (sub_size r.chunk.chunk_len r.chunk.chunk_pos) 1 t,
            v.pos_le,
            v.len_le,
          )))
  ]
