-- ===== src/Writer/Invariant.antt =====
-- The bounds of the writer: how much of the buffer is used, and which cells are written.
use r_exasol.Base.{
  Bool-cases, List, Option, Result, ap, arith, err, false, inl, inr, is_neg, leb, leb_false→lt,
  leb→le, length, minus_one, none, ok, refl, size_mod, some, sub_size, suc, to_size, true, zero, ℕ,
  ℤ, ◌%◌, ◌*◌, ◌+◌, ◌-◌, ◌<◌, ◌∙◌, ◌≡◌, ◌≤◌, ◌⊎◌,
}
use r_exasol.Socket.{SocketOps}
use r_exasol.Chunk.{Memory, Chunk, max_http_chunk_size, slice}
use r_exasol.Chunk.Memory.{store-above, length-slice}
use r_exasol.Answers.{Thrown}
use r_exasol.Writer.{
  Writer, buffer_bytes, fill_up, after_send, send_chunk, write_over, write_next_chunk, write_loop,
  pipe_write,
}

-- The buffered bytes lie within the buffer.
pub record IsValid (c : Chunk) : Type 0 where
  pub len_le : c.chunk_len ≤ max_http_chunk_size

-- No cell behind the buffer's end changed.
abbrev pub InBuffer : Chunk → Chunk → Type 0
InBuffer c c' = (i : ℕ) → max_http_chunk_size ≤ i → c'.chunk_buf i ≡ c.chunk_buf i

pub buffer_bytes-IsValid :
    (c : Chunk) (bs : List ℕ)
    → c.chunk_len + length bs ≤ max_http_chunk_size
    → IsValid (buffer_bytes c bs)
      × InBuffer c (buffer_bytes c bs)
      × ((buffer_bytes c bs).chunk_len ≡ c.chunk_len + length bs)
unfolding buffer_bytes
buffer_bytes-IsValid c bs h =
    (omega arith, λ i p. store-above c.chunk_buf c.chunk_len bs i (omega arith), omega arith)

-- What a round of the network does to the chunk: it leaves the buffer as it was, and empties it
-- exactly if it returns no error.
abbrev pub Round : {S : Type 0} → Chunk → ℤ × Writer S → Type 0
Round c (r, w') =
    (w'.chunk.chunk_buf ≡ c.chunk_buf)
    × (((is_neg r ≡ true) × (w'.chunk ≡ c)) ⊎ ((is_neg r ≡ false) × (w'.chunk.chunk_len ≡ 0)))

module _ {S : Type 0} (io : SocketOps S) where
  after_send-Round : (c : Chunk) (t : Result Thrown (Unit {0}) × S) → Round c (after_send io c t)
  unfolding after_send
  after_send-Round c (ok _, s) = (refl, inr (refl, refl))
  after_send-Round c (err _, s) = (refl, inl (refl, refl))

  write_over-Round : (o : Option S) (c : Chunk) → Round c (write_over io o c)
  unfolding write_over
  write_over-Round none c = (refl, inl (refl, refl))
  write_over-Round (some s) c = after_send-Round c (send_chunk io c s)

  pub write_next_chunk-Round : (w : Writer S) → Round w.chunk (write_next_chunk io w)
  unfolding write_next_chunk
  write_next_chunk-Round w = write_over-Round w.socket w.chunk

  pub fill_up-IsValid :
      (src : Memory) (at n : ℕ) (c : Chunk)
      → c.chunk_len + n ≤ max_http_chunk_size
      → IsValid (fill_up src at n c)
        × InBuffer c (fill_up src at n c)
        × ((fill_up src at n c).chunk_len ≡ c.chunk_len + n)
  unfolding fill_up
  fill_up-IsValid src at zero c h = (omega arith, λ i p. refl, omega arith)
  fill_up-IsValid src at (suc n) c h =
      ground (arith, length-slice src at (suc n), buffer_bytes-IsValid c (slice src at (suc n)))

  -- What the loop has done when it stops.
  record Wrote (c : Chunk) (len : ℕ) (out : Option (ℕ × Writer S)) : Type 0 where
    result : ℕ
    writer : Writer S
    stops : out ≡ some (result, writer)
    valid : IsValid writer.chunk
    in_buffer : InBuffer c writer.chunk
    bound : (result ≤ len) ⊎ (result ≡ to_size minus_one)

  Wrote-more :
      (c d : Chunk) (len rest : ℕ) (out : Option (ℕ × Writer S))
      → InBuffer c d
      → rest ≤ len
      → Wrote d rest out
      → Wrote c len out
  Wrote-more c d len rest out k h v = record {
    result = v.result;
    writer = v.writer;
    stops = v.stops;
    valid = v.valid;
    in_buffer = λ i p. v.in_buffer i p ∙ k i p;
    bound = grind (arith, v.bound);
  }

  -- A round that fails ends the loop, and one that succeeds leaves the rest to `later`.
  Round-Wrote :
      (c : Chunk) (len : ℕ) (out : ℤ × Writer S) (later : Option (ℕ × Writer S))
      → IsValid c
      → Round c out
      → (out.1.chunk.chunk_len ≡ 0 → Wrote out.1.chunk len later)
      → Wrote c len (elim (is_neg out.0) [ true ↦ some (to_size minus_one, out.1) | false ↦ later ])
  Round-Wrote c len (r, w) later v (b, inl (e, same)) k = rw e (record {
    result = to_size minus_one;
    writer = w;
    stops = refl;
    valid = rw same v;
    in_buffer = λ i p. ap (λ m. m i) b;
    bound = inr refl;
  })
  Round-Wrote c len (r, w) later v (b, inr (e, empty)) k =
      rw e (Wrote-more c w.chunk len len later (λ i p. ap (λ m. m i) b) (omega arith) (k empty))

  write_loop-Wrote :
      (fuel : ℕ) (src : Memory) (at cur_rest len : ℕ) (w : Writer S)
      → w.chunk.chunk_len + cur_rest ≡ max_http_chunk_size
      → (len + 1 < fuel) ⊎ ((len < fuel) × (0 < cur_rest))
      → Wrote w.chunk len (write_loop io fuel src at cur_rest len w)
  unfolding write_loop
  write_loop-Wrote zero src at cur_rest len w e h = absurd (omega arith)
  write_loop-Wrote (suc fuel) src at cur_rest len w e h = elim (Bool-cases (leb len cur_rest)) [
    | inl t ↦
        let fits =
          buffer_bytes-IsValid w.chunk (slice src at len)
            (omega (arith, length-slice src at len, leb→le len cur_rest t)) in
        rw (t, write_loop)
          (record {
            result = len;
            writer = record w { chunk = buffer_bytes w.chunk (slice src at len) };
            stops = refl;
            valid = fits.0;
            in_buffer = fits.1;
            bound = inl (omega arith);
          })
    | inr t ↦
        let filled = fill_up-IsValid src at cur_rest w.chunk (omega arith) in
        let w1 : Writer S = record w { chunk = fill_up src at cur_rest w.chunk } in
        let next = write_next_chunk io w1 in
        rw (t, write_loop)
          (Wrote-more w.chunk w1.chunk len (len - cur_rest) _ filled.1 (omega arith) (
            Round-Wrote w1.chunk (len - cur_rest) next _ filled.0 (write_next_chunk-Round w1)
              λ empty.
                write_loop-Wrote fuel src (at + cur_rest)
                  (sub_size max_http_chunk_size next.1.chunk.chunk_len) (len - cur_rest) next.1
                  (omega arith) (grind (arith, leb_false→lt len cur_rest t))))
  ]

  -- `pipe_write` returns for every socket, where the buffered bytes lie within the buffer: its loop
  -- ends within its fuel. The buffered bytes stay
  -- within the buffer and no cell behind it is written. The result is at most the number of bytes
  -- asked for, or `(size_t)-1`.
  pub pipe_write-IsValid :
      (src : Memory) (size nitems : ℕ) (w : Writer S)
      → IsValid w.chunk
      → (r : ℕ) × (w' : Writer S) × (pipe_write io src size nitems w ≡ some (r, w'))
        × IsValid w'.chunk
        × InBuffer w.chunk w'.chunk
        × ((r ≤ size * nitems % size_mod) ⊎ (r ≡ to_size minus_one))
  unfolding pipe_write
  pipe_write-IsValid src size nitems w v =
      let len = size * nitems % size_mod in
      let done =
        write_loop-Wrote (len + 2) src 0 (sub_size max_http_chunk_size w.chunk.chunk_len) len w
          (omega arith) (inl (omega arith)) in
      (done.result, done.writer, done.stops, done.valid, done.in_buffer, done.bound)
