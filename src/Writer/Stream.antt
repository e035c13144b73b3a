-- ===== src/Writer/Stream.antt =====
-- What an accepting socket gets: the HTTP answer once, then every byte in order.
use r_exasol.Base.{
  Bool-cases, List, Option, [], ap, append-nil, append_assoc, arith, false, inl, inr, leb,
  leb_false→lt, leb→le, lt→ltb, pos, refl, size_mod, some, sub_size, suc, sym, zero, ℕ, ℤ, ◌%◌, ◌*◌,
  ◌++◌, ◌+◌, ◌-◌, ◌<◌, ◌∙◌, ◌≡◌, ◌≢◌, ◌≤◌, ◌⊎◌,
}
use r_exasol.Socket.{SocketOps, Accepts}
use r_exasol.Chunk.{Memory, Chunk, max_http_chunk_size, slice}
use r_exasol.Chunk.Memory.{length-slice, slice-append}
use r_exasol.Writer.{
  Writer, buffer_bytes, fill_up, write_next_chunk, write_loop, pipe_write, pipe_fflush,
}
use r_exasol.Writer.Flush.{
  held_back, emptied, held_back-buffer_bytes, held_back-fill_up, held_back-emptied, flush,
}

module _ {S : Type 0} (io : SocketOps S) (a : Accepts io) where
  -- What the loop has done for the bytes `more` when it stops.
  pub record Sent (s : S) (c : Chunk) (more : List ℕ) (fuel len cur_rest : ℕ)
      (out : Option (ℕ × Writer S)) : Type 0 where
    pub result : ℕ
    pub socket : S
    pub chunk : Chunk
    pub stops : out ≡ some (result, record { socket = some socket; chunk = chunk })
    pub stream : a.sent socket ++ held_back chunk ≡ (a.sent s ++ held_back c) ++ more
    pub valid : chunk.chunk_len ≤ max_http_chunk_size
    pub numbered : chunk.chunk_num ≤ c.chunk_num + fuel
    pub whole : len ≤ cur_rest → result ≡ len
    pub short : cur_rest < len → result + cur_rest ≤ len
    pub filled : 0 < len → 0 < chunk.chunk_len
    pub idle : len ≡ 0 → chunk.chunk_len ≡ c.chunk_len

  last-Sent :
      (fuel : ℕ) (src : Memory) (at cur_rest len : ℕ) (s : S) (c : Chunk)
      → c.chunk_len + cur_rest ≡ max_http_chunk_size
      → len ≤ cur_rest
      → Sent s c
          (slice src at len)
          fuel
          len
          cur_rest
          (some (len, record { socket = some s; chunk = buffer_bytes c (slice src at len) }))
  last-Sent fuel src at cur_rest len s c e h =
      let n = length-slice src at len in
      record {
        result = len;
        socket = s;
        chunk = buffer_bytes c (slice src at len);
        stops = refl;
        stream =
            ap (◌++◌ (a.sent s)) (held_back-buffer_bytes c (slice src at len) (omega (arith, n)))
            ∙ sym (append_assoc (a.sent s) (held_back c) (slice src at len));
        valid = unfold buffer_bytes in omega (arith, n);
        numbered = unfold buffer_bytes in omega arith;
        whole = λ _. refl;
        short = λ k. absurd (omega arith);
        filled = λ k. unfold buffer_bytes in omega (arith, n);
        idle = λ k. unfold buffer_bytes in omega (arith, n);
      }

  regroup :
      (sent0 held piece more : List ℕ)
      → ((sent0 ++ (held ++ piece)) ++ []) ++ more ≡ (sent0 ++ held) ++ (piece ++ more)
  regroup sent0 held piece more = simp (append-nil, append_assoc)

  later-Sent :
      (fuel : ℕ) (src : Memory) (at cur_rest len : ℕ) (s s' : S) (c c' : Chunk)
      (out : Option (ℕ × Writer S))
      → c'.chunk_num ≡ c.chunk_num
      → c.chunk_num + suc fuel < size_mod
      → held_back c' ≡ held_back c ++ slice src at cur_rest
      → a.sent s' ≡ a.sent s ++ held_back c'
      → cur_rest < len
      → Sent s'
          (emptied c')
          (slice src (at + cur_rest) (len - cur_rest))
          fuel
          (len - cur_rest)
          max_http_chunk_size
          out
      → Sent s c (slice src at len) (suc fuel) len cur_rest out
  unfolding emptied
  later-Sent fuel src at cur_rest len s s' c c' out num b held sent_now more v = record {
    result = v.result;
    socket = v.socket;
    chunk = v.chunk;
    stops = v.stops;
    stream =
        v.stream
        ∙ rw (held_back-emptied c' (omega arith), sent_now, held)
            (regroup (a.sent s) (held_back c) (slice src at cur_rest)
                (slice src (at + cur_rest) (len - cur_rest))
              ∙ ap (◌++◌ (a.sent s ++ held_back c)) (
                  sym (slice-append src at cur_rest (len - cur_rest))
                  ∙ ap (slice src at) (omega arith)));
    valid = v.valid;
    numbered = omega (arith, v.numbered);
    whole = λ k. absurd (omega arith);
    short = λ k. grind (arith, v.whole, v.short);
    filled = λ k. v.filled (omega arith);
    idle = λ k. absurd (omega arith);
  }

  write_loop-round :
      (fuel : ℕ) (src : Memory) (at cur_rest len : ℕ) (s : S) (c : Chunk) (n : ℕ) {s' : S}
      {c' : Chunk}
      → leb len cur_rest ≡ false
      → write_next_chunk io (record { socket = some s; chunk = fill_up src at cur_rest c })
        ≡ (pos n, record { socket = some s'; chunk = c' })
      → write_loop io (suc fuel) src at cur_rest len (record { socket = some s; chunk = c })
        ≡ write_loop io fuel src
            (at + cur_rest)
            (sub_size max_http_chunk_size c'.chunk_len)
            (len - cur_rest)
            (record { socket = some s'; chunk = c' })
  unfolding write_loop
  write_loop-round fuel src at cur_rest len s c n t written =
      rw (t, written, write_loop)
        (ap
          (λ (o : ℤ × Writer S).
            write_loop io fuel src (at + cur_rest)
              (sub_size max_http_chunk_size o.1.chunk.chunk_len) (len - cur_rest) o.1)
          written)

  write_loop-Sent :
      (fuel : ℕ) (src : Memory) (at cur_rest len : ℕ) (s : S) (c : Chunk)
      → c.chunk_len + cur_rest ≡ max_http_chunk_size
      → c.chunk_num + fuel < size_mod
      → (len + 1 < fuel) ⊎ ((len < fuel) × (0 < cur_rest))
      → Sent s c
          (slice src at len)
          fuel
          len
          cur_rest
          (write_loop io fuel src at cur_rest len (record { socket = some s; chunk = c }))
  unfolding write_loop emptied
  write_loop-Sent zero src at cur_rest len s c e b h = absurd (omega arith)
  write_loop-Sent (suc fuel) src at cur_rest len s c e b h = elim (Bool-cases (leb len cur_rest)) [
    | inl t ↦
        rw (t, write_loop) (last-Sent (suc fuel) src at cur_rest len s c e (leb→le len cur_rest t))
    | inr t ↦
        let (held, num, full) = held_back-fill_up src at cur_rest c (omega arith) in
        let c1 = fill_up src at cur_rest c in
        let (s1, written, sent_now) = flush io a s c1 (omega arith) (omega arith) in
        rw (write_loop-round fuel src at cur_rest len s c c1.chunk_len t written) (
          later-Sent fuel src at cur_rest len s s1 c c1 _ num b held sent_now
            (leb_false→lt len cur_rest t)
            (write_loop-Sent fuel src (at + cur_rest) max_http_chunk_size (len - cur_rest) s1
              (emptied c1) (omega arith) (omega arith)
              (grind (arith, leb_false→lt len cur_rest t))))
  ]

  pub pipe_write-Sent :
      (src : Memory) (size nitems : ℕ) (s : S) (c : Chunk)
      → c.chunk_len ≤ max_http_chunk_size
      → c.chunk_num + (size * nitems % size_mod + 2) < size_mod
      → Sent s c
          (slice src 0 (size * nitems % size_mod))
          (size * nitems % size_mod + 2)
          (size * nitems % size_mod)
          (sub_size max_http_chunk_size c.chunk_len)
          (pipe_write io src size nitems (record { socket = some s; chunk = c }))
  unfolding pipe_write
  pipe_write-Sent src size nitems s c v b =
      let len = size * nitems % size_mod in
      write_loop-Sent (len + 2) src 0 (sub_size max_http_chunk_size c.chunk_len) len s c
        (omega arith) b (inl (omega arith))

  -- Over a socket that accepts what is sent, where the buffered bytes lie within the buffer and the
  -- counter of the chunks does not overflow, `pipe_write` returns, and the socket has then got, or
  -- the chunk still holds, the bytes of before and then exactly the `size * nitems` bytes of `src`,
  -- with the HTTP answer before the first chunk only. The buffered bytes stay within the buffer. The
  -- result is the number of bytes if they fit beside what is buffered; if not, it is smaller by at
  -- least the space that was free.
  pub pipe_write-stream :
      (src : Memory) (size nitems : ℕ) (s : S) (c : Chunk)
      → c.chunk_len ≤ max_http_chunk_size
      → c.chunk_num + (size * nitems % size_mod + 2) < size_mod
      → (r : ℕ) × (s' : S) × (c' : Chunk) × (pipe_write io src size nitems
            (record { socket = some s; chunk = c })
          ≡ some (r, record { socket = some s'; chunk = c' }))
        × (a.sent s' ++ held_back c'
            ≡ (a.sent s ++ held_back c) ++ slice src 0 (size * nitems % size_mod))
        × (c'.chunk_len ≤ max_http_chunk_size)
        × (c'.chunk_num ≤ c.chunk_num + (size * nitems % size_mod + 2))
        × (c.chunk_len + size * nitems % size_mod ≤ max_http_chunk_size
            → r ≡ size * nitems % size_mod)
        × (max_http_chunk_size < c.chunk_len + size * nitems % size_mod
            → r + (max_http_chunk_size - c.chunk_len) ≤ size * nitems % size_mod)
  pipe_write-stream src size nitems s c v b =
      let len = size * nitems % size_mod in
      let rest = sub_size max_http_chunk_size c.chunk_len in
      let e : rest ≡ max_http_chunk_size - c.chunk_len = omega arith in
      let done = pipe_write-Sent src size nitems s c v b in
      (
        done.result,
        done.socket,
        done.chunk,
        done.stops,
        done.stream,
        done.valid,
        done.numbered,
        (λ h. done.whole (omega arith)),
        (λ h. omega (arith, done.short (omega arith))),
      )

  -- `pipe_fflush` over a socket that accepts what is sent, where bytes are buffered and
  -- lie within the buffer, returns 0 and
  -- sends all that was held back: the socket has then got all that was written.
  pub pipe_fflush-stream :
      (s : S) (c : Chunk)
      → c.chunk_len ≢ 0
      → c.chunk_len ≤ max_http_chunk_size
      → (s' : S) × (pipe_fflush io (record { socket = some s; chunk = c })
          ≡ (pos 0, record { socket = some s'; chunk = emptied c }))
        × (a.sent s' ≡ a.sent s ++ held_back c)
  unfolding pipe_fflush emptied
  pipe_fflush-stream s c h v =
      let (s1, written, sent_now) = flush io a s c (omega arith) v in
      (s1, rw (lt→ltb 0 c.chunk_len (omega arith), written), sent_now)
