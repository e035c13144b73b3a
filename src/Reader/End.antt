-- ===== src/Reader/End.antt =====
-- The end of the stream, as the reader's client sees it.
use r_exasol.Base.{
  All, List, Option, [], ap, append-nil, append_assoc, ap₂, arith, inl, inr, length, length-append,
  lt→leb_false, ne→==_false, pos, refl, some, suc, sym, true, zero, ℕ, ℤ, ◌++◌, ◌+◌, ◌-◌, ◌<◌, ◌∙◌,
  ◌∷◌, ◌≡◌, ◌⊎◌,
}
use r_exasol.Socket.{SocketOps, Streams}
use r_exasol.Chunk.{Memory, Chunk, store, slice}
use r_exasol.Chunk.Memory.{length-slice, slice-store_front, slice-nil}
use r_exasol.Answers.{reader_ok_answer}
use r_exasol.Hex.Digits.{hex_number}
use r_exasol.Reader.{Reader, read_next_chunk, is_zero, read_loop, read_next}
use r_exasol.Reader.Line.{line_end}
use r_exasol.Reader.Decode.{
  Frame, IsFrame, IsSizeLine, frame_bytes, read_next_chunk-frame, read_next_chunk-last,
}
use r_exasol.Reader.Deliver.{unread, wire_bytes, payloads, Holds, read_loop-round}

-- The size line of the last chunk.
pub record IsLast (l : List ℕ) : Type 0 where
  pub size : IsSizeLine l
  pub zero_size : hex_number l ≡ 0

module _ {S : Type 0} (io : SocketOps S) (st : Streams io) where
  -- The round in which the last chunk comes.
  last_round :
      (fuel : ℕ) (dest : Memory) (at rest_chunk len : ℕ) (r r' : Reader S)
      → rest_chunk < len
      → read_next_chunk io r ≡ (pos 0, r')
      → read_loop io (suc fuel) dest at rest_chunk len r
        ≡ some (
          pos (at + rest_chunk),
          store dest at (slice r.chunk.chunk_buf r.chunk.chunk_pos rest_chunk),
          r',
        )
  unfolding read_loop
  last_round fuel dest at rest_chunk len r r' h next =
      let ends : is_zero (read_next_chunk io r).0 ≡ true = ap (λ o. is_zero o.0) next in
      let piece = slice r.chunk.chunk_buf r.chunk.chunk_pos rest_chunk in
      rw (lt→leb_false len rest_chunk h, ends, read_loop)
        (ap (λ (o : ℤ × Reader S). some (pos (at + rest_chunk), store dest at piece, o.1)) next)

  -- What the loop has done when the stream ends before it has all that it wants.
  record Ends (dest : Memory) (at : ℕ) (bytes : List ℕ) (out : Option (ℤ × Memory × Reader S))
      : Type 0 where
    buffer : Memory
    before : S
    chunk : Chunk
    stops :
        out
        ≡ some (
          pos (at + length bytes),
          buffer,
          record {
            socket = some (io.shutdown_wr (io.send before reader_ok_answer).1);
            chunk = chunk;
          },
        )
    copied : slice buffer 0 (at + length bytes) ≡ slice dest 0 at ++ bytes

  earlier_Ends :
      (dest : Memory) (at n : ℕ) (piece more : List ℕ) (out : Option (ℤ × Memory × Reader S))
      → length piece ≡ n
      → Ends (store dest at piece) (at + n) more out
      → Ends dest at (piece ++ more) out
  earlier_Ends dest at n piece more out e v =
      let sum : at + n + length more ≡ at + length (piece ++ more) =
        omega (arith, length-append piece more) in
      record {
        buffer = v.buffer;
        before = v.before;
        chunk = v.chunk;
        stops = rw (← sum) v.stops;
        copied = rw (← sum) (
            v.copied
            ∙ ap (λ l. l ++ more)
                (ap (λ k. slice (store dest at piece) 0 (at + k)) (sym e)
                  ∙ slice-store_front dest at piece)
            ∙ append_assoc (slice dest 0 at) piece more);
      }

  restart :
      (fuel : ℕ) (dest : Memory) (at len : ℕ) (s : S) (c : Chunk) (fs : List Frame) (k : ℕ)
      (bytes : List ℕ)
      → c.chunk_len - c.chunk_pos ≡ k
      → unread c ≡ bytes
      → Ends dest at (unread c ++ payloads fs) (
          read_loop io fuel dest at
            (c.chunk_len - c.chunk_pos)
            len
            (record { socket = some s; chunk = c }))
      → Ends dest at
          (bytes ++ payloads fs)
          (read_loop io fuel dest at k len (record { socket = some s; chunk = c }))
  restart fuel dest at len s c fs k bytes e now v = rw (← e, ← now) v

  read_loop-Ends :
      (fuel : ℕ) (l rest : List ℕ) (dest : Memory) (at len : ℕ) (s : S) (c : Chunk)
      (fs : List Frame)
      → IsLast l
      → All IsFrame fs
      → st.pending s ≡ wire_bytes fs ++ (l ++ (line_end ++ rest))
      → length (unread c ++ payloads fs) < len
      → (len + 1 < fuel) ⊎ ((len < fuel) × (0 < c.chunk_len - c.chunk_pos))
      → Ends dest at (unread c ++ payloads fs) (
          read_loop io fuel dest at
            (c.chunk_len - c.chunk_pos)
            len
            (record { socket = some s; chunk = c }))
  read_loop-Ends zero l rest dest at len s c fs last w p b h = absurd (omega arith)
  read_loop-Ends (suc fuel) l rest dest at len s c [] last w p b h =
      let n : ℕ = c.chunk_len - c.chunk_pos in
      let (s1, c1, next, agrees, p1) =
        read_next_chunk-last io st l s c rest last.size last.zero_size p in
      let all : length (unread c ++ []) ≡ n =
        omega (arith, length-append (unread c) [], length-slice c.chunk_buf c.chunk_pos n) in
      record {
        buffer = store dest at (unread c);
        before = s1;
        chunk = c1;
        stops =
            last_round fuel dest at n len _ _ (omega (arith, all)) next
            ∙ ap
                (λ k. some (
                  pos (at + k),
                  store dest at (unread c),
                  record {
                    socket = some (io.shutdown_wr (io.send s1 reader_ok_answer).1);
                    chunk = c1;
                  },
                ))
                (sym all);
        copied =
            ap (λ k. slice (store dest at (unread c)) 0 (at + k))
              (all ∙ sym (length-slice c.chunk_buf c.chunk_pos n))
            ∙ slice-store_front dest at (unread c)
            ∙ ap (◌++◌ (slice dest 0 at)) (sym (append-nil (unread c)));
      }
  read_loop-Ends (suc fuel) l rest dest at len s c (f ∷ fs) last w p b h =
      let n : ℕ = c.chunk_len - c.chunk_pos in
      let all = length-slice c.chunk_buf c.chunk_pos n in
      let dest' = store dest at (unread c) in
      let (s1, c1, next, len1, at1, shown, p1) =
        read_next_chunk-frame io st f s c (wire_bytes fs ++ (l ++ (line_end ++ rest))) w.0
          (p ∙ append_assoc (frame_bytes f) (wire_bytes fs) (l ++ (line_end ++ rest))) in
      let more = ne→==_false (length f.payload) 0 (omega (arith, w.0.not_empty)) in
      let start : c1.chunk_len - c1.chunk_pos ≡ c1.chunk_len = omega (arith, at1) in
      let now : unread c1 ≡ f.payload =
        ap₂ (slice c1.chunk_buf) at1 (omega (arith, len1, at1)) ∙ shown in
      let sum = length-append (unread c) (f.payload ++ payloads fs) in
      let later =
        read_loop-Ends fuel l rest dest' (at + n) (len - n) s1 c1 fs last w.1 p1
          (rw now (omega (arith, sum, all)))
          (inr (
            omega (arith, sum, all, length-append f.payload (payloads fs), w.0.not_empty),
            omega (arith, len1, at1, w.0.not_empty),
          )) in
      rw
        (read_loop-round io st fuel dest at n len (record { socket = some s; chunk = c })
          (length f.payload) (record { socket = some s1; chunk = c1 })
          (lt→leb_false len n
            (omega (arith, sum, all, length-append f.payload (payloads fs), w.0.not_empty)))
          more next)
        (earlier_Ends dest at n (unread c) (f.payload ++ payloads fs) _ all
          (restart fuel dest' (at + n) (len - n) s1 c1 fs c1.chunk_len f.payload start now later))

  -- A read of more bytes than the stream of chunks still holds, which a chunk of size 0 ends, returns
  -- the number of the bytes that were left, copies them all, and has the server answered and the
  -- socket closed for writing.
  pub read_next-ends :
      (dest : Memory) (len : ℕ) (s : S) (c : Chunk) (l rest bytes : List ℕ)
      → Holds io st s c (l ++ (line_end ++ rest)) bytes
      → IsLast l
      → length bytes < len
      → (dest' : Memory) × (s1 : S) × (c' : Chunk) × (read_next io dest len
            (record { socket = some s; chunk = c })
          ≡ some (
            pos (length bytes),
            dest',
            record { socket = some (io.shutdown_wr (io.send s1 reader_ok_answer).1); chunk = c' },
          ))
        × (slice dest' 0 (length bytes) ≡ bytes)
  unfolding read_next
  read_next-ends dest len s c l rest bytes v last h =
      let d : Ends dest 0 bytes (
          read_loop io (len + 2) dest 0 (c.chunk_len - c.chunk_pos) len
            (record { socket = some s; chunk = c })) =
        rw (← v.content) (
          read_loop-Ends (len + 2) l rest dest 0 len s c v.frames last v.well_formed v.wire
            (rw v.content h) (inl (omega arith))) in
      let none_before : 0 + length bytes ≡ length bytes = omega arith in
      (
        d.buffer,
        d.before,
        d.chunk,
        ap (λ k. read_loop io (len + 2) dest 0 k len (record { socket = some s; chunk = c }))
              (omega (arith, v.valid.pos_le, v.valid.len_le))
            ∙ d.stops
            ∙ ap
                (λ k. some (
                  pos k,
                  d.buffer,
                  record {
                    socket = some (io.shutdown_wr (io.send d.before reader_ok_answer).1);
                    chunk = d.chunk;
                  },
                ))
                none_before,
        ap (slice d.buffer 0) (sym none_before)
            ∙ d.copied
            ∙ ap (λ k. k ++ bytes) (slice-nil dest 0 0 refl),
      )
