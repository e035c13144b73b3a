-- ===== src/Writer/Flush.antt =====
-- What the chunk holds back, and what a flush of it sends.
use r_exasol.Base.{
  ==_refl, Bool-cases, List, [], add_size, ap, append-nil, append_assoc, arith, if◌then◌else◌, inl,
  inr, length, lt→ltb, ne→==_false, ok, pos, refl, size_mod, some, suc, sym, zero, ℕ, ◌++◌, ◌+◌,
  ◌<◌, ◌==◌, ◌^◌, ◌≡◌, ◌≤◌,
}
use r_exasol.Socket.{SocketOps, Accepts}
use r_exasol.Chunk.{Memory, Chunk, max_http_chunk_size, slice}
use r_exasol.Chunk.Memory.{length-slice, slice-store_front}
use r_exasol.Answers.{writer_ok_answer}
use r_exasol.Writer.{
  buffer_bytes, fill_up, send_exactly, send_header, send_chunk, after_send, write_over,
  write_next_chunk,
}

-- The answer that is still to come before the first chunk.
abbrev pub header_due : ℕ → List ℕ
header_due chunk_num = if chunk_num == 0 then writer_ok_answer else []

-- The answer and the bytes that the chunk still holds back.
abbrev pub held_back : Chunk → List ℕ
held_back c = header_due c.chunk_num ++ slice c.chunk_buf 0 c.chunk_len

pub held_back-buffer_bytes :
    (c : Chunk) (bs : List ℕ)
    → c.chunk_len + length bs ≤ max_http_chunk_size
    → held_back (buffer_bytes c bs) ≡ held_back c ++ bs
unfolding buffer_bytes
held_back-buffer_bytes c bs h =
    let sum : add_size c.chunk_len (length bs) ≡ c.chunk_len + length bs = omega arith in
    rw (sum, append_assoc)
      (ap (◌++◌ (header_due c.chunk_num)) (slice-store_front c.chunk_buf c.chunk_len bs))

fill_up_pos :
    (src : Memory) (at n : ℕ) (c : Chunk)
    → 0 < n
    → fill_up src at n c ≡ buffer_bytes c (slice src at n)
unfolding fill_up
fill_up_pos src at n c h = rw (lt→ltb 0 n h)

pub held_back-fill_up :
    (src : Memory) (at n : ℕ) (c : Chunk)
    → c.chunk_len + n ≤ max_http_chunk_size
    → (held_back (fill_up src at n c) ≡ held_back c ++ slice src at n)
      × ((fill_up src at n c).chunk_num ≡ c.chunk_num)
      × ((fill_up src at n c).chunk_len ≡ c.chunk_len + n)
unfolding fill_up slice buffer_bytes
held_back-fill_up src at zero c h = (sym (append-nil _), refl, omega arith)
held_back-fill_up src at (suc n) c h =
    let len = length-slice src at (suc n) in
    rw (fill_up_pos src at (suc n) c (omega arith)) (
      held_back-buffer_bytes c (slice src at (suc n)) (omega (arith, len)),
      refl,
      omega (arith, len),
    )

-- The chunk after a flush.
unfoldable pub emptied : Chunk → Chunk
emptied c = record c { chunk_len = 0; chunk_num = add_size c.chunk_num 1 }

pub held_back-emptied : (c : Chunk) → c.chunk_num + 1 < size_mod → held_back (emptied c) ≡ []
unfolding emptied slice
held_back-emptied c h = rw (ne→==_false (add_size c.chunk_num 1) 0 (omega arith))

module _ {S : Type 0} (io : SocketOps S) (a : Accepts io) where
  send_exactly-ok :
      (bs : List ℕ) (s : S) → length bs < 2 ^ 31 → send_exactly io bs s ≡ (ok tt, (io.send s bs).1)
  unfolding send_exactly
  send_exactly-ok bs s h = rw (a.send_all s bs h, ==_refl)

  send_header-ok :
      (num : ℕ) (s : S)
      → (s' : S) × (send_header io num s ≡ (ok tt, s')) × (a.sent s' ≡ a.sent s ++ header_due num)
  unfolding send_header
  send_header-ok num s = elim (Bool-cases (num == 0)) [
    | inl t ↦ (
      (io.send s writer_ok_answer).1,
      rw (t, send_header)
          (send_exactly-ok writer_ok_answer s (unfold writer_ok_answer in omega arith)),
      rw t (a.sent_send s writer_ok_answer (unfold writer_ok_answer in omega arith)),
    )
    | inr t ↦ (s, rw (t, send_header), rw t (sym (append-nil (a.sent s))))
  ]

  -- A flush sends what was held back and empties the chunk.
  pub flush :
      (s : S) (c : Chunk)
      → 0 < c.chunk_len
      → c.chunk_len ≤ max_http_chunk_size
      → (s' : S) × (write_next_chunk io (record { socket = some s; chunk = c }) ≡ (
        pos c.chunk_len,
        record {
          socket = some s';
          chunk = record c { chunk_len = 0; chunk_num = add_size c.chunk_num 1 };
        },
      ))
        × (a.sent s' ≡ a.sent s ++ held_back c)
  unfolding write_next_chunk write_over send_chunk send_header after_send
  flush s c h v =
      let (s1, header, e1) = send_header-ok c.chunk_num s in
      let body = slice c.chunk_buf 0 c.chunk_len in
      let len = length-slice c.chunk_buf 0 c.chunk_len in
      let small : length body < 2 ^ 31 = omega (arith, len) in
      (
        (io.send s1 body).1,
        rw (
          ne→==_false c.chunk_len 0 (omega arith),
          send_chunk,
          header,
          send_exactly-ok body s1 small,
          after_send,
        ),
        rw (a.sent_send s1 body small, e1) (append_assoc (a.sent s) (header_due c.chunk_num) body),
      )
