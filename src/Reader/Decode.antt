-- ===== src/Reader/Decode.antt =====
-- One chunk of the stream, from its bytes on the wire to the bytes that are there to read.
use r_exasol.Base.{
  All, List, [], ap, append_assoc, arith, false, get_or, length, length-append, le→leb,
  le→ltb_false, ne→==_false, ok, pos, refl, some, sym, take, take-append, ℕ, ◌++◌, ◌+◌, ◌-◌, ◌<◌,
  ◌==◌, ◌^◌, ◌∙◌, ◌∷◌, ◌≡◌, ◌≢◌, ◌≤◌,
}
use r_exasol.Socket.{SocketOps, Streams, got}
use r_exasol.Socket.Stream.{recv_bytes}
use r_exasol.Chunk.{Memory, Chunk, max_http_chunk_size, store, slice}
use r_exasol.Chunk.Memory.{put_ne, slice-store, slice-put, take-slice}
use r_exasol.Answers.{reader_ok_answer}
use r_exasol.Hex.Digits.{IsDigit, IsDigit-range, hex_number, scan_hex-digits}
use r_exasol.Reader.{
  Wire, poke, add_uint, take_over, recv_at, read_size, finish, accept, receive, next_chunk,
  after_next, next_over, read_next_chunk,
}
use r_exasol.Reader.Line.{
  line_end, AgreesBelow, AgreesBelow-trans, poke-AgreesBelow, read_line-digits, c_string-digits,
}

-- A chunk as it is sent: its size in hexadecimal on a line, and its bytes with a line end.
pub record Frame : Type 0 where
  pub size_line : List ℕ
  pub payload : List ℕ

abbrev pub frame_bytes : Frame → List ℕ
frame_bytes f = f.size_line ++ (line_end ++ (f.payload ++ line_end))

-- The line with a size: not empty, hexadecimal digits only, and short enough for the loop.
pub record IsSizeLine (l : List ℕ) : Type 0 where
  pub some_digit : l ≢ []
  pub digits : All IsDigit l
  pub short : length l ≤ 18

pub record IsFrame (f : Frame) : Type 0 where
  pub size : IsSizeLine f.size_line
  pub size_eq : hex_number f.size_line ≡ length f.payload
  pub not_empty : 0 < length f.payload
  pub fits : length f.payload + 2 ≤ max_http_chunk_size

-- A buffer that begins with a digit does not begin with the end of the string.
nonzero_head :
    (d : ℕ) (ds : List ℕ) (m : Memory)
    → slice m 0 (length (d ∷ ds)) ≡ d ∷ ds
    → IsDigit d
    → (m 0 == 0) ≡ false
unfolding slice
nonzero_head d ds m e h = ground (arith, ap (λ l. get_or l 0 0) e, IsDigit-range d h)

regroup :
    (size bs rest : List ℕ)
    → (size ++ (line_end ++ (bs ++ line_end))) ++ rest
      ≡ size ++ (line_end ++ (bs ++ (line_end ++ rest)))
regroup size bs rest = simp append_assoc

module _ {S : Type 0} (io : SocketOps S) (st : Streams io) where
  -- `read_size` reads the number of a size line, and takes the line from the stream.
  read_size-line :
      (l : List ℕ) (w : Wire S) (rest : List ℕ)
      → st.pending w.sock ≡ l ++ (line_end ++ rest)
      → IsSizeLine l
      → hex_number l < 2 ^ 32
      → (w' : Wire S) × (read_size io w ≡ (ok (hex_number l), w'))
        × AgreesBelow 0 w.chunk w'.chunk
        × (st.pending w'.sock ≡ rest)
  unfolding read_size
  read_size-line [] w rest p v h = absurd (v.some_digit refl)
  read_size-line (d ∷ ds) w rest p v h =
      let l : List ℕ = d ∷ ds in
      let (w1, read, line) =
        read_line-digits io st l 20 0 w rest p v.digits (omega (arith, v.short)) in
      let at = 0 + length l + 1 in
      let c2 = poke w1.chunk at 0 in
      let w2 : Wire S = record w1 { chunk = c2 } in
      let shown = slice-put w1.chunk.chunk_buf 0 (length l) at 0 (omega arith) ∙ line.shown in
      let ended = put_ne w1.chunk.chunk_buf at 0 (0 + length l) (omega arith) ∙ line.ended in
      let text =
        c_string-digits io st l 20 c2.chunk_buf 0 shown ended v.digits (omega (arith, v.short)) in
      let first = nonzero_head d ds c2.chunk_buf shown v.digits.0 in
      (
        w2,
        rw (
          read,
          le→leb at 19 (omega (arith, v.short)),
          first,
          text,
          scan_hex-digits l v.some_digit v.digits h,
        ),
        AgreesBelow-trans 0 (omega arith) line.agrees
            (poke-AgreesBelow w1.chunk 0 at 0 (omega arith)),
        line.left,
      )

  accept-got :
      (bs : List ℕ) (w : Wire S)
      → 3 ≤ length bs
      → accept io (got bs) w
        ≡ (ok (pos (length bs - 2)), record w { chunk = take_over w.chunk (length bs) })
  unfolding accept
  accept-got bs w h = rw (le→ltb_false (length bs) 3 h)

  -- A whole chunk and its line end are received, and become what there is to read.
  receive-payload :
      (bs : List ℕ) (w : Wire S) (rest : List ℕ)
      → st.pending w.sock ≡ bs ++ (line_end ++ rest)
      → 0 < length bs
      → length bs + 2 ≤ max_http_chunk_size
      → (w' : Wire S) × (receive io (length bs) w ≡ (ok (pos (length bs)), w'))
        × (w'.chunk.chunk_len ≡ length bs)
        × (w'.chunk.chunk_pos ≡ 0)
        × (slice w'.chunk.chunk_buf 0 (length bs) ≡ bs)
        × (st.pending w'.sock ≡ rest)
  unfolding receive recv_at take_over
  receive-payload bs w rest p h f =
      let n = add_uint (length bs) 2 in
      let wire = bs ++ line_end in
      let len : length wire ≡ length bs + 2 = length-append bs line_end in
      let (now, later) =
        recv_bytes io st w.sock n wire rest (p ∙ sym (append_assoc bs line_end rest))
          (omega (arith, len)) (omega arith) (omega arith) in
      let m = store w.chunk.chunk_buf 0 wire in
      let two : length wire - 2 ≡ length bs = omega (arith, len) in
      let w1 : Wire S = record {
        sock = (io.recv w.sock n).1;
        chunk = record w.chunk { chunk_buf = m };
      } in
      (
        record w1 { chunk = take_over w1.chunk (length wire) },
        rw (le→leb n max_http_chunk_size (omega arith), now)
            (accept-got wire w1 (omega (arith, len))
              ∙ ap (λ k. (ok (pos k), record w1 { chunk = take_over w1.chunk (length wire) })) two),
        two,
        refl,
        slice-put m 0 (length bs) (length wire - 2) 0 (omega arith)
            ∙ sym (take-slice m 0 (length bs) (length wire) (omega (arith, len)))
            ∙ ap (take (length bs)) (slice-store w.chunk.chunk_buf 0 wire)
            ∙ take-append (length bs) bs line_end refl,
        later,
      )

  -- Where the stream begins with a well-formed chunk, `read_next_chunk` takes it: its result is the number of the chunk's bytes,
  -- which are then there to read, and the stream goes on behind it.
  pub read_next_chunk-frame :
      (f : Frame) (s : S) (c : Chunk) (rest : List ℕ)
      → IsFrame f
      → st.pending s ≡ frame_bytes f ++ rest
      → (s' : S) × (c' : Chunk) × (read_next_chunk io (record { socket = some s; chunk = c })
          ≡ (pos (length f.payload), record { socket = some s'; chunk = c' }))
        × (c'.chunk_len ≡ length f.payload)
        × (c'.chunk_pos ≡ 0)
        × (slice c'.chunk_buf 0 (length f.payload) ≡ f.payload)
        × (st.pending s' ≡ rest)
  unfolding read_next_chunk next_over next_chunk after_next
  read_next_chunk-frame f s c rest v p =
      let w : Wire S = record { sock = s; chunk = c } in
      let (w1, read, _, p1) =
        read_size-line f.size_line w (f.payload ++ (line_end ++ rest))
          (p ∙ regroup f.size_line f.payload rest) v.size (omega (arith, v.size_eq, v.fits)) in
      let (w2, received, len, at, shown, p2) =
        receive-payload f.payload w1 rest p1 v.not_empty v.fits in
      let more = ne→==_false (length f.payload) 0 (omega (arith, v.not_empty)) in
      (w2.sock, w2.chunk, rw (read, v.size_eq, more, received), len, at, shown, p2)

  -- The chunk of size 0 ends the stream: the result is 0, the server is answered and the socket
  -- closed for writing.
  pub read_next_chunk-last :
      (l : List ℕ) (s : S) (c : Chunk) (rest : List ℕ)
      → IsSizeLine l
      → hex_number l ≡ 0
      → st.pending s ≡ l ++ (line_end ++ rest)
      → (s1 : S) × (c' : Chunk) × (read_next_chunk io (record { socket = some s; chunk = c }) ≡ (
        pos 0,
        record { socket = some (io.shutdown_wr (io.send s1 reader_ok_answer).1); chunk = c' },
      ))
        × AgreesBelow 0 c c'
        × (st.pending s1 ≡ rest)
  unfolding read_next_chunk next_over next_chunk after_next finish
  read_next_chunk-last l s c rest v none_left p =
      let w : Wire S = record { sock = s; chunk = c } in
      let (w1, read, agrees, p1) = read_size-line l w rest p v (omega (arith, none_left)) in
      (w1.sock, w1.chunk, rw (read, none_left), agrees, p1)
