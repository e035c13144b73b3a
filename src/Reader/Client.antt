-- ===== src/Reader/Client.antt =====
-- The reader's operations, as its client sees them on a stream of chunks.
use r_exasol.Base.{
  All, List, [], add_size, ap, append_assoc, ap₂, arith, char_to_int, drop, false, get_or, inl,
  length, le→ltb_false, lt_one, lt→ltb, pos, refl, size_mod, some, sub_size, sym, take, ℕ, ℤ, ◌*◌,
  ◌++◌, ◌+◌, ◌-◌, ◌<◌, ◌∙◌, ◌∷◌, ◌≡◌, ◌≤◌,
}
use native.Mathlib.Decide.{dec_lt}
use native.Mathlib.Nat.{mod-eq_of_lt, mul-zero, mul-div_cancel_left}
use r_exasol.Socket.{SocketOps, Streams}
use r_exasol.Chunk.{Memory, Chunk, slice}
use r_exasol.Chunk.Memory.{slice-head, slice-nil}
use r_exasol.Reader.{
  Reader, read_next_chunk, read_loop, read_next, items, pipe_read, next_char, fgetc,
}
use r_exasol.Reader.Decode.{Frame, IsFrame, frame_bytes, read_next_chunk-frame}
use r_exasol.Reader.Deliver.{wire_bytes, payloads, Holds, Delivers, read_loop-Delivers}

-- `rlen / size`, where `rlen` is all that was asked for.
pub items-all :
    (size nitems : ℕ)
    → 0 < size
    → size * nitems < size_mod
    → items size (pos (size * nitems)) ≡ nitems
unfolding items
items-all size nitems h b = elim (dec_lt 0 nitems) [
  | yes p ↦
      let some_byte : 1 ≤ size * nitems = grind arith in
      rw (le→ltb_false (size * nitems) 1 some_byte, mod-eq_of_lt b) (mul-div_cancel_left nitems h)
  | no p ↦ let zero_items : nitems ≡ 0 = omega arith in rw (zero_items, mul-zero)
]

module _ {S : Type 0} (io : SocketOps S) (st : Streams io) where
  read_next-delivers :
      (dest : Memory) (len : ℕ) (s : S) (c : Chunk) (tail bytes : List ℕ)
      → Holds io st s c tail bytes
      → len ≤ length bytes
      → (dest' : Memory) × (s' : S) × (c' : Chunk) × (read_next io dest len
            (record { socket = some s; chunk = c })
          ≡ some (pos len, dest', record { socket = some s'; chunk = c' }))
        × (slice dest' 0 len ≡ take len bytes)
        × Holds io st s' c' tail (drop len bytes)
  unfolding read_next
  read_next-delivers dest len s c tail bytes v h =
      let d : Delivers io st tail dest 0 len bytes (
          read_loop io (len + 2) dest 0 (c.chunk_len - c.chunk_pos) len
            (record { socket = some s; chunk = c })) =
        rw (← v.content) (
          read_loop-Delivers io st (len + 2) tail dest 0 len s c v.frames v.valid v.well_formed
            v.wire (rw v.content h) (inl (omega arith))) in
      let none_before : 0 + len ≡ len = omega arith in
      (
        d.buffer,
        d.socket,
        d.chunk,
        ap (λ k. read_loop io (len + 2) dest 0 k len (record { socket = some s; chunk = c }))
              (omega (arith, v.valid.pos_le, v.valid.len_le))
            ∙ d.stops
            ∙ ap (λ k. some (pos k, d.buffer, record { socket = some d.socket; chunk = d.chunk }))
                none_before,
        ap (slice d.buffer 0) (sym none_before)
            ∙ d.copied
            ∙ ap (λ l. l ++ take len bytes) (slice-nil dest 0 0 refl),
        d.rest,
      )

  -- On a stream of chunks that still holds `size * nitems` bytes, where `size` is not 0 and the
  -- product does not overflow, `pipe_read` returns `nitems`, copies the next `size * nitems` bytes of
  -- the chunks to the client's buffer, and leaves the bytes behind them to be read.
  pub pipe_read-delivers :
      (dest : Memory) (size nitems : ℕ) (s : S) (c : Chunk) (tail bytes : List ℕ)
      → Holds io st s c tail bytes
      → 0 < size
      → size * nitems < size_mod
      → size * nitems ≤ length bytes
      → (dest' : Memory) × (s' : S) × (c' : Chunk) × (pipe_read io dest size nitems
            (record { socket = some s; chunk = c })
          ≡ some (nitems, dest', record { socket = some s'; chunk = c' }))
        × (slice dest' 0 (size * nitems) ≡ take (size * nitems) bytes)
        × Holds io st s' c' tail (drop (size * nitems) bytes)
  unfolding pipe_read
  pipe_read-delivers dest size nitems s c tail bytes v k b h =
      let (dest', s', c', read, copied, rest) =
        read_next-delivers dest (size * nitems) s c tail bytes v h in
      (dest', s', c', rw (mod-eq_of_lt b, read, items-all size nitems k b, pipe_read), copied, rest)

  -- The byte at the read position, where the chunk has one.
  next_char-delivers :
      (s : S) (c : Chunk) (tail : List ℕ) (b : ℕ) (bytes : List ℕ)
      → (v : Holds io st s c tail (b ∷ bytes)) → c.chunk_pos < c.chunk_len
      → (c' : Chunk) × (next_char (record { socket = some s; chunk = c })
          ≡ (char_to_int b, record { socket = some s; chunk = c' }))
        × Holds io st s c' tail bytes
  unfolding next_char
  next_char-delivers s c tail b bytes v h =
      let n : ℕ = c.chunk_len - c.chunk_pos in
      let open_up = slice-head c.chunk_buf c.chunk_pos n (omega arith) in
      let all = ap (λ l. l ++ payloads v.frames) (sym open_up) ∙ v.content in
      let moved : add_size c.chunk_pos 1 ≡ c.chunk_pos + 1 = omega (arith, v.valid.len_le) in
      let c1 : Chunk = record c { chunk_pos = add_size c.chunk_pos 1 } in
      (
        c1,
        ap (λ k. (char_to_int k, record { socket = some s; chunk = c1 }))
            (ap (λ l. get_or l 0 0) all),
        record {
          frames = v.frames;
          valid = record { pos_le = omega (arith, moved); len_le = v.valid.len_le };
          well_formed = v.well_formed;
          wire = v.wire;
          content =
              ap (λ l. l ++ payloads v.frames)
                (ap₂ (slice c.chunk_buf) moved (omega (arith, moved)))
              ∙ ap (drop 1) all;
        },
      )

  fgetc_now :
      (r : Reader S) → 1 ≤ sub_size r.chunk.chunk_len r.chunk.chunk_pos → fgetc io r ≡ next_char r
  unfolding fgetc
  fgetc_now r h = rw (le→ltb_false (sub_size r.chunk.chunk_len r.chunk.chunk_pos) 1 h, fgetc)

  fgetc_next :
      (r r' : Reader S) (n : ℕ)
      → sub_size r.chunk.chunk_len r.chunk.chunk_pos < 1
      → read_next_chunk io r ≡ (pos n, r')
      → 0 < n
      → fgetc io r ≡ next_char r'
  unfolding fgetc
  fgetc_next r r' n h next more =
      let fine : lt_one (read_next_chunk io r).0 ≡ false =
        ap (λ o. lt_one o.0) next ∙ le→ltb_false n 1 more in
      rw (lt→ltb (sub_size r.chunk.chunk_len r.chunk.chunk_pos) 1 h, fine, fgetc)
        (ap (λ (o : ℤ × Reader S). next_char o.1) next)

  refilled :
      (s : S) (c : Chunk) (tail : List ℕ) (b : ℕ) (bytes : List ℕ) (fs : List Frame)
      → All IsFrame fs
      → st.pending s ≡ wire_bytes fs ++ tail
      → payloads fs ≡ b ∷ bytes
      → (s' : S) × (c' : Chunk) × (n : ℕ) × (read_next_chunk io
            (record { socket = some s; chunk = c })
          ≡ (pos n, record { socket = some s'; chunk = c' }))
        × (0 < n)
        × (c'.chunk_pos < c'.chunk_len)
        × Holds io st s' c' tail (b ∷ bytes)
  refilled s c tail b bytes [] w p e = absurd (cc)
  refilled s c tail b bytes (f ∷ fs) w p e =
      let (s1, c1, next, len, at, shown, p1) =
        read_next_chunk-frame io st f s c (wire_bytes fs ++ tail) w.0
          (p ∙ append_assoc (frame_bytes f) (wire_bytes fs) tail) in
      (
        s1,
        c1,
        length f.payload,
        next,
        w.0.not_empty,
        omega (arith, len, at, w.0.not_empty),
        record {
          frames = fs;
          valid = record { pos_le = omega (arith, len, at); len_le = omega (arith, len, w.0.fits) };
          well_formed = w.1;
          wire = p1;
          content =
              ap (λ l. l ++ payloads fs)
                (ap₂ (slice c1.chunk_buf) at (omega (arith, len, at)) ∙ shown)
              ∙ e;
        },
      )

  -- On a stream of chunks that still holds a byte, `fgetc` returns that byte as a signed `char`, and
  -- leaves the bytes behind it to be read.
  pub fgetc-delivers :
      (s : S) (c : Chunk) (tail : List ℕ) (b : ℕ) (bytes : List ℕ)
      → Holds io st s c tail (b ∷ bytes)
      → (s' : S) × (c' : Chunk) × (fgetc io (record { socket = some s; chunk = c })
          ≡ (char_to_int b, record { socket = some s'; chunk = c' }))
        × Holds io st s' c' tail bytes
  unfolding fgetc
  fgetc-delivers s c tail b bytes v =
      let rest : sub_size c.chunk_len c.chunk_pos ≡ c.chunk_len - c.chunk_pos =
        omega (arith, v.valid.pos_le, v.valid.len_le) in
      elim (dec_lt c.chunk_pos c.chunk_len) [
        | yes h ↦
            let (c1, char, later) = next_char-delivers s c tail b bytes v h in
            (s, c1, fgetc_now _ (omega (arith, rest)) ∙ char, later)
        | no h ↦
            let gone =
              slice-nil c.chunk_buf c.chunk_pos (c.chunk_len - c.chunk_pos) (omega arith) in
            let (s1, c1, n, next, more, there, v1) =
              refilled s c tail b bytes v.frames v.well_formed v.wire
                (ap (λ l. l ++ payloads v.frames) (sym gone) ∙ v.content) in
            let (c2, char, later) = next_char-delivers s1 c1 tail b bytes v1 there in
            (
              s1,
              c2,
              fgetc_next (record { socket = some s; chunk = c })
                    (record { socket = some s1; chunk = c1 }) n (omega (arith, rest)) next more
                  ∙ char,
              later,
            )
      ]
