-- ===== src/Reader/Deliver.antt =====
-- What a client gets from a stream of chunks: their bytes, in order and once.
use r_exasol.Base.{
  All, Bool-cases, List, Option, [], add_size, ap, append_assoc, ap₂, arith, drop, drop-append_ge,
  drop-append_le, false, inl, inr, is_neg, leb, leb_false→lt, leb→le, length, length-append, le→leb,
  ne→==_false, pos, refl, some, suc, sym, take, take-append_ge, take-append_le, zero, ℕ, ℤ, ◌++◌,
  ◌+◌, ◌-◌, ◌<◌, ◌==◌, ◌∙◌, ◌∷◌, ◌≡◌, ◌≤◌, ◌⊎◌,
}
use r_exasol.Socket.{SocketOps, Streams}
use r_exasol.Chunk.{Memory, Chunk, store, slice}
use r_exasol.Chunk.Memory.{length-slice, slice-store_front, take-slice, drop-slice}
use r_exasol.Reader.{Reader, read_next_chunk, is_zero, read_loop}
use r_exasol.Reader.Bounds.{IsValid}
use r_exasol.Reader.Decode.{Frame, IsFrame, frame_bytes, read_next_chunk-frame}

-- The received bytes that the client has not read.
abbrev pub unread : Chunk → List ℕ
unread c = slice c.chunk_buf c.chunk_pos (c.chunk_len - c.chunk_pos)

abbrev pub wire_bytes : List Frame → List ℕ
wire_bytes [] = []
wire_bytes (f ∷ fs) = frame_bytes f ++ wire_bytes fs

abbrev pub payloads : List Frame → List ℕ
payloads [] = []
payloads (f ∷ fs) = f.payload ++ payloads fs

module _ {S : Type 0} (io : SocketOps S) (st : Streams io) where
  -- The client's view of a reader: the bytes that it may still read, from the chunk and from the
  -- frames that the stream holds before `tail`.
  pub record Holds (s : S) (c : Chunk) (tail bytes : List ℕ) : Type 0 where
    pub frames : List Frame
    pub valid : IsValid c
    pub well_formed : All IsFrame frames
    pub wire : st.pending s ≡ wire_bytes frames ++ tail
    pub content : unread c ++ payloads frames ≡ bytes

  -- What the loop has delivered when it stops.
  pub record Delivers (tail : List ℕ) (dest : Memory) (at len : ℕ) (bytes : List ℕ)
      (out : Option (ℤ × Memory × Reader S)) : Type 0 where
    pub buffer : Memory
    pub socket : S
    pub chunk : Chunk
    pub stops : out ≡ some (pos (at + len), buffer, record { socket = some socket; chunk = chunk })
    pub copied : slice buffer 0 (at + len) ≡ slice dest 0 at ++ take len bytes
    pub rest : Holds socket chunk tail (drop len bytes)

  -- The last round: the chunk has all that is still wanted.
  from_chunk :
      (tail : List ℕ) (dest : Memory) (at len : ℕ) (s : S) (c : Chunk) (fs : List Frame)
      → IsValid c
      → All IsFrame fs
      → st.pending s ≡ wire_bytes fs ++ tail
      → len ≤ c.chunk_len - c.chunk_pos
      → Delivers tail dest at len (unread c ++ payloads fs) (
          some (
            pos (at + len),
            store dest at (slice c.chunk_buf c.chunk_pos len),
            record { socket = some s; chunk = record c { chunk_pos = add_size c.chunk_pos len } },
          ))
  from_chunk tail dest at len s c fs v w p h =
      let piece = slice c.chunk_buf c.chunk_pos len in
      let n : ℕ = c.chunk_len - c.chunk_pos in
      let all = length-slice c.chunk_buf c.chunk_pos n in
      let one = length-slice c.chunk_buf c.chunk_pos len in
      let moved : add_size c.chunk_pos len ≡ c.chunk_pos + len =
        omega (arith, v.pos_le, v.len_le) in
      record {
        buffer = store dest at piece;
        socket = s;
        chunk = record c { chunk_pos = add_size c.chunk_pos len };
        stops = refl;
        copied =
            ap (λ k. slice (store dest at piece) 0 (at + k)) (sym one)
            ∙ slice-store_front dest at piece
            ∙ ap (◌++◌ (slice dest 0 at)) (
                sym (take-slice c.chunk_buf c.chunk_pos len n h)
                ∙ sym (take-append_le len (unread c) (payloads fs) (omega (arith, all))));
        rest = record {
          frames = fs;
          valid = record { pos_le = omega (arith, v.pos_le, moved); len_le = v.len_le };
          well_formed = w;
          wire = p;
          content = rw moved (
              ap (λ l. l ++ payloads fs)
                (sym (
                  drop-slice c.chunk_buf c.chunk_pos len n (c.chunk_len - (c.chunk_pos + len))
                    (omega arith)))
              ∙ sym (drop-append_le len (unread c) (payloads fs) (omega (arith, all))));
        };
      }

  -- A round that needs the next chunk.
  pub read_loop-round :
      (fuel : ℕ) (dest : Memory) (at rest_chunk len : ℕ) (r : Reader S) (n : ℕ) (r' : Reader S)
      → leb len rest_chunk ≡ false
      → (n == 0) ≡ false
      → read_next_chunk io r ≡ (pos n, r')
      → read_loop io (suc fuel) dest at rest_chunk len r
        ≡ read_loop io fuel
            (store dest at (slice r.chunk.chunk_buf r.chunk.chunk_pos rest_chunk))
            (at + rest_chunk)
            r'.chunk.chunk_len
            (len - rest_chunk)
            r'
  unfolding read_loop
  read_loop-round fuel dest at rest_chunk len r n r' t z next =
      let going : is_zero (read_next_chunk io r).0 ≡ false = ap (λ o. is_zero o.0) next ∙ z in
      let fine : is_neg (read_next_chunk io r).0 ≡ false = ap (λ o. is_neg o.0) next in
      rw (t, going, fine, read_loop)
        (ap
          (λ (o : ℤ × Reader S).
            read_loop io fuel (store dest at (slice r.chunk.chunk_buf r.chunk.chunk_pos rest_chunk))
              (at + rest_chunk) o.1.chunk.chunk_len (len - rest_chunk) o.1)
          next)

  -- The client's bytes of an earlier round, and of the later ones.
  joined :
      (before unread_bytes more : List ℕ) (len n : ℕ)
      → length unread_bytes ≡ n
      → n ≤ len
      → (before ++ unread_bytes) ++ take (len - n) more ≡ before ++ take len (unread_bytes ++ more)
  joined before unread_bytes more len n e h =
      append_assoc before unread_bytes (take (len - n) more)
      ∙ ap (◌++◌ before) (
          ap (λ k. unread_bytes ++ take (len - k) more) (sym e)
          ∙ sym (take-append_ge len unread_bytes more (omega (arith, e))))

  earlier_Delivers :
      (tail : List ℕ) (dest : Memory) (at len n : ℕ) (piece more : List ℕ)
      (out : Option (ℤ × Memory × Reader S))
      → length piece ≡ n
      → n ≤ len
      → Delivers tail (store dest at piece) (at + n) (len - n) more out
      → Delivers tail dest at len (piece ++ more) out
  earlier_Delivers tail dest at len n piece more out e h v =
      let sum : at + n + (len - n) ≡ at + len = omega arith in
      record {
        buffer = v.buffer;
        socket = v.socket;
        chunk = v.chunk;
        stops = rw (← sum) v.stops;
        copied = rw (← sum) (
            v.copied
            ∙ ap (λ l. l ++ take (len - n) more)
                (ap (λ k. slice (store dest at piece) 0 (at + k)) (sym e)
                  ∙ slice-store_front dest at piece)
            ∙ joined (slice dest 0 at) piece more len n e h);
        rest =
            let skip : drop len (piece ++ more) ≡ drop (len - n) more =
              drop-append_ge len piece more (omega (arith, e)) ∙ ap (λ k. drop (len - k) more) e in
            rw skip v.rest;
      }

  restart :
      (fuel : ℕ) (tail : List ℕ) (dest : Memory) (at len : ℕ) (s : S) (c : Chunk) (fs : List Frame)
      (k : ℕ) (bytes : List ℕ)
      → c.chunk_len - c.chunk_pos ≡ k
      → unread c ≡ bytes
      → Delivers tail dest at len (unread c ++ payloads fs) (
          read_loop io fuel dest at
            (c.chunk_len - c.chunk_pos)
            len
            (record { socket = some s; chunk = c }))
      → Delivers tail dest at len
          (bytes ++ payloads fs)
          (read_loop io fuel dest at k len (record { socket = some s; chunk = c }))
  restart fuel tail dest at len s c fs k bytes e now v = rw (← e, ← now) v

  pub read_loop-Delivers :
      (fuel : ℕ) (tail : List ℕ) (dest : Memory) (at len : ℕ) (s : S) (c : Chunk) (fs : List Frame)
      → IsValid c
      → All IsFrame fs
      → st.pending s ≡ wire_bytes fs ++ tail
      → len ≤ length (unread c ++ payloads fs)
      → (len + 1 < fuel) ⊎ ((len < fuel) × (0 < c.chunk_len - c.chunk_pos))
      → Delivers tail dest at len (unread c ++ payloads fs) (
          read_loop io fuel dest at
            (c.chunk_len - c.chunk_pos)
            len
            (record { socket = some s; chunk = c }))
  unfolding read_loop
  read_loop-Delivers zero tail dest at len s c fs v w p b h = absurd (omega arith)
  read_loop-Delivers (suc fuel) tail dest at len s c [] v w p b h =
      let fits : len ≤ c.chunk_len - c.chunk_pos = omega (
        arith,
        length-append (unread c) [],
        length-slice c.chunk_buf c.chunk_pos (c.chunk_len - c.chunk_pos),
      ) in
      rw (le→leb len (c.chunk_len - c.chunk_pos) fits, read_loop)
        (from_chunk tail dest at len s c [] v w p fits)
  read_loop-Delivers (suc fuel) tail dest at len s c (f ∷ fs) v w p b h =
      elim (Bool-cases (leb len (c.chunk_len - c.chunk_pos))) [
        | inl t ↦
            rw (t, read_loop)
              (from_chunk tail dest at len s c (f ∷ fs) v w p
                (leb→le len (c.chunk_len - c.chunk_pos) t))
        | inr t ↦
            let n : ℕ = c.chunk_len - c.chunk_pos in
            let less = leb_false→lt len n t in
            let all = length-slice c.chunk_buf c.chunk_pos n in
            let dest' = store dest at (unread c) in
            let (s1, c1, next, len1, at1, shown, p1) =
              read_next_chunk-frame io st f s c (wire_bytes fs ++ tail) w.0
                (p ∙ append_assoc (frame_bytes f) (wire_bytes fs) tail) in
            let more = ne→==_false (length f.payload) 0 (omega (arith, w.0.not_empty)) in
            let start : c1.chunk_len - c1.chunk_pos ≡ c1.chunk_len = omega (arith, at1) in
            let now : unread c1 ≡ f.payload =
              ap₂ (slice c1.chunk_buf) at1 (omega (arith, len1, at1)) ∙ shown in
            let later =
              read_loop-Delivers fuel tail dest' (at + n) (len - n) s1 c1 fs
                (record {
                  pos_le = omega (arith, len1, at1);
                  len_le = omega (arith, len1, w.0.fits);
                })
                w.1 p1 (rw now (omega (arith, length-append (unread c) (f.payload ++ payloads fs))))
                (inr (omega arith, omega (arith, len1, at1, w.0.not_empty))) in
            rw
              (read_loop-round fuel dest at n len (record { socket = some s; chunk = c })
                (length f.payload) (record { socket = some s1; chunk = c1 }) t more next)
              (earlier_Delivers tail dest at len n (unread c) (f.payload ++ payloads fs) _ all
                (omega arith)
                (restart fuel tail dest' (at + n) (len - n) s1 c1 fs c1.chunk_len f.payload start
                  now later))
      ]
