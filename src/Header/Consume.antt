-- ===== src/Header/Consume.antt =====
-- What `readHttpHeader` takes from the stream, and that it returns.
use r_exasol.Base.{
  All, List, [], ap, append_assoc, ap₂, arith, false, length, length-append, le→ltb_false, lt→ltb,
  ne→==_false, ok, some, suc, true, zero, ℕ, ◌++◌, ◌+◌, ◌-◌, ◌<◌, ◌==◌, ◌∙◌, ◌∷◌, ◌≡◌, ◌≢◌, ◌≤◌,
}
use r_exasol.Socket.{SocketOps, Streams}
use r_exasol.Socket.Stream.{recv_byte}
use r_exasol.Chunk.{Memory, put}
use r_exasol.Header.{ends_line, header_loop, read_http_header}

-- A line of a header without its end: not empty, without a line feed, and short enough for the
-- array.
abbrev pub IsLine : List ℕ → Type 0
IsLine l = (0 < length l) × (length l ≤ 4093) × All (λ b. b ≢ b'\n') l

abbrev pub line_end : List ℕ
line_end = b'\r' ∷ b'\n' ∷ []

-- The bytes of a header: its lines, each with its end, and an empty line.
abbrev pub header_bytes : List (List ℕ) → List ℕ
header_bytes [] = line_end
header_bytes (l ∷ ls) = l ++ (line_end ++ header_bytes ls)

header_bytes-pos : (ls : List (List ℕ)) → 2 ≤ length (header_bytes ls)
header_bytes-pos [] = omega arith
header_bytes-pos (l ∷ ls) = omega (arith, length-append l (line_end ++ header_bytes ls))

-- Only a line feed ends a line.
ends_line-byte : (line : Memory) (at byte : ℕ) → byte ≢ b'\n' → ends_line line at byte ≡ false
unfolding ends_line
ends_line-byte line at byte h = rw (ne→==_false byte b'\n' h)

ends_line-end :
    (line : Memory) (at : ℕ) → 0 < at → line (at - 1) ≡ b'\r' → ends_line line at b'\n' ≡ true
unfolding ends_line
ends_line-end line at h e =
    let back : at + 1 - 2 ≡ at - 1 = omega arith in rw (back, e, lt→ltb 1 (at + 1) (omega arith))

return_kept :
    (line : Memory) (at : ℕ)
    → put (put (put (put line at b'\r') (at + 1) 0) (at + 1) b'\n') (at + 1 + 1) 0 (at + 1 - 1)
      ≡ b'\r'
unfolding put
return_kept line at = ground arith

module _ {S : Type 0} (io : SocketOps S) (st : Streams io) where
  -- One round over a byte that ends no line.
  header_loop-byte :
      (fuel at b : ℕ) (line : Memory) (s : S) (rest : List ℕ)
      → st.pending s ≡ b ∷ rest
      → at ≤ 4094
      → ends_line (put (put line at b) (at + 1) 0) at b ≡ false
      → (s' : S) × (header_loop io (suc fuel) at line s
          ≡ header_loop io fuel (at + 1) (put (put line at b) (at + 1) 0) s')
        × (st.pending s' ≡ rest)
  unfolding header_loop
  header_loop-byte fuel at b line s rest e h no_end =
      let (now, later) = recv_byte io st s b rest e in
      ((io.recv s 1).1, rw (le→ltb_false 4094 at h, now, no_end, header_loop), later)

  -- The bytes of a line.
  header_loop-line :
      (l : List ℕ) (n fuel at : ℕ) (line : Memory) (s : S) (rest : List ℕ)
      → n ≡ length l + fuel
      → st.pending s ≡ l ++ rest
      → All (λ b. b ≢ b'\n') l
      → at + length l ≤ 4095
      → (line' : Memory) × (s' : S) × (header_loop io n at line s
          ≡ header_loop io fuel (at + length l) line' s')
        × (st.pending s' ≡ rest)
  header_loop-line [] n fuel at line s rest e p h b =
      (line, s, ap₂ (λ k i. header_loop io k i line s) (omega arith) (omega arith), p)
  header_loop-line (x ∷ l) zero fuel at line s rest e p h b = absurd (omega arith)
  header_loop-line (x ∷ l) (suc n) fuel at line s rest e p h b =
      let line1 = put (put line at x) (at + 1) 0 in
      let (s1, step, p1) =
        header_loop-byte n at x line s (l ++ rest) p (omega arith)
          (ends_line-byte line1 at x h.0) in
      let (line2, s2, steps, p2) =
        header_loop-line l n fuel (at + 1) line1 s1 rest (omega arith) p1 h.1 (omega arith) in
      (line2, s2, step ∙ steps ∙ ap (λ k. header_loop io fuel k line2 s2) (omega arith), p2)

  -- The end of a line: the header's end, if the line is empty.
  header_loop-end :
      (fuel at : ℕ) (line : Memory) (s : S) (rest : List ℕ)
      → st.pending s ≡ line_end ++ rest
      → at ≤ 4093
      → (line' : Memory) × (s' : S) × (header_loop io (suc (suc fuel)) at line s
          ≡ (elim (at + 1 + 1 == 2) [
            | true ↦ some (ok tt, line', s')
            | false ↦ header_loop io fuel 0 (put line' 0 0) s'
          ]))
        × (st.pending s' ≡ rest)
  unfolding header_loop
  header_loop-end fuel at line s rest p h =
      let line1 = put (put line at b'\r') (at + 1) 0 in
      let line2 = put (put line1 (at + 1) b'\n') (at + 1 + 1) 0 in
      let (s1, step, p1) =
        header_loop-byte (suc fuel) at b'\r' line s (b'\n' ∷ rest) p (omega arith)
          (ends_line-byte line1 at b'\r' (omega arith)) in
      let (now, later) = recv_byte io st s1 b'\n' rest p1 in
      let ends = ends_line-end line2 (at + 1) (omega arith) (return_kept line at) in
      (
        line2,
        (io.recv s1 1).1,
        step ∙ rw (le→ltb_false 4094 (at + 1) (omega arith), now, ends, header_loop),
        later,
      )

  from_start :
      (ls : List (List ℕ)) (fuel : ℕ) (line : Memory) (s : S) (rest : List ℕ)
      → st.pending s ≡ header_bytes ls ++ rest
      → All IsLine ls
      → length (header_bytes ls) ≤ fuel
      → (line' : Memory) × (s' : S) × (header_loop io fuel 0 line s ≡ some (ok tt, line', s'))
        × (st.pending s' ≡ rest)
  from_start [] zero line s rest p h f = absurd (omega arith)
  from_start [] (suc zero) line s rest p h f = absurd (omega arith)
  from_start [] (suc (suc fuel)) line s rest p h f =
      let (line1, s1, step, p1) = header_loop-end fuel 0 line s rest p (omega arith) in
      (line1, s1, step, p1)
  from_start (l ∷ ls) fuel line s rest p h f =
      let len = length-append l (line_end ++ header_bytes ls) in
      let left : ℕ = fuel - length l - 2 in
      let after = line_end ++ (header_bytes ls ++ rest) in
      let (line1, s1, steps, p1) =
        header_loop-line l fuel (suc (suc left)) 0 line s after (omega (arith, len))
          (p ∙ append_assoc l (line_end ++ header_bytes ls) rest) h.0.2 (omega (arith, h.0.1)) in
      let (line2, s2, step, p2) =
        header_loop-end left (0 + length l) line1 s1 (header_bytes ls ++ rest) p1
          (omega (arith, h.0.1)) in
      let (line3, s3, done, p3) =
        from_start ls left (put line2 0 0) s2 rest p2 h.1 (omega (arith, len)) in
      let more = ne→==_false (0 + length l + 1 + 1) 2 (omega (arith, h.0.0)) in
      (line3, s3, steps ∙ step ∙ rw more done, p3)

  -- From a stream that begins with a header of well-formed lines and an empty one, `readHttpHeader`
  -- takes the header and nothing else. Fuel for each of the header's bytes is enough.
  pub read_http_header-consumes :
      (ls : List (List ℕ)) (fuel : ℕ) (line : Memory) (s : S) (rest : List ℕ)
      → st.pending s ≡ header_bytes ls ++ rest
      → All IsLine ls
      → length (header_bytes ls) ≤ fuel
      → (line' : Memory) × (s' : S) × (read_http_header io fuel line s ≡ some (ok tt, line', s'))
        × (st.pending s' ≡ rest)
  unfolding read_http_header
  read_http_header-consumes ls fuel line s rest p h f =
      from_start ls fuel (put line 0 0) s rest p h f
