-- ===== src/Reader/Session.antt =====
-- A whole import: R starts the reader, reads in pieces, and reads on to the end.
use mathlib.Core.Path.{subst}
use r_exasol.Base.{
  All, List, Option, [], ap, arith, drop, drop-drop, length, length-drop, none, ok, pos, refl,
  size_mod, some, sym, take, take-drop, ℕ, ◌%◌, ◌*◌, ◌++◌, ◌+◌, ◌-◌, ◌<◌, ◌∙◌, ◌∷◌, ◌≡◌, ◌≤◌,
}
use r_exasol.Socket.{SocketOps, Streams}
use r_exasol.Chunk.{Memory, Chunk, slice, reset}
use r_exasol.Answers.{reader_ok_answer}
use r_exasol.Header.{read_http_header}
use r_exasol.Header.Consume.{IsLine, header_bytes, read_http_header-consumes}
use r_exasol.Reader
use r_exasol.Reader.{Reader, start, items, read_next, pipe_read}
use r_exasol.Reader.Line.{line_end}
use r_exasol.Reader.Decode.{Frame, IsFrame}
use r_exasol.Reader.Deliver.{wire_bytes, payloads, Holds}
use r_exasol.Reader.Client.{items-all, pipe_read-delivers}
use r_exasol.Reader.End.{IsLast, read_next-ends}

abbrev pub total : List ℕ → ℕ
total [] = 0
total (n ∷ ns) = n + total ns

module _ {S : Type 0} (io : SocketOps S) where
  -- Reads of the given lengths into the same buffer, and all that they copy to it.
  unfoldable pub read_pieces : Memory → List ℕ → Reader S → Option (List ℕ × Reader S)
  read_pieces dest [] r = some ([], r)
  read_pieces dest (n ∷ ns) r = elim (pipe_read io dest 1 n r) [
    | none ↦ none
    | some (k, dest', r') ↦ elim (read_pieces dest' ns r') [
      | none ↦ none
      | some (bs, r'') ↦ some (slice dest' 0 k ++ bs, r'')
    ]
  ]

  module _ (st : Streams io) where
    -- What all reads have done.
    record Copied (dest : Memory) (ns : List ℕ) (s : S) (c : Chunk) (tail bytes : List ℕ)
        : Type 0 where
      socket : S
      chunk : Chunk
      stops :
          read_pieces dest ns (record { socket = some s; chunk = c })
          ≡ some (take (total ns) bytes, record { socket = some socket; chunk = chunk })
      rest : Holds io st socket chunk tail (drop (total ns) bytes)

    one_more :
        (dest dest' : Memory) (n : ℕ) (ns : List ℕ) (r r' r'' : Reader S) (k : ℕ) (bs : List ℕ)
        → pipe_read io dest 1 n r ≡ some (k, dest', r')
        → read_pieces dest' ns r' ≡ some (bs, r'')
        → read_pieces dest (n ∷ ns) r ≡ some (slice dest' 0 k ++ bs, r'')
    unfolding read_pieces
    one_more dest dest' n ns r r' r'' k bs e later = rw (e, read_pieces) (rw later refl)

    read_pieces-Copied :
        (dest : Memory) (ns : List ℕ) (s : S) (c : Chunk) (tail bytes : List ℕ)
        → Holds io st s c tail bytes
        → total ns < size_mod
        → total ns ≤ length bytes
        → Copied dest ns s c tail bytes
    unfolding read_pieces
    read_pieces-Copied dest [] s c tail bytes v b h = record {
      socket = s;
      chunk = c;
      stops = refl;
      rest = v;
    }
    read_pieces-Copied dest (n ∷ ns) s c tail bytes v b h =
        let one : 1 * n ≡ n = omega arith in
        let (dest', s1, c1, read, copied, v1) =
          pipe_read-delivers io st dest 1 n s c tail bytes v (omega arith) (omega arith)
            (omega arith) in
        let left = length-drop n bytes in
        let later =
          read_pieces-Copied dest' ns s1 c1 tail (drop n bytes)
            (subst (λ k. Holds io st s1 c1 tail (drop k bytes)) one v1) (omega arith)
            (omega (arith, left)) in
        record {
          socket = later.socket;
          chunk = later.chunk;
          stops =
              one_more dest dest' n ns (record { socket = some s; chunk = c })
                (record { socket = some s1; chunk = c1 })
                (record { socket = some later.socket; chunk = later.chunk }) n
                (take (total ns) (drop n bytes)) read later.stops
              ∙ ap (λ bs. some (bs, record { socket = some later.socket; chunk = later.chunk }))
                  (ap (λ l. l ++ take (total ns) (drop n bytes))
                      (ap (slice dest' 0) (sym one) ∙ copied ∙ ap (λ k. take k bytes) one)
                    ∙ take-drop n (total ns) bytes);
          rest =
              subst (Holds io st later.socket later.chunk tail) (drop-drop n (total ns) bytes)
                later.rest;
        }

    start-ok :
        (fuel : ℕ) (line line' : Memory) (s s' : S) (c : Chunk)
        → read_http_header io fuel line s ≡ some (ok tt, line', s')
        → start io fuel line (record { socket = some s; chunk = c })
          ≡ some (ok tt, line', record { socket = some s'; chunk = c })
    unfolding start
    start-ok fuel line line' s s' c e = rw (e, start) refl

    read_to_end :
        (dest : Memory) (n : ℕ) (s : S) (c : Chunk) (l rest bytes : List ℕ)
        → Holds io st s c (l ++ (line_end ++ rest)) bytes
        → IsLast l
        → length bytes < n
        → n < size_mod
        → (dest' : Memory) × (s1 : S) × (c' : Chunk) × (pipe_read io dest 1 n
              (record { socket = some s; chunk = c })
            ≡ some (
              length bytes,
              dest',
              record { socket = some (io.shutdown_wr (io.send s1 reader_ok_answer).1); chunk = c' },
            ))
          × (slice dest' 0 (length bytes) ≡ bytes)
    unfolding pipe_read
    read_to_end dest n s c l rest bytes v last h b =
        let (dest', s1, c', read, copied) = read_next-ends io st dest n s c l rest bytes v last h in
        let one : 1 * n % size_mod ≡ n = omega arith in
        let some_items = items-all 1 (length bytes) (omega arith) (omega arith) in
        let same : 1 * length bytes ≡ length bytes = omega arith in
        let count : items 1 (pos (length bytes)) ≡ length bytes =
          ap (λ k. items 1 (pos k)) (sym same) ∙ some_items in
        (dest', s1, c', rw (one, read, count, pipe_read) refl, copied)

    -- Where the stream of a socket is a header of well-formed lines, well-formed chunks and a chunk of
    -- size 0, a reader on it starts, and reads of any lengths, no more than the chunks have together,
    -- return the bytes of the chunks in their order, however the reads and the chunks are cut. A read
    -- of more than is then left returns all that is left, and has the server answered and the socket
    -- closed for writing.
    pub read_pieces-import :
        (ls : List (List ℕ)) (fs : List Frame) (l after : List ℕ) (s : S) (c : Chunk) (fuel : ℕ)
        (line dest : Memory) (ns : List ℕ) (n : ℕ)
        → st.pending s ≡ header_bytes ls ++ (wire_bytes fs ++ (l ++ (line_end ++ after)))
        → All IsLine ls
        → All IsFrame fs
        → IsLast l
        → length (header_bytes ls) ≤ fuel
        → total ns ≤ length (payloads fs)
        → length (payloads fs) - total ns < n
        → total ns + n < size_mod
        → (line' dest' : Memory) × (r1 r2 : Reader S) × (s' : S) × (c' : Chunk) × (start io fuel
              line
              (Reader.create (some s) c)
            ≡ some (ok tt, line', r1))
          × (read_pieces dest ns r1 ≡ some (take (total ns) (payloads fs), r2))
          × (pipe_read io dest 1 n r2
              ≡ some (
                length (payloads fs) - total ns,
                dest',
                record {
                  socket = some (io.shutdown_wr (io.send s' reader_ok_answer).1);
                  chunk = c';
                },
              ))
          × (slice dest' 0 (length (payloads fs) - total ns) ≡ drop (total ns) (payloads fs))
    unfolding Reader.create reset slice
    read_pieces-import ls fs l after s c fuel line dest ns n p header frames last f h k b =
        let tail = l ++ (line_end ++ after) in
        let (line', s1, consumed, p1) =
          read_http_header-consumes io st ls fuel line s (wire_bytes fs ++ tail) p header f in
        let v : Holds io st s1 (reset c) tail (payloads fs) = record {
          frames = fs;
          valid = record { pos_le = omega arith; len_le = omega arith };
          well_formed = frames;
          wire = p1;
          content = refl;
        } in
        let made = read_pieces-Copied dest ns s1 (reset c) tail (payloads fs) v (omega arith) h in
        let left = length-drop (total ns) (payloads fs) in
        let (dest', s2, c2, read, copied) =
          read_to_end dest n made.socket made.chunk l after (drop (total ns) (payloads fs))
            made.rest last (omega (arith, left)) (omega arith) in
        (
          line',
          dest',
          record { socket = some s1; chunk = reset c },
          record { socket = some made.socket; chunk = made.chunk },
          s2,
          c2,
          start-ok fuel line line' s s1 (reset c) consumed,
          made.stops,
          read
              ∙ ap
                  (λ i. some (
                    i,
                    dest',
                    record {
                      socket = some (io.shutdown_wr (io.send s2 reader_ok_answer).1);
                      chunk = c2;
                    },
                  ))
                  left,
          ap (slice dest' 0) (sym left) ∙ copied,
        )
