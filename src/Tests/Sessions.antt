-- ===== src/Tests/Sessions.antt =====
-- Whole transfers at small inputs.
use r_exasol.Base.{List, [], arith, char_to_int, codes, map, ok, pos, refl, some, ℕ, ◌++◌, ◌∷◌, ◌≡◌}
use r_exasol.Chunk.{Memory, Chunk, slice}
use r_exasol.Socket.Loopback.{loopback, loopback-Streams, loopback-Accepts}
use r_exasol.Answers.{reader_ok_answer, writer_ok_answer}
use r_exasol.Header.Consume.{header_bytes}
use r_exasol.Reader
use r_exasol.Reader.{Reader, start, pipe_read}
use r_exasol.Reader.Deliver.{Holds}
use r_exasol.Reader.Session.{read_pieces, read_pieces-import}
use r_exasol.Reader.Chars.{read_chars, read_chars-pipe_read}
use r_exasol.Writer
use r_exasol.Writer.{Writer, pipe_fflush}
use r_exasol.Writer.Session.{Piece, write_all, write_all-export}
use r_exasol.Tests.Transfer.{
  blank, fresh, frame, last_line, tail, wire, letters, frame-IsFrame, last_line-IsLast, fresh-Holds,
}

abbrev request : List (List ℕ)
request = codes "PUT / HTTP/1.1" ∷ []

abbrev sent_before : List ℕ
sent_before = header_bytes request ++ wire

read_pieces-import_example :
    (line dest : Memory) × (r1 r2 : Reader (List ℕ)) × (s : List ℕ) × (c : Chunk) × (start loopback
        30 blank
        (Reader.create (some sent_before) fresh)
      ≡ some (ok tt, line, r1))
    × (read_pieces loopback blank (1 ∷ 1 ∷ []) r1 ≡ some (codes "ab", r2))
    × (pipe_read loopback blank 1 9 r2
        ≡ some (1, dest, record { socket = some (s ++ reader_ok_answer); chunk = c }))
    × (slice dest 0 1 ≡ codes "c")
read_pieces-import_example =
    read_pieces-import loopback loopback-Streams request (frame ∷ []) last_line [] sent_before fresh
      30 blank blank (1 ∷ 1 ∷ []) 9 refl (omega arith) (frame-IsFrame, tt) last_line-IsLast
      (omega arith) (omega arith) (omega arith) (omega arith)

read_chars-pipe_read_example :
    (dest : Memory) × (s1 s2 : List ℕ) × (c1 c2 : Chunk) × (pipe_read loopback blank 1 2
        (record { socket = some wire; chunk = fresh })
      ≡ some (2, dest, record { socket = some s1; chunk = c1 }))
    × (read_chars loopback 2 (record { socket = some wire; chunk = fresh })
        ≡ (map char_to_int (slice dest 0 2), record { socket = some s2; chunk = c2 }))
    × Holds loopback loopback-Streams s1 c1 tail (codes "c")
    × Holds loopback loopback-Streams s2 c2 tail (codes "c")
read_chars-pipe_read_example =
    read_chars-pipe_read loopback loopback-Streams 2 blank wire fresh tail (codes "abc") fresh-Holds
      (omega arith) (omega arith)

abbrev two_pieces : List Piece
two_pieces = record { source = letters; size = 2 } ∷ record { source = letters; size = 1 } ∷ []

write_all-export_example :
    (w w' : Writer (List ℕ)) × (s : List ℕ) × (write_all loopback two_pieces
        (Writer.create (some []) fresh)
      ≡ some w)
    × (pipe_fflush loopback w ≡ (pos 0, w'))
    × (w'.socket ≡ some s)
    × (w'.chunk.chunk_len ≡ 0)
    × (s ≡ [] ++ (writer_ok_answer ++ codes "aba"))
unfolding slice
write_all-export_example =
    write_all-export loopback loopback-Accepts two_pieces [] fresh (omega arith) (omega arith)
