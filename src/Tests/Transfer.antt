-- ===== src/Tests/Transfer.antt =====
-- The reader and the writer at small inputs, over a socket in memory.
use r_exasol.Base.{
  List, [], arith, char_to_int, codes, false, minus_one, pos, refl, some, to_size, true, ℕ, ◌++◌,
  ◌+◌, ◌-◌, ◌<◌, ◌∷◌, ◌≡◌, ◌≤◌, ◌⊎◌,
}
use r_exasol.Chunk.{Memory, Chunk, slice, max_http_chunk_size}
use r_exasol.Socket.Loopback.{loopback, loopback-IsBounded, loopback-Streams, loopback-Accepts}
use r_exasol.Answers.{reader_ok_answer}
use r_exasol.Hex.{digit_value, scan_digits}
use r_exasol.Writer
use r_exasol.Writer.{Writer, pipe_write, pipe_fflush}
use r_exasol.Writer.Invariant.{pipe_write-IsValid}
use r_exasol.Writer.Flush.{held_back, emptied}
use r_exasol.Writer.Stream.{pipe_write-stream, pipe_fflush-stream}
use r_exasol.Reader.{Reader, read_next_chunk, read_next, pipe_read, fgetc}
use r_exasol.Reader.Bounds.{IsValid, Next, InBuffer, read_next_chunk-Next}
use r_exasol.Reader.Loop.{pipe_read-IsValid, fgetc-IsValid}
use r_exasol.Reader.Line.{line_end}
use r_exasol.Reader.Decode.{Frame, IsFrame, frame_bytes, read_next_chunk-frame}
use r_exasol.RConnection.{RConnection, create_reading, release, hook_read, hook_fgetc}
use r_exasol.RConnection.Release.{hook_read-delivers}
use r_exasol.Reader.Deliver.{Holds}
use r_exasol.Reader.Client.{pipe_read-delivers, fgetc-delivers}
use r_exasol.Reader.End.{IsLast, read_next-ends}

abbrev pub blank : Memory
blank = λ _. 0

abbrev pub fresh : Chunk
fresh = record { chunk_len = 0; chunk_pos = 0; chunk_buf = blank; chunk_num = 0 }

-- Five bytes are buffered, and a chunk was sent before.
abbrev buffered : Chunk
buffered = record { chunk_len = 5; chunk_pos = 0; chunk_buf = λ i. i; chunk_num = 1 }

abbrev pub letters : Memory
letters = λ i. 97 + i

pipe_write-IsValid_example :
    (r : ℕ) × (w' : Writer (List ℕ)) × (pipe_write loopback letters 1 4
        (record { socket = some []; chunk = buffered })
      ≡ some (r, w'))
    × Writer.Invariant.IsValid w'.chunk
    × Writer.Invariant.InBuffer buffered w'.chunk
    × ((r ≤ 4) ⊎ (r ≡ to_size minus_one))
pipe_write-IsValid_example =
    pipe_write-IsValid loopback letters 1 4 (record { socket = some []; chunk = buffered })
      (omega arith)

pipe_write-stream_example :
    (r : ℕ) × (s' : List ℕ) × (c' : Chunk) × (pipe_write loopback letters 2 2
        (record { socket = some []; chunk = buffered })
      ≡ some (r, record { socket = some s'; chunk = c' }))
    × (s' ++ held_back c' ≡ ([] ++ held_back buffered) ++ slice letters 0 4)
    × (c'.chunk_len ≤ max_http_chunk_size)
    × (c'.chunk_num ≤ 7)
    × (9 ≤ max_http_chunk_size → r ≡ 4)
    × (max_http_chunk_size < 9 → r + (max_http_chunk_size - 5) ≤ 4)
pipe_write-stream_example =
    pipe_write-stream loopback loopback-Accepts letters 2 2 [] buffered (omega arith) (omega arith)

pipe_fflush-stream_example :
    (s' : List ℕ) × (pipe_fflush loopback (record { socket = some []; chunk = buffered })
      ≡ (pos 0, record { socket = some s'; chunk = emptied buffered }))
    × (s' ≡ [] ++ held_back buffered)
pipe_fflush-stream_example =
    pipe_fflush-stream loopback loopback-Accepts [] buffered (omega arith) (omega arith)

abbrev pub frame : Frame
frame = record { size_line = codes "3"; payload = codes "abc" }

abbrev pub last_line : List ℕ
last_line = codes "0"

abbrev pub tail : List ℕ
tail = last_line ++ (line_end ++ [])

abbrev pub wire : List ℕ
wire = frame_bytes frame ++ tail

pub frame-IsFrame : IsFrame frame
unfolding digit_value scan_digits
frame-IsFrame = record {
  size = record { some_digit = λ e. cc e; digits = ((3, refl), tt); short = omega arith };
  size_eq = refl;
  not_empty = omega arith;
  fits = omega arith;
}

pub last_line-IsLast : IsLast last_line
unfolding digit_value scan_digits
last_line-IsLast = record {
  size = record { some_digit = λ e. cc e; digits = ((0, refl), tt); short = omega arith };
  zero_size = refl;
}

pub fresh-Holds : Holds loopback loopback-Streams wire fresh tail (codes "abc")
unfolding slice
fresh-Holds = record {
  frames = frame ∷ [];
  valid = omega arith;
  well_formed = (frame-IsFrame, tt);
  wire = refl;
  content = refl;
}

read_next_chunk-Next_example :
    Next fresh
      (read_next_chunk loopback (record { socket = some wire; chunk = fresh })).0
      (read_next_chunk loopback (record { socket = some wire; chunk = fresh })).1.chunk
read_next_chunk-Next_example =
    read_next_chunk-Next loopback loopback-IsBounded (record { socket = some wire; chunk = fresh })

pipe_read-IsValid_example :
    (n : ℕ) × (dest : Memory) × (r : Reader (List ℕ)) × (pipe_read loopback blank 1 2
        (record { socket = some wire; chunk = fresh })
      ≡ some (n, dest, r))
    × IsValid r.chunk
    × InBuffer fresh r.chunk
    × ((i : ℕ) → 2 ≤ i → dest i ≡ blank i)
pipe_read-IsValid_example =
    pipe_read-IsValid loopback loopback-IsBounded blank 1 2
      (record { socket = some wire; chunk = fresh }) (omega arith)

fgetc-IsValid_example :
    IsValid (fgetc loopback (record { socket = some wire; chunk = fresh })).1.chunk
    × InBuffer fresh (fgetc loopback (record { socket = some wire; chunk = fresh })).1.chunk
fgetc-IsValid_example =
    fgetc-IsValid loopback loopback-IsBounded (record { socket = some wire; chunk = fresh })
      (omega arith)

pipe_read-delivers_example :
    (dest : Memory) × (s : List ℕ) × (c : Chunk) × (pipe_read loopback blank 1 2
        (record { socket = some wire; chunk = fresh })
      ≡ some (2, dest, record { socket = some s; chunk = c }))
    × (slice dest 0 2 ≡ codes "ab")
    × Holds loopback loopback-Streams s c tail (codes "c")
pipe_read-delivers_example =
    pipe_read-delivers loopback loopback-Streams blank 1 2 wire fresh tail (codes "abc") fresh-Holds
      (omega arith) (omega arith) (omega arith)

fgetc-delivers_example :
    (s : List ℕ) × (c : Chunk) × (fgetc loopback (record { socket = some wire; chunk = fresh })
      ≡ (pos b'a', record { socket = some s; chunk = c }))
    × Holds loopback loopback-Streams s c tail (codes "bc")
fgetc-delivers_example =
    fgetc-delivers loopback loopback-Streams wire fresh tail b'a' (codes "bc") fresh-Holds

read_next-ends_example :
    (dest : Memory) × (s : List ℕ) × (c : Chunk) × (read_next loopback blank 9
        (record { socket = some wire; chunk = fresh })
      ≡ some (pos 3, dest, record { socket = some (s ++ reader_ok_answer); chunk = c }))
    × (slice dest 0 3 ≡ codes "abc")
read_next-ends_example =
    read_next-ends loopback loopback-Streams blank 9 wire fresh last_line [] (codes "abc")
      fresh-Holds last_line-IsLast (omega arith)

-- The reader has the five bytes of its chunk left, and the stream its end.
-- A byte of 255 reads as the -1 that stands for the end of the stream.
last_char : char_to_int 255 ≡ minus_one
last_char = refl

read_next_chunk-frame_example :
    (s' : List ℕ) × (c' : Chunk) × (read_next_chunk loopback
        (record { socket = some wire; chunk = fresh })
      ≡ (pos 3, record { socket = some s'; chunk = c' }))
    × (c'.chunk_len ≡ 3)
    × (c'.chunk_pos ≡ 0)
    × (slice c'.chunk_buf 0 3 ≡ codes "abc")
    × (s' ≡ tail)
read_next_chunk-frame_example =
    read_next_chunk-frame loopback loopback-Streams frame wire fresh tail frame-IsFrame refl

abbrev at_wire : RConnection (Reader (List ℕ))
at_wire = record {
  target = some (record { socket = some wire; chunk = fresh });
  hooked = true;
  is_open = true;
  blocking = true;
  can_read = true;
  can_write = false;
}

hook_read-delivers_example :
    (dest : Memory) × (r : Reader (List ℕ)) × (s : List ℕ) × (c : Chunk) × (r
      ≡ record { socket = some s; chunk = c })
    × (hook_read loopback blank 1 2 at_wire ≡ some (2, dest, create_reading (some r)))
    × (slice dest 0 2 ≡ codes "ab")
    × Holds loopback loopback-Streams s c tail (codes "c")
    × (hook_read loopback dest 1 2 (release (create_reading (some r)))
        ≡ some (0, dest, release (create_reading (some r))))
    × (hook_fgetc loopback (release (create_reading (some r)))
        ≡ (pos 0, release (create_reading (some r))))
unfolding create_reading
hook_read-delivers_example =
    hook_read-delivers loopback loopback-Streams blank 1 2 wire fresh tail (codes "abc") fresh-Holds
      (omega arith) (omega arith) (omega arith)
