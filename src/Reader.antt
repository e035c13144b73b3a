-- ===== src/Reader.antt =====
-- `HttpChunkReader` (src/r_exasol/connection/protocol/http/reader/http_chunk_reader.cpp), over any
-- socket. `socket` is what `mSocket.lock()` gives. A `char` is the number of its bits, 0 to 255.
pub mod Bounds
pub mod Loop
pub mod Line
pub mod Decode
pub mod Deliver
pub mod Client
pub mod End
pub mod Session
pub mod Chars
use r_exasol.Base.{
  Bool, List, Option, Result, Try, [], add_size, char_to_int, ensure, err, false, get,
  if◌then◌else◌, is_neg, leb, length, lt_one, ltb, minus_one, modify, negsuc, none, not, ok,
  or_throw, pos, size_mod, some, sub_size, suc, to_size, true, zero, ℕ, ℤ, ◌%◌, ◌*◌, ◌+◌, ◌-◌, ◌/◌,
  ◌==◌, ◌>>=◌, ◌>>◌, ◌^◌, ◌∷◌,
}
use r_exasol.Socket.{SocketOps, Received, stored, count}
use r_exasol.Chunk.{Memory, Chunk, max_http_chunk_size, put, store, slice, reset}
use r_exasol.Header.{read_http_header}
use r_exasol.Answers.{
  Thrown, connection_exception, connection_finished, reader_ok_answer, error_answer,
}
use r_exasol.Hex.{scan_hex}

pub record Reader (S : Type 0) : Type 0 where
  pub socket : Option S
  pub chunk : Chunk

-- The constructor: the shared chunk is reset.
unfoldable pub create : {S : Type 0} → Option S → Chunk → Reader S
unfolding reset
create socket c = record { socket = socket; chunk = reset c }

-- What `read_next_chunk` works on once the socket is locked.
pub record Wire (S : Type 0) : Type 0 where
  pub sock : S
  pub chunk : Chunk

-- The C string at an address, of less than `n` characters.
unfoldable pub c_string : ℕ → Memory → ℕ → List ℕ
c_string zero m i = []
c_string (suc n) m i = elim (m i == 0) [ true ↦ [] | false ↦ m i ∷ c_string n m (i + 1) ]

-- `mChunk.chunk_buf[i] = v`
abbrev pub poke : Chunk → ℕ → ℕ → Chunk
poke c i v = record c { chunk_buf = put c.chunk_buf i v }

-- `unsigned int` addition
abbrev pub add_uint : ℕ → ℕ → ℕ
add_uint a b = (a + b) % 2 ^ 32

-- The chunk after `recv` returned `received` bytes, of which the last two are the end of the line.
unfoldable pub take_over : Chunk → ℕ → Chunk
take_over c received = record {
  chunk_len = received - 2;
  chunk_pos = 0;
  chunk_buf = put c.chunk_buf (received - 2) 0;
  chunk_num = add_size c.chunk_num 1;
}

abbrev pub at_line_end : Chunk → ℕ → Bool
at_line_end c at = c.chunk_buf at == b'\n'

-- A carriage return is overwritten by the end of the string.
unfoldable pub drop_return : ℕ → Chunk → Chunk
drop_return at c = if c.chunk_buf at == b'\r' then poke c at 0 else c

abbrev pub is_zero : ℤ → Bool
is_zero (pos n) = n == 0
is_zero (negsuc n) = false

-- The number of items read, or the result converted to `size_t`.
unfoldable pub items : ℕ → ℤ → ℕ
items size n = if lt_one n then to_size n else to_size n / size

-- The byte at the read position, as an `int`.
unfoldable pub next_char : {S : Type 0} → Reader S → ℤ × Reader S
next_char r = (
  char_to_int (r.chunk.chunk_buf r.chunk.chunk_pos),
  record r { chunk = record r.chunk { chunk_pos = add_size r.chunk.chunk_pos 1 } },
)

module _ {S : Type 0} (io : SocketOps S) where
  -- `socket->recv(&chunk_buf[at], n)`
  unfoldable pub recv_at : ℕ → ℕ → Try (Wire S) Thrown Received
  recv_at at n w =
      let (r, sock) = io.recv w.sock n in
      (
        ok r,
        record {
          sock = sock;
          chunk = record w.chunk { chunk_buf = store w.chunk.chunk_buf at (stored r) };
        },
      )

  -- The loop over the line with the chunk's size: `at` is its `pos`, and the rounds left are 20 - `at`.
  unfoldable pub read_line : ℕ → ℕ → Try (Wire S) Thrown ℕ
  unfolding recv_at drop_return
  read_line zero at w = (ok at, w)
  read_line (suc rounds) at w =
      let cleared = record w { chunk = poke (poke w.chunk (at + 1) 0) at 0 } in
      let received = io.recv w.sock 1 in
      let w1 = (recv_at at 1 cleared).1 in
      let w2 = record w1 { chunk = drop_return at w1.chunk } in
      elim (lt_one (count received.0)) [
        | true ↦ (err connection_finished, w1)
        | false ↦ elim (at_line_end w2.chunk at) [
          | true ↦ (ok at, w2)
          | false ↦ read_line rounds (at + 1) w2
        ]
      ]

  -- The size of the next chunk, from its line.
  unfoldable pub read_size : Try (Wire S) Thrown ℕ
  unfolding read_line
  read_size = do
    at ← read_line 20 0
    ensure (leb at 19) (connection_exception "buffer length exceed size")
    modify (λ w. record w { chunk = poke w.chunk at 0 })
    w ← get
    ensure (not (w.chunk.chunk_buf 0 == 0)) connection_finished
    or_throw (scan_hex (c_string 20 w.chunk.chunk_buf 0))
        (connection_exception "invalid buffer size provided")

  -- The last chunk has size 0: the stream is answered and closed for writing.
  unfoldable pub finish : Try (Wire S) Thrown ℤ
  finish w = (ok (pos 0), record w { sock = io.shutdown_wr (io.send w.sock reader_ok_answer).1 })

  -- A chunk that was received whole or in part.
  unfoldable pub accept : Received → Try (Wire S) Thrown ℤ
  unfolding take_over
  accept r w = elim (count r) [
    | negsuc n ↦ (err (connection_exception "invalid buffer length"), w)
    | pos n ↦
        if ltb n 3
        then (err (connection_exception "invalid buffer length"), w)
        else (ok (pos (n - 2)), record w { chunk = take_over w.chunk n })
  ]

  unfoldable pub receive : ℕ → Try (Wire S) Thrown ℤ
  unfolding recv_at accept
  receive buflen = do
    ensure (leb (add_uint buflen 2) max_http_chunk_size)
        (connection_exception "Buffer received larger than max chunk size.")
    r ← recv_at 0 (add_uint buflen 2)
    accept r

  abbrev pub finish_or_receive : ℕ → Try (Wire S) Thrown ℤ
  finish_or_receive buflen = if buflen == 0 then finish else receive buflen

  -- The body of `try` in `read_next_chunk`, where the socket is there.
  unfoldable pub next_chunk : Try (Wire S) Thrown ℤ
  unfolding read_size finish receive
  next_chunk = do buflen ← read_size; finish_or_receive buflen

  -- `closeSocketWithError`
  unfoldable pub close_socket_with_error : S → S
  close_socket_with_error s = io.shutdown_wr (io.send s error_answer).1

  -- Both handlers close the socket, and -1 is returned.
  unfoldable pub after_next : Result Thrown ℤ × Wire S → ℤ × Reader S
  unfolding close_socket_with_error
  after_next (ok n, w) = (n, record { socket = some w.sock; chunk = w.chunk })
  after_next (err _, w) =
      (minus_one, record { socket = some (close_socket_with_error w.sock); chunk = w.chunk })

  unfoldable pub next_over : Option S → Chunk → ℤ × Reader S
  unfolding next_chunk after_next
  next_over none c = (minus_one, record { socket = none; chunk = c })
  next_over (some s) c = after_next (next_chunk (record { sock = s; chunk = c }))

  unfoldable pub read_next_chunk : Reader S → ℤ × Reader S
  unfolding next_over
  read_next_chunk r = next_over r.socket r.chunk

  -- The loop of `read_next`; `none` means that the fuel ran out. `at` is how far `buf` has moved,
  -- `copied` is `retlen`.
  unfoldable pub read_loop : ℕ → Memory → ℕ → ℕ → ℕ → Reader S → Option (ℤ × Memory × Reader S)
  unfolding read_next_chunk
  read_loop zero dest at rest_chunk len r = none
  read_loop (suc fuel) dest at rest_chunk len r = elim (leb len rest_chunk) [
    | true ↦ some (
      pos (at + len),
      store dest at (slice r.chunk.chunk_buf r.chunk.chunk_pos len),
      record r { chunk = record r.chunk { chunk_pos = add_size r.chunk.chunk_pos len } },
    )
    | false ↦
        let dest' = store dest at (slice r.chunk.chunk_buf r.chunk.chunk_pos rest_chunk) in
        let (n, r') = read_next_chunk r in
        elim (is_zero n) [
          | true ↦ some (pos (at + rest_chunk), dest', r')
          | false ↦ elim (is_neg n) [
            | true ↦ some (minus_one, dest', r')
            | false ↦
                read_loop fuel dest' (at + rest_chunk) r'.chunk.chunk_len (len - rest_chunk) r'
          ]
        ]
  ]

  unfoldable pub read_next : Memory → ℕ → Reader S → Option (ℤ × Memory × Reader S)
  unfolding read_loop
  read_next dest len r =
      read_loop (len + 2) dest 0 (sub_size r.chunk.chunk_len r.chunk.chunk_pos) len r

  unfoldable pub pipe_read : Memory → ℕ → ℕ → Reader S → Option (ℕ × Memory × Reader S)
  unfolding read_next items
  pipe_read dest size nitems r = elim (read_next dest (size * nitems % size_mod) r) [
    | none ↦ none
    | some (n, dest', r') ↦ some (items size n, dest', r')
  ]

  unfoldable pub fgetc : Reader S → ℤ × Reader S
  unfolding read_next_chunk next_char
  fgetc r =
      if ltb (sub_size r.chunk.chunk_len r.chunk.chunk_pos) 1
      then (let (n, r') = read_next_chunk r in if lt_one n then (minus_one, r') else next_char r')
      else next_char r

  -- `line` is the array that `readHttpHeader` has on its stack.
  unfoldable pub start :
      ℕ → Memory → Reader S → Option (Result Thrown (Unit {0}) × Memory × Reader S)
  unfolding read_http_header
  start fuel line r = elim r.socket [
    | none ↦ some (err (connection_exception "socket invalid"), line, r)
    | some s ↦ elim (read_http_header io fuel line s) [
      | none ↦ none
      | some (result, line', s') ↦ some (result, line', record r { socket = some s' })
    ]
  ]
