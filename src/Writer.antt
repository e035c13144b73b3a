-- ===== src/Writer.antt =====
-- `HttpChunkWriter` (src/r_exasol/connection/protocol/http/writer/http_chunk_writer.cpp), over any
-- socket. `socket` is what `mSocket.lock()` gives.
pub mod Invariant
pub mod Flush
pub mod Stream
pub mod Session
use r_exasol.Base.{
  Bool, List, Option, Result, Try, add_size, ensure, err, false, if◌then◌else◌, is_neg, leb, length,
  ltb, minus_one, none, not, ok, pos, pure, size_mod, some, sub_size, suc, to_size, true, zero, ℕ,
  ℤ, ◌%◌, ◌*◌, ◌+◌, ◌-◌, ◌==◌, ◌>>=◌, ◌>>◌,
}
use r_exasol.Socket.{SocketOps}
use r_exasol.Chunk.{Memory, Chunk, max_http_chunk_size, store, slice, reset}
use r_exasol.Header.{read_http_header}
use r_exasol.Answers.{Thrown, connection_exception, writer_ok_answer, error_answer}

pub record Writer (S : Type 0) : Type 0 where
  pub socket : Option S
  pub chunk : Chunk

-- The constructor: the shared chunk is reset.
unfoldable pub create : {S : Type 0} → Option S → Chunk → Writer S
unfolding reset
create socket c = record { socket = socket; chunk = reset c }

abbrev is_count : Option ℕ → ℕ → Bool
is_count none n = false
is_count (some k) n = k == n

-- `chunk_len += n`, after a `memcpy` to the end of the buffered bytes.
unfoldable pub buffer_bytes : Chunk → List ℕ → Chunk
buffer_bytes c bs = record c {
  chunk_buf = store c.chunk_buf c.chunk_len bs;
  chunk_len = add_size c.chunk_len (length bs);
}

-- `if (cur_rest > 0) { memcpy ... }`
unfoldable pub fill_up : Memory → ℕ → ℕ → Chunk → Chunk
unfolding buffer_bytes
fill_up src at cur_rest c = if ltb 0 cur_rest then buffer_bytes c (slice src at cur_rest) else c

module _ {S : Type 0} (io : SocketOps S) where
  -- `if (socket->send(bs, len) != len) throw`
  unfoldable pub send_exactly : List ℕ → Try S Thrown (Unit {0})
  send_exactly bs s =
      let (sent, s') = io.send s bs in
      ensure (is_count sent (length bs)) (connection_exception "socket invalid") s'

  -- The answer goes out before the first chunk.
  unfoldable pub send_header : ℕ → Try S Thrown (Unit {0})
  send_header chunk_num = if chunk_num == 0 then send_exactly writer_ok_answer else pure tt

  -- The body of `try` in `write_next_chunk`, where the socket is there.
  unfoldable pub send_chunk : Chunk → Try S Thrown (Unit {0})
  send_chunk c = do
    ensure (not (c.chunk_len == 0)) (connection_exception "invalid chunklen")
    send_header c.chunk_num
    send_exactly (slice c.chunk_buf 0 c.chunk_len)

  -- What follows the body: the counters of the chunk move on, or the handler answers with an
  -- error and shuts the socket down.
  unfoldable pub after_send : Chunk → Result Thrown (Unit {0}) × S → ℤ × Writer S
  after_send c (ok _, s) = (
    pos c.chunk_len,
    record {
      socket = some s;
      chunk = record c { chunk_len = 0; chunk_num = add_size c.chunk_num 1 };
    },
  )
  after_send c (err _, s) = (
    minus_one,
    record { socket = some (io.shutdown_rd_wr (io.send s error_answer).1); chunk = c },
  )

  -- Without a socket nothing is sent: -1, also where the exception for an empty chunk is caught.
  unfoldable pub write_over : Option S → Chunk → ℤ × Writer S
  unfolding send_chunk after_send
  write_over none c = (minus_one, record { socket = none; chunk = c })
  write_over (some s) c = after_send c (send_chunk c s)

  unfoldable pub write_next_chunk : Writer S → ℤ × Writer S
  unfolding write_over
  write_next_chunk w = write_over w.socket w.chunk

  -- The loop of `pipe_write`; `none` means that the fuel ran out.
  unfoldable pub write_loop : ℕ → Memory → ℕ → ℕ → ℕ → Writer S → Option (ℕ × Writer S)
  unfolding buffer_bytes fill_up write_next_chunk
  write_loop zero src at cur_rest len w = none
  write_loop (suc fuel) src at cur_rest len w = elim (leb len cur_rest) [
    | true ↦ some (len, record w { chunk = buffer_bytes w.chunk (slice src at len) })
    | false ↦
        let (r, w') = write_next_chunk (record w { chunk = fill_up src at cur_rest w.chunk }) in
        elim (is_neg r) [
          | true ↦ some (to_size minus_one, w')
          | false ↦
              write_loop fuel src (at + cur_rest) (sub_size max_http_chunk_size w'.chunk.chunk_len)
                (len - cur_rest) w'
        ]
  ]

  -- The rounds that the loop may take for `len` bytes.
  abbrev pub write_fuel : ℕ → ℕ
  write_fuel len = len + 2

  unfoldable pub pipe_write : Memory → ℕ → ℕ → Writer S → Option (ℕ × Writer S)
  unfolding write_loop
  pipe_write src size nitems w =
      let len = size * nitems % size_mod in
      write_loop (write_fuel len) src 0 (sub_size max_http_chunk_size w.chunk.chunk_len) len w

  unfoldable pub pipe_fflush : Writer S → ℤ × Writer S
  unfolding write_next_chunk
  pipe_fflush w =
      if ltb 0 w.chunk.chunk_len
      then (let (r, w') = write_next_chunk w in ((if is_neg r then minus_one else pos 0), w'))
      else (pos 0, w)

  -- `line` is the array that `readHttpHeader` has on its stack.
  unfoldable pub start :
      ℕ → Memory → Writer S → Option (Result Thrown (Unit {0}) × Memory × Writer S)
  unfolding read_http_header
  start fuel line w = elim w.socket [
    | none ↦ some (err (connection_exception "socket invalid"), line, w)
    | some s ↦ elim (read_http_header io fuel line s) [
      | none ↦ none
      | some (result, line', s') ↦ some (result, line', record w { socket = some s' })
    ]
  ]
