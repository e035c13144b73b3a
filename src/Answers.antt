-- ===== src/Answers.antt =====
-- The HTTP answers that the reader and the writer send, and the exceptions that they throw.
use r_exasol.Base.{List, String, codes, ℕ, ℤ}

-- `ok_answer` of `HttpChunkReader::read_next_chunk`
unfoldable pub reader_ok_answer : List ℕ
reader_ok_answer =
    codes "HTTP/1.1 200 OK\r\nServer: EXASolution R Package\r\nConnection: close\r\n\r\n"

-- `ok_answer` of `HttpChunkWriter::write_next_chunk`
unfoldable pub writer_ok_answer : List ℕ
writer_ok_answer =
    codes
      "HTTP/1.1 200 OK\r\nServer: EXASolution R Package\r\nContent-type: application/octet-stream\r\nContent-disposition: attachment; filename=data.csv\r\nConnection: close\r\n\r\n"

-- `error_answer` of both
unfoldable pub error_answer : List ℕ
error_answer =
    codes "HTTP/1.1 404 ERROR\r\nServer: EXASolution R Package\r\nConnection: close\r\n\r\n"

-- What a `stringstream` is fed with; its formatting of numbers is left to the library.
pub data Piece : Type 0 where
  text : String → Piece
  chars : List ℕ → Piece
  number : ℤ → Piece

-- `ConnectionException` with its message, which may be put together, and the reader's
-- `ConnectionFinished`.
pub data Thrown : Type 0 where
  connection_exception : String → Thrown
  connection_failure : List Piece → Thrown
  connection_finished : Thrown
