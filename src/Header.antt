-- ===== src/Header.antt =====
-- `readHttpHeader` (src/r_exasol/connection/protocol/common.cpp), which skips the HTTP header of a
-- request. The loop takes fuel, a round for each byte; `none` means that the fuel ran out.
pub mod Consume
pub mod Stops
use r_exasol.Base.{
  Bool, Option, Result, [], err, false, ltb, none, not, ok, some, suc, true, zero, ℕ, ◌&&◌, ◌+◌,
  ◌-◌, ◌==◌, ◌∷◌,
}
use r_exasol.Socket.{SocketOps, Received, got}
use r_exasol.Chunk.{Memory, put}
use r_exasol.Answers.{Thrown, connection_exception}

-- The byte of a `recv` that returned 1.
abbrev pub one_byte : Received → Option ℕ
one_byte (got (b ∷ [])) = some b
one_byte _ = none

-- Does the byte at `at`, just stored, end a line: `\n` behind `\r`?
unfoldable pub ends_line : Memory → ℕ → ℕ → Bool
ends_line line at byte = byte == b'\n' && (ltb 1 (at + 1) && line (at + 1 - 2) == b'\r')

module _ {S : Type 0} (io : SocketOps S) where
  unfoldable pub header_loop : ℕ → ℕ → Memory → S → Option (Result Thrown (Unit {0}) × Memory × S)
  unfolding ends_line
  header_loop zero at line s = none
  header_loop (suc fuel) at line s = elim (ltb 4094 at) [
    | true ↦ some (err (connection_exception "Could not read header, line too long."), line, s)
    | false ↦ elim (one_byte (io.recv s 1).0) [
      | none ↦ some (err (connection_exception "Could not receive header"), line, (io.recv s 1).1)
      | some byte ↦
          let stored_line = put (put line at byte) (at + 1) 0 in
          elim (ends_line stored_line at byte) [
            | false ↦ header_loop fuel (at + 1) stored_line (io.recv s 1).1
            | true ↦ elim (at + 1 == 2) [
              | true ↦ some (ok tt, stored_line, (io.recv s 1).1)
              | false ↦ header_loop fuel 0 (put stored_line 0 0) (io.recv s 1).1
            ]
          ]
    ]
  ]

  -- `line` is the array on the stack before it is written.
  unfoldable pub read_http_header : ℕ → Memory → S → Option (Result Thrown (Unit {0}) × Memory × S)
  unfolding header_loop
  read_http_header fuel line s = header_loop fuel 0 (put line 0 0) s
