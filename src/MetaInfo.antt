-- ===== src/MetaInfo.antt =====
-- `metaInfoReader::read` (src/r_exasol/connection/protocol/meta_info_reader.cpp), which asks the
-- database for the address of the proxy, on a little-endian machine: the structs are their bytes.
pub mod Answer
use r_exasol.Base.{
  Bool, List, Option, Try, [], ensure, err, false, if◌then◌else◌, length, minus_one, negsuc, none,
  ok, pos, pure, some, ℕ, ℤ, ◌%◌, ◌*◌, ◌++◌, ◌+◌, ◌/◌, ◌==◌, ◌>>=◌, ◌>>◌, ◌∷◌,
}
use r_exasol.Socket.{SocketOps, Received, got, stored, count}
use r_exasol.Chunk.{Memory, put, store}
use r_exasol.Answers.{Thrown, Piece, text, chars, number, connection_failure}
use r_exasol.Reader.{c_string}

-- The bytes of an `int32_t`, which is not negative.
unfoldable pub le_bytes : ℕ → List ℕ
le_bytes n = n % 256 ∷ n / 256 % 256 ∷ n / 65536 % 256 ∷ n / 16777216 % 256 ∷ []

-- `proxyHeader`: 0x02212102, 1, 1
unfoldable pub proxy_header : List ℕ
unfolding le_bytes
proxy_header = le_bytes 35725570 ++ (le_bytes 1 ++ le_bytes 1)

-- `hostInfo`
pub record HostInfo : Type 0 where
  pub host : List ℕ
  pub port : ℕ

-- `proxyAnswer`, 24 bytes that are zero before they are received: `v` at 0, `port` at 4 and `s` at 8.
abbrev pub answer_size : ℕ
answer_size = 24

-- The port is the low 16 bits of its `int32_t`; the host is the C string, ended at the latest by the
-- last byte of `s`.
unfoldable pub host_info : Memory → HostInfo
host_info m = record { host = c_string 16 (put m 23 0) 8; port = (m 4 + 256 * m 5) % 65536 }

abbrev pub sent_count : Option ℕ → ℤ
sent_count none = minus_one
sent_count (some n) = pos n

-- Is a result, which may be -1, this number?
abbrev pub is_count_of : ℤ → ℕ → Bool
is_count_of (pos k) n = k == n
is_count_of (negsuc k) n = false

module _ {S : Type 0} (io : SocketOps S) (errno : S → ℤ) where
  unfoldable pub send_proxy_header : Try S Thrown (Unit {0})
  send_proxy_header s =
      let (r, s') = io.send s proxy_header in
      ensure (is_count_of (sent_count r) (length proxy_header))
        (connection_failure (
          text "Failed to send proxy header ("
          ∷ number (sent_count r)
          ∷ text " != "
          ∷ number (pos 12)
          ∷ text ")"
          ∷ []))
        s'

  unfoldable pub receive_answer : List ℕ → ℕ → Try S Thrown Memory
  receive_answer host port s =
      let (r, s') = io.recv s answer_size in
      if is_count_of (count r) answer_size then (ok (store (λ _. 0) 0 (stored r)), s') else (
        err (
            connection_failure (
              text "Failed to receive proxy header from "
              ∷ chars host
              ∷ text ":"
              ∷ number (pos port)
              ∷ text " ("
              ∷ number (count r)
              ∷ text " != "
              ∷ number (pos answer_size)
              ∷ text "); errno: "
              ∷ number (errno s')
              ∷ [])),
        s',
      )

  unfoldable pub read_meta_info : List ℕ → ℕ → Try S Thrown HostInfo
  unfolding send_proxy_header receive_answer host_info
  read_meta_info host port = do
    send_proxy_header
    answer ← receive_answer host port
    pure (host_info answer)
