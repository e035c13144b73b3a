-- ===== src/Establish/Import.antt =====
-- A whole import without SSL, from the connection to the end of the stream.
use r_exasol.Base.{
  All, List, ap, drop, length, ok, refl, size_mod, some, sym, take, ℕ, ◌++◌, ◌+◌, ◌-◌, ◌<◌, ◌∙◌,
  ◌≡◌, ◌≤◌,
}
use r_exasol.Chunk.{Memory, Chunk, slice}
use r_exasol.Answers.{reader_ok_answer}
use r_exasol.Header.Consume.{IsLine, header_bytes}
use r_exasol.Tcp.{Kernel, SocketImpl, tcp_socket}
use r_exasol.Tcp
use r_exasol.Tcp.Stream.{Network, tcp_socket-Streams, tcp_socket-Accepts}
use r_exasol.MetaInfo.{proxy_header}
use r_exasol.MetaInfo.Answer.{Answer, IsAnswer, answer_bytes, read_meta_info-answer}
use r_exasol.Reader
use r_exasol.Reader.{Reader, start, pipe_read}
use r_exasol.Reader.Line.{line_end}
use r_exasol.Reader.Decode.{Frame, IsFrame}
use r_exasol.Reader.Deliver.{wire_bytes, payloads}
use r_exasol.Reader.End.{IsLast}
use r_exasol.Reader.Session.{total, read_pieces, read_pieces-import}
use r_exasol.Establish.{reach, http_reached, http_connect}

module _ {W : Type 0} (kernel : Kernel W) (net : Network kernel) where
  -- The bytes that come in on a connected socket once the proxy's address was asked for.
  abbrev pub after_request : SocketImpl W → List ℕ
  after_request s =
      let asked = (Tcp.send kernel s proxy_header).1 in net.incoming asked.world asked.descriptor

  -- The socket once the answer has come.
  abbrev pub answered_on : SocketImpl W → SocketImpl W
  answered_on s = (Tcp.recv kernel (Tcp.send kernel s proxy_header).1 24).1

  pub reach-answer :
      (host : List ℕ) (port : ℕ) (w : W) (s : SocketImpl W) (x : Answer) (rest : List ℕ)
      → Tcp.connect kernel host port (Tcp.create w) ≡ (ok tt, s)
      → IsAnswer x
      → after_request s ≡ answer_bytes x ++ rest
      → (reach kernel host port (Tcp.create w)
          ≡ (ok (record { host = x.host; port = x.port }), answered_on s))
        × (net.incoming (answered_on s).world (answered_on s).descriptor ≡ rest)
  unfolding reach tcp_socket tcp_socket-Streams
  reach-answer host port w s x rest connected v p =
      let (s', answered, same, later) =
        read_meta_info-answer (tcp_socket kernel) (λ t. kernel.errno t.world)
          (tcp_socket-Streams kernel net) (tcp_socket-Accepts kernel net) host port s x rest v p in
      (
        rw (connected, answered, reach)
            (ap (λ t. (ok (record { host = x.host; port = x.port }), t)) same),
        ap (λ t. net.incoming t.world t.descriptor) (sym same) ∙ later,
      )

  pub http_connect-answer :
      (host : List ℕ) (port : ℕ) (w : W) (s : SocketImpl W) (x : Answer) (rest : List ℕ)
      → Tcp.connect kernel host port (Tcp.create w) ≡ (ok tt, s)
      → IsAnswer x
      → after_request s ≡ answer_bytes x ++ rest
      → (s' : SocketImpl W) × (http_connect kernel host port w
          ≡ ok (record { proxy = record { host = x.host; port = x.port }; socket = s' }))
        × ((tcp_socket-Streams kernel net).pending s' ≡ rest)
  unfolding http_connect http_reached tcp_socket-Streams
  http_connect-answer host port w s x rest connected v p =
      let (reached, later) = reach-answer host port w s x rest connected v p in
      (answered_on s, rw (reached, http_connect) refl, later)

  -- Where `SocketImpl::connect` connects, the system keeps its promises, and on the request the peer
  -- sends a well-formed answer, a header of well-formed lines, well-formed chunks and a chunk of size
  -- 0, the http establisher returns the address of the answer and a socket; a reader on it starts;
  -- reads of any lengths, no more than the chunks have together, return their bytes in order; and a
  -- read of more than is then left returns all that is left, and has the server answered and the
  -- socket closed for writing.
  http_connect-import :
      (host : List ℕ) (port : ℕ) (w : W) (s : SocketImpl W) (x : Answer) (ls : List (List ℕ))
      (fs : List Frame) (l after : List ℕ) (c : Chunk) (fuel : ℕ) (line dest : Memory) (ns : List ℕ)
      (n : ℕ)
      → Tcp.connect kernel host port (Tcp.create w) ≡ (ok tt, s)
      → IsAnswer x
      → after_request s
        ≡ answer_bytes x ++ (header_bytes ls ++ (wire_bytes fs ++ (l ++ (line_end ++ after))))
      → All IsLine ls
      → All IsFrame fs
      → IsLast l
      → length (header_bytes ls) ≤ fuel
      → total ns ≤ length (payloads fs)
      → length (payloads fs) - total ns < n
      → total ns + n < size_mod
      → (line' dest' : Memory) × (s1 s2 : SocketImpl W) × (r1 r2 : Reader (SocketImpl W))
        × (c' : Chunk) × (http_connect kernel host port w
            ≡ ok (record { proxy = record { host = x.host; port = x.port }; socket = s1 }))
        × (start (tcp_socket kernel) fuel line (Reader.create (some s1) c)
            ≡ some (ok tt, line', r1))
        × (read_pieces (tcp_socket kernel) dest ns r1 ≡ some (take (total ns) (payloads fs), r2))
        × (pipe_read (tcp_socket kernel) dest 1 n r2
            ≡ some (
              length (payloads fs) - total ns,
              dest',
              record {
                socket = some (Tcp.shutdown_wr kernel (Tcp.send kernel s2 reader_ok_answer).1);
                chunk = c';
              },
            ))
        × (slice dest' 0 (length (payloads fs) - total ns) ≡ drop (total ns) (payloads fs))
  unfolding tcp_socket
  http_connect-import host port w s x ls fs l after c fuel line dest ns n connected v p header
        frames last f h k b =
      let (s1, established, pending) =
        http_connect-answer host port w s x
          (header_bytes ls ++ (wire_bytes fs ++ (l ++ (line_end ++ after)))) connected v p in
      let (line', dest', r1, r2, s2, c', started, pieces, ended, rest) =
        read_pieces-import (tcp_socket kernel) (tcp_socket-Streams kernel net) ls fs l after s1 c
          fuel line dest ns n pending header frames last f h k b in
      (line', dest', s1, s2, r1, r2, c', established, started, pieces, ended, rest)
