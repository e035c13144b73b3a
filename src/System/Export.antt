-- ===== src/System/Export.antt =====
-- A whole export without SSL, from R's first call to its last.
use r_exasol.Base.{
  All, List, Option, [], ap, codes, length, none, ok, pos, refl, size_mod, some, sym, ℕ, ◌%◌, ◌++◌,
  ◌<◌, ◌∙◌, ◌≡◌, ◌≤◌,
}
use r_exasol.Answers.{writer_ok_answer}
use r_exasol.Chunk.{Memory}
use r_exasol.Header.Consume.{IsLine, header_bytes, read_http_header-consumes}
use r_exasol.Tcp.{SocketImpl}
use r_exasol.Tcp
use r_exasol.Tcp.Stream.{Network}
use r_exasol.Fill.Packets.{Packets}
use r_exasol.Ssl.Stream.{WritesAll}
use r_exasol.MetaInfo.Answer.{Answer, IsAnswer, answer_bytes}
use r_exasol.Establish.Import.{after_request}
use r_exasol.Socket.Any.{
  AnySocket, plain, world_of, any_pending, any_sent, any_socket, any_socket-Streams,
  any_socket-Accepts,
}
use r_exasol.Writer.{Writer}
use r_exasol.Writer
use r_exasol.Writer.Session.{Piece, all_bytes, total, cost, write_all-export}
use r_exasol.Executor.Impl.{SessionInfo}
use r_exasol.RConnection.Hooks.{RObject, Hooks, create_hooked, get_connection_hook}
use r_exasol.Context.{returned, empty}
use r_exasol.Entry.{io_start, query_start, query_finish}
use r_exasol.System.{Outside, Store, put_writer, writer_of}
use r_exasol.System.Session.{
  Session, session_parts, session_side, session_write, session_fflush, session_writes,
}
use r_exasol.System.Writes.{writer_of-put_writer, session_fflush-pipe_fflush, session_writes-Left}
use r_exasol.System.Steps.{linked, connected, linked_store, io_start-connects, running_socket}
use r_exasol.System.Exporting.{writing_store, exporting, query_start-exports, writer-started}
use r_exasol.System.Close.{IsClear}
use r_exasol.System.Finish.{query_finish-ends}
use r_exasol.System.Import.{Serves, hook_of_created}

module _ {W : Type 0} (o : Outside W) (warn : Store W → Store W) (net : Network o.kernel) where
  write-unhooked :
      (con : ℕ) (src : Memory) (size nitems : ℕ) (c : Session) (w : Store W × Hooks)
      → get_connection_hook con w.1 ≡ none
      → session_write o warn con src size nitems c w ≡ some (0, w)
  unfolding session_write
  write-unhooked con src size nitems c w e = rw (e, session_write) refl

  module _ (writes : WritesAll o.ssl) where
    -- What went out on the socket of the store.
    abbrev pub sent_on : Option (AnySocket W) → List ℕ
    sent_on none = []
    sent_on (some s) = any_sent o.kernel o.ssl net writes s

    abbrev pub sent_of : Store W → List ℕ
    sent_of st = sent_on (writer_of st).socket

    -- What the calls of an export return: those of src/exasol.c, and the writes and the flush of R's
    -- connection.
    pub record Exported (protocol : List ℕ) (host : List ℕ) (port : ℕ) (st : Store W) (h : Hooks)
        (session : SessionInfo) (x : Answer) (ps : List Piece) : Type 0 where
      pub object : RObject
      pub linked : Store W × Hooks
      pub started : Store W × Hooks
      pub written : Store W × Hooks
      pub flushed : Store W × Hooks
      pub finished : Store W × Hooks
      pub connects :
          io_start (session_parts o warn) (session_side o warn) host port protocol empty (st, h)
          ≡ some (returned (pos 0), connected x, linked)
      pub starts :
          query_start
            (session_parts o warn)
            (session_side o warn)
            (some session.handle)
            (some session.query)
            1
            (connected x)
            linked
          ≡ (returned (some object), exporting x object, started)
      pub writes_all :
          session_writes o warn object.conn ps (exporting x object) started ≡ some written
      pub flushes :
          session_fflush o warn object.conn (exporting x object) written ≡ (pos 0, flushed)
      pub sends : sent_of flushed.0 ≡ sent_of started.0 ++ (writer_ok_answer ++ all_bytes ps)
      pub finishes :
          query_finish (session_parts o warn) (session_side o warn) 1 (exporting x object) flushed
          ≡ some (returned (pos 0), empty, finished)
      pub clears : IsClear finished.0
      pub writes_none :
          (buffer : Memory) (size nitems : ℕ)
          → session_write o warn object.conn buffer size nitems empty finished ≡ some (0, finished)

    -- The calls behind the first one, on a socket of either class.
    pub over-Exported :
        (p : (ssl : ℕ) → Packets (o.ssl.ssl_read ssl)) (protocol : List ℕ) (host : List ℕ)
        (port : ℕ) (st st0 : Store W) (h : Hooks) (session : SessionInfo) (a : AnySocket W)
        (x : Answer) (ls : List (List ℕ)) (after : List ℕ) (ps : List Piece)
        → Serves o net p session
        → io_start (session_parts o warn) (session_side o warn) host port protocol empty (st, h)
          ≡ some (returned (pos 0), connected x, (linked_store o warn a st0, h))
        → any_pending o.kernel o.ssl net p a ≡ header_bytes ls ++ after
        → All IsLine ls
        → length (header_bytes ls) ≤ o.rounds
        → 0 < total ps
        → cost ps < size_mod
        → Exported protocol host port st h session x ps
    unfolding any_socket-Streams any_socket-Accepts any_socket Writer.create
    over-Exported p protocol host port st st0 h session a x ls after ps serves linked pending header
          f k b =
        let (_, statement, w1) = o.odbc.alloc_statement session.handle (world_of a) in
        let s2 = running_socket o warn session a in
        let (line', s3, consumed, _) =
          read_http_header-consumes (any_socket o.kernel o.ssl)
            (any_socket-Streams o.kernel o.ssl net p) ls o.rounds o.line s2 after
            (serves.apart a ∙ pending) header f in
        let r1 = Writer.create (some s3) st0.chunk in
        let (r2, r3, s4, wrote, flushed, sock, _, sent) =
          write_all-export (any_socket o.kernel o.ssl)
            (any_socket-Accepts o.kernel o.ssl net writes) ps s3 st0.chunk k b in
        let (object, h1) = create_hooked h in
        let c = exporting x object in
        let running = writing_store o warn session a st0 in
        let st1 = put_writer r1 running in
        let left =
          session_writes-Left o warn object.conn object.address c h1 (hook_of_created h) refl ps st1
            r1 r2 (writer_of-put_writer r1 running) wrote in
        let st3 = put_writer r3 left.store in
        let (w4, finishes, unhooked, clear) =
          query_finish-ends o warn session statement x object none (some tt) st3 h1
            (serves.succeeds statement) left.same_executor in
        record {
          object = object;
          linked = (linked_store o warn a st0, h);
          started = (st1, h1);
          written = (left.store, h1);
          flushed = (st3, h1);
          finished = w4;
          connects = linked;
          starts =
              query_start-exports o warn session a x st0 h line' r1 (serves.allocates (world_of a))
                (writer-started o warn o.line line' s2 s3 st0.chunk consumed);
          writes_all = left.stops;
          flushes =
              session_fflush-pipe_fflush o warn object.conn object.address c h1 (hook_of_created h)
                refl (pos 0) left.store r2 r3 left.writer flushed;
          sends =
              ap (λ r. sent_on r.socket) (writer_of-put_writer r3 left.store)
              ∙ ap sent_on sock
              ∙ sent
              ∙ ap (λ t. sent_on t ++ (writer_ok_answer ++ all_bytes ps))
                  (sym (ap (λ r. r.socket) (writer_of-put_writer r1 running)));
          finishes = finishes;
          clears = clear;
          writes_none =
              λ buffer size nitems. write-unhooked object.conn buffer size nitems empty w4 unhooked;
        }

    -- Where the network and ODBC keep their promises and on the request the peer sends a well-formed
    -- answer and a header of well-formed lines, the calls of R in order, on the whole library:
    -- `asyncRODBCIOStart` returns 0; `asyncRODBCQueryStart` returns a connection of R; writes through
    -- its hook, of any pieces with a byte whose chunks the counter can count, return, and so does the
    -- flush, with 0; what went out on the socket since the start is then the HTTP answer and exactly the
    -- bytes of all pieces in order; `asyncRODBCQueryFinish` returns 0 and empties the context,
    -- and no socket and no executor is left; and a
    -- write to R's connection from then on does nothing.
    pub query-Exported :
        (p : (ssl : ℕ) → Packets (o.ssl.ssl_read ssl)) (host : List ℕ) (port : ℕ) (st : Store W)
        (h : Hooks) (session : SessionInfo) (s : SocketImpl W) (x : Answer) (ls : List (List ℕ))
        (after : List ℕ) (ps : List Piece)
        → Serves o net p session
        → Tcp.connect o.kernel host (port % 65536) (Tcp.create st.sys) ≡ (ok tt, s)
        → IsAnswer x
        → after_request o.kernel net s ≡ answer_bytes x ++ (header_bytes ls ++ after)
        → All IsLine ls
        → length (header_bytes ls) ≤ o.rounds
        → 0 < total ps
        → cost ps < size_mod
        → Exported (codes "http") host port st h session x ps
    unfolding any_socket-Streams
    query-Exported p host port st h session s x ls after ps serves connects v q header f k b =
        let (s1, linked, pending) =
          io_start-connects o warn net host port st h s x (header_bytes ls ++ after) connects v q in
        over-Exported p (codes "http") host port st st h session (plain s1) x ls after ps serves
          linked pending header f k b
