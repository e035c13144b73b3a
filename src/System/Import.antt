-- ===== src/System/Import.antt =====
-- A whole import without SSL, from R's first call to its last.
use r_exasol.Base.{
  ==_refl, All, List, Option, codes, drop, length, none, ok, pos, refl, size_mod, some, take, true,
  ℕ, ◌%◌, ◌++◌, ◌+◌, ◌-◌, ◌<◌, ◌∙◌, ◌≡◌, ◌≤◌,
}
use r_exasol.Chunk.{Memory, slice}
use r_exasol.Answers.{reader_ok_answer}
use r_exasol.Header.Consume.{IsLine, header_bytes}
use r_exasol.Tcp.{SocketImpl}
use r_exasol.Tcp
use r_exasol.Tcp.Stream.{Network}
use r_exasol.Fill.Packets.{Packets}
use r_exasol.MetaInfo.Answer.{Answer, IsAnswer, answer_bytes}
use r_exasol.Establish.Import.{after_request}
use r_exasol.Socket.Any.{
  AnySocket, plain, any_pending, in_world, world_of, any_socket, any_socket-Streams,
}
use r_exasol.Reader.{Reader}
use r_exasol.Reader.Line.{line_end}
use r_exasol.Reader.Decode.{Frame, IsFrame}
use r_exasol.Reader.Deliver.{wire_bytes, payloads}
use r_exasol.Reader.End.{IsLast}
use r_exasol.Reader.Session.{total, read_pieces-import}
use r_exasol.Executor.{is_success}
use r_exasol.Executor.Impl.{SessionInfo}
use r_exasol.RConnection.Hooks.{
  RObject, Hooks, create_hooked, store_connection_hook, get_connection_hook,
}
use r_exasol.Context.{returned, empty, copy_host_name, copy_host_port}
use r_exasol.Entry.{
  io_start, query_start, query_finish, proxy_host, proxy_port, c_copy_host_name, c_copy_host_port,
}
use r_exasol.System.{Outside, Store, put_reader}
use r_exasol.System.Session.{Session, session_parts, session_side, session_read, session_reads}
use r_exasol.System.Reads.{reader_of-put_reader, session_read-pipe_read, session_reads-Left}
use r_exasol.System.Steps.{connected, importing, linked_store, io_start-connects}
use r_exasol.System.Importing.{reading_store, query_start-imports}
use r_exasol.System.Steps.{running_socket}
use r_exasol.System.Close.{IsClear}
use r_exasol.System.Finish.{query_finish-ends}

module _ {W : Type 0} (o : Outside W) (net : Network o.kernel)
    (p : (ssl : ℕ) → Packets (o.ssl.ssl_read ssl)) where
  -- ODBC allocates a statement for the session, which does not touch what comes in on a socket, and the
  -- session's query succeeds.
  pub record Serves (session : SessionInfo) : Type 0 where
    pub allocates : (w : W) → is_success (o.odbc.alloc_statement session.handle w).0 ≡ true
    pub apart :
        (a : AnySocket W)
        → any_pending o.kernel o.ssl net p
            (in_world (o.odbc.alloc_statement session.handle (world_of a)).2 a)
          ≡ any_pending o.kernel o.ssl net p a
    pub succeeds :
        (statement : Option ℕ) (w : W)
        → is_success (o.odbc.exec_direct statement session.query w).0 ≡ true

pub hook_of_created :
    (h : Hooks)
    → get_connection_hook (create_hooked h).0.conn (create_hooked h).1
      ≡ some (create_hooked h).0.address
unfolding get_connection_hook create_hooked store_connection_hook
hook_of_created h = rw (==_refl h.next) refl

module _ {W : Type 0} (o : Outside W) (warn : Store W → Store W) where
  read-unhooked :
      (con : ℕ) (dest : Memory) (size nitems : ℕ) (c : Session) (w : Store W × Hooks)
      → get_connection_hook con w.1 ≡ none
      → session_read o warn con dest size nitems c w ≡ some (0, dest, w)
  unfolding session_read
  read-unhooked con dest size nitems c w e = rw (e, session_read) refl

  -- What the calls of an import return: those of src/exasol.c, and the reads of R's connection, of
  -- lengths `ns` and then of length `n`.
  pub record Imported (protocol : List ℕ) (host : List ℕ) (port : ℕ) (st : Store W) (h : Hooks)
      (session : SessionInfo) (x : Answer) (content : List ℕ) (dest : Memory) (ns : List ℕ) (n : ℕ)
      : Type 0 where
    pub object : RObject
    pub linked : Store W × Hooks
    pub started : Store W × Hooks
    pub in_between : Store W × Hooks
    pub all_read : Store W × Hooks
    pub finished : Store W × Hooks
    pub last_buffer : Memory
    pub connects :
        io_start (session_parts o warn) (session_side o warn) host port protocol empty (st, h)
        ≡ some (returned (pos 0), connected x, linked)
    pub host_known : proxy_host (connected x) ≡ some x.host
    pub port_known : proxy_port (connected x) ≡ x.port
    pub starts :
        query_start
          (session_parts o warn)
          (session_side o warn)
          (some session.handle)
          (some session.query)
          0
          (connected x)
          linked
        ≡ (returned (some object), importing x object, started)
    pub reads :
        session_reads o warn object.conn dest ns (importing x object) started
        ≡ some (take (total ns) content, in_between)
    pub reads_rest :
        session_read o warn object.conn dest 1 n (importing x object) in_between
        ≡ some (length content - total ns, last_buffer, all_read)
    pub rest : slice last_buffer 0 (length content - total ns) ≡ drop (total ns) content
    pub finishes :
        query_finish (session_parts o warn) (session_side o warn) 1 (importing x object) all_read
        ≡ some (returned (pos 0), empty, finished)
    pub clears : IsClear finished.0
    pub reads_none :
        (buffer : Memory) (size nitems : ℕ)
        → session_read o warn object.conn buffer size nitems empty finished
          ≡ some (0, buffer, finished)

  module _ (net : Network o.kernel) (p : (ssl : ℕ) → Packets (o.ssl.ssl_read ssl)) where
    -- The calls behind the first one, on a socket of either class.
    pub over-Imported :
        (protocol : List ℕ) (host : List ℕ) (port : ℕ) (st st0 : Store W) (h : Hooks)
        (session : SessionInfo) (a : AnySocket W) (x : Answer) (ls : List (List ℕ))
        (fs : List Frame) (l after : List ℕ) (dest : Memory) (ns : List ℕ) (n : ℕ)
        → Serves o net p session
        → io_start (session_parts o warn) (session_side o warn) host port protocol empty (st, h)
          ≡ some (returned (pos 0), connected x, (linked_store o warn a st0, h))
        → any_pending o.kernel o.ssl net p a
          ≡ header_bytes ls ++ (wire_bytes fs ++ (l ++ (line_end ++ after)))
        → All IsLine ls
        → All IsFrame fs
        → IsLast l
        → length (header_bytes ls) ≤ o.rounds
        → total ns ≤ length (payloads fs)
        → length (payloads fs) - total ns < n
        → total ns + n < size_mod
        → Imported protocol host port st h session x (payloads fs) dest ns n
    unfolding proxy_host proxy_port any_socket-Streams any_socket c_copy_host_name c_copy_host_port
        copy_host_name copy_host_port
    over-Imported protocol host port st st0 h session a x ls fs l after dest ns n serves linked
          pending header frames last f k d b =
        let (_, statement, w1) = o.odbc.alloc_statement session.handle (world_of a) in
        let s2 = running_socket o warn session a in
        let (line', dest', r1, r2, s3, c', begun, pieces, ended, rest) =
          read_pieces-import (any_socket o.kernel o.ssl) (any_socket-Streams o.kernel o.ssl net p)
            ls fs l after s2 st0.chunk o.rounds o.line dest ns n (serves.apart a ∙ pending) header
            frames last f k d b in
        let (object, h1) = create_hooked h in
        let c = importing x object in
        let reading = reading_store o warn session a st0 in
        let st1 = put_reader r1 reading in
        let left =
          session_reads-Left o warn object.conn object.address c h1 (hook_of_created h) refl dest ns
            (take (total ns) (payloads fs)) st1 r1 r2 (reader_of-put_reader r1 reading) pieces in
        let r3 : Reader (AnySocket W) = record {
          socket = some (
              (any_socket o.kernel o.ssl).shutdown_wr
                ((any_socket o.kernel o.ssl).send s3 reader_ok_answer).1);
          chunk = c';
        } in
        let st3 = put_reader r3 left.store in
        let (w4, finishes, unhooked, clear) =
          query_finish-ends o warn session statement x object (some tt) none st3 h1
            (serves.succeeds statement) left.same_executor in
        record {
          object = object;
          linked = (linked_store o warn a st0, h);
          started = (st1, h1);
          in_between = (left.store, h1);
          all_read = (st3, h1);
          finished = w4;
          last_buffer = dest';
          connects = linked;
          host_known = refl;
          port_known = refl;
          starts =
              query_start-imports o warn session a x st0 h line' r1 (serves.allocates (world_of a))
                begun;
          reads = left.stops;
          reads_rest =
              session_read-pipe_read o warn object.conn object.address c h1 (hook_of_created h) refl
                dest dest' 1 n (length (payloads fs) - total ns) left.store r2 r3 left.reader ended;
          rest = rest;
          finishes = finishes;
          clears = clear;
          reads_none =
              λ buffer size nitems. read-unhooked object.conn buffer size nitems empty w4 unhooked;
        }

    -- Where the network and ODBC keep their promises and on the request the peer sends a well-formed
    -- answer, a header of well-formed lines, well-formed chunks and a chunk of size 0, the calls of R in
    -- order, on the whole library: `asyncRODBCIOStart` returns 0, and the context has the address of the
    -- answer; `asyncRODBCQueryStart` returns a connection of R; reads through its hook, of any lengths,
    -- no more than the chunks have together, return the bytes of the chunks in order; a read of more
    -- than is left returns all that is left; `asyncRODBCQueryFinish` returns 0 and empties the context,
    -- and no socket and no executor is left; and a read of R's connection from then on returns nothing.
    pub query-Imported :
        (host : List ℕ) (port : ℕ) (st : Store W) (h : Hooks) (session : SessionInfo)
        (s : SocketImpl W) (x : Answer) (ls : List (List ℕ)) (fs : List Frame) (l after : List ℕ)
        (dest : Memory) (ns : List ℕ) (n : ℕ)
        → Serves o net p session
        → Tcp.connect o.kernel host (port % 65536) (Tcp.create st.sys) ≡ (ok tt, s)
        → IsAnswer x
        → after_request o.kernel net s
          ≡ answer_bytes x ++ (header_bytes ls ++ (wire_bytes fs ++ (l ++ (line_end ++ after))))
        → All IsLine ls
        → All IsFrame fs
        → IsLast l
        → length (header_bytes ls) ≤ o.rounds
        → total ns ≤ length (payloads fs)
        → length (payloads fs) - total ns < n
        → total ns + n < size_mod
        → Imported (codes "http") host port st h session x (payloads fs) dest ns n
    unfolding any_socket-Streams
    query-Imported host port st h session s x ls fs l after dest ns n serves connects v q header
          frames last f k d b =
        let (s1, linked, pending) =
          io_start-connects o warn net host port st h s x
            (header_bytes ls ++ (wire_bytes fs ++ (l ++ (line_end ++ after)))) connects v q in
        over-Imported (codes "http") host port st st h session (plain s1) x ls fs l after dest ns n
          serves linked pending header frames last f k d b
