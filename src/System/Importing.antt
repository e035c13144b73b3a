-- ===== src/System/Importing.antt =====
-- The start of an import, where the context has a connection: the query runs, and R gets its reader.
use r_exasol.Base.{ap, ok, some, true, ◌∙◌, ◌≡◌}
use r_exasol.Chunk.{Memory}
use r_exasol.MetaInfo.Answer.{Answer}
use r_exasol.Socket.Any.{AnySocket, world_of}
use r_exasol.Reader.{Reader}
use r_exasol.Reader
use r_exasol.Factory.{create_http_reader}
use r_exasol.Executor.{is_success}
use r_exasol.Executor.Impl.{SessionInfo}
use r_exasol.Controller.{start_reading, start_reading_over, reader_executed, reader_started}
use r_exasol.RConnection.Hooks.{Hooks, create_hooked, with_hooks}
use r_exasol.Context.{returned, create_read_connection, read_connected}
use r_exasol.Entry.{query_start, c_create_connection}
use r_exasol.System.{Outside, Store, io, put_reader, reader_begun, system}
use r_exasol.System.Beside.{aside, beside_hooks}
use r_exasol.System.Session.{session_parts, session_side}
use r_exasol.System.Reads.{reader_of-put_reader}
use r_exasol.System.Steps.{
  linked, connected, importing, linked_store, begin_query-runs, running_socket, running_store,
}

module _ {W : Type 0} (o : Outside W) (warn : Store W → Store W) where
  -- The store once the reader was made.
  abbrev pub reading_store : SessionInfo → AnySocket W → Store W → Store W
  reading_store session a st =
      put_reader (Reader.create (some (running_socket o warn session a)) st.chunk)
        (running_store o warn session a st)

  -- The reader, once the query runs and the header was read.
  start_reading-starts :
      (session : SessionInfo) (a : AnySocket W) (x : Answer) (st : Store W) (h : Hooks)
      (line : Memory) (r : Reader (AnySocket W))
      → is_success (o.odbc.alloc_statement session.handle (world_of a)).0 ≡ true
      → Reader.start
          (io o)
          o.rounds
          o.line
          (Reader.create (some (running_socket o warn session a)) st.chunk)
        ≡ some (ok tt, line, r)
      → start_reading (session_parts o warn) session (linked x) (linked_store o warn a st, h) ≡ (
        some tt,
        record (linked x) { reader = some tt; executor = some tt },
        (put_reader r (reading_store session a st), h),
      )
  unfolding start_reading start_reading_over reader_executed reader_started session_parts
      beside_hooks system create_http_reader
  start_reading-starts session a x st h line r allocates starts =
      let parts = session_parts o warn in
      let fresh = Reader.create (some (running_socket o warn session a)) st.chunk in
      ap (λ t. reader_executed parts tt (record (linked x) { executor = some tt }) (aside h t))
        (begin_query-runs o warn session (linked_store o warn a st) allocates)
      ∙ ap
          (λ t.
            reader_started parts tt (record (linked x) { reader = some tt; executor = some tt })
              (aside h (reader_begun o (reading_store session a st) t)))
          (ap (Reader.start (io o) o.rounds o.line)
              (reader_of-put_reader fresh (running_store o warn session a st))
            ∙ starts)

  -- R's connection to the reader.
  pub query_start-imports :
      (session : SessionInfo) (a : AnySocket W) (x : Answer) (st : Store W) (h : Hooks)
      (line : Memory) (r : Reader (AnySocket W))
      → is_success (o.odbc.alloc_statement session.handle (world_of a)).0 ≡ true
      → Reader.start
          (io o)
          o.rounds
          o.line
          (Reader.create (some (running_socket o warn session a)) st.chunk)
        ≡ some (ok tt, line, r)
      → query_start
          (session_parts o warn)
          (session_side o warn)
          (some session.handle)
          (some session.query)
          0
          (connected x)
          (linked_store o warn a st, h)
        ≡ (
          returned (some (create_hooked h).0),
          importing x (create_hooked h).0,
          (put_reader r (reading_store session a st), (create_hooked h).1),
        )
  unfolding query_start c_create_connection create_read_connection read_connected session_side
      with_hooks
  query_start-imports session a x st h line r allocates starts =
      ap (λ t. read_connected (session_parts o warn) (session_side o warn) (connected x) t)
        (start_reading-starts session a x st h line r allocates starts)
