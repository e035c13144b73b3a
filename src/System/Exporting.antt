-- ===== src/System/Exporting.antt =====
-- The start of an export, where the context has a connection: the query runs, and R gets its writer.
use r_exasol.Base.{ap, none, ok, refl, some, true, ◌∙◌, ◌≡◌}
use r_exasol.Chunk.{Memory, Chunk}
use r_exasol.Header.{read_http_header}
use r_exasol.MetaInfo.Answer.{Answer}
use r_exasol.Socket.Any.{AnySocket, world_of}
use r_exasol.Writer.{Writer}
use r_exasol.Writer
use r_exasol.Factory.{create_http_writer}
use r_exasol.Executor.{is_success}
use r_exasol.Executor.Impl.{SessionInfo}
use r_exasol.Controller.{start_writing, start_writing_over, writer_executed, writer_started}
use r_exasol.RConnection.Hooks.{RObject, Hooks, create_hooked, with_hooks}
use r_exasol.Context.{returned, create_write_connection, write_connected}
use r_exasol.Entry.{query_start, c_create_connection}
use r_exasol.System.{Outside, Store, io, put_writer, writer_begun, system}
use r_exasol.System.Writes.{writer_of-put_writer}
use r_exasol.System.Beside.{aside, beside_hooks}
use r_exasol.System.Session.{Session, session_parts, session_side}
use r_exasol.System.Steps.{
  running_socket, running_store, linked, connected, transferring, linked_store, begin_query-runs,
}

abbrev pub exporting : Answer → RObject → Session
exporting x object = transferring x object none (some tt)

module _ {W : Type 0} (o : Outside W) (warn : Store W → Store W) where
  -- The store once the writer was made.
  abbrev pub writing_store : SessionInfo → AnySocket W → Store W → Store W
  writing_store session a st =
      put_writer (Writer.create (some (running_socket o warn session a)) st.chunk)
        (running_store o warn session a st)

  -- The writer, once the query runs and the header was read.
  start_writing-starts :
      (session : SessionInfo) (a : AnySocket W) (x : Answer) (st : Store W) (h : Hooks)
      (line : Memory) (r : Writer (AnySocket W))
      → is_success (o.odbc.alloc_statement session.handle (world_of a)).0 ≡ true
      → Writer.start
          (io o)
          o.rounds
          o.line
          (Writer.create (some (running_socket o warn session a)) st.chunk)
        ≡ some (ok tt, line, r)
      → start_writing (session_parts o warn) session (linked x) (linked_store o warn a st, h) ≡ (
        some tt,
        record (linked x) { writer = some tt; executor = some tt },
        (put_writer r (writing_store session a st), h),
      )
  unfolding start_writing start_writing_over writer_executed writer_started session_parts
      beside_hooks system create_http_writer
  start_writing-starts session a x st h line r allocates starts =
      let parts = session_parts o warn in
      let fresh = Writer.create (some (running_socket o warn session a)) st.chunk in
      ap (λ t. writer_executed parts tt (record (linked x) { executor = some tt }) (aside h t))
        (begin_query-runs o warn session (linked_store o warn a st) allocates)
      ∙ ap
          (λ t.
            writer_started parts tt (record (linked x) { writer = some tt; executor = some tt })
              (aside h (writer_begun o (writing_store session a st) t)))
          (ap (Writer.start (io o) o.rounds o.line)
              (writer_of-put_writer fresh (running_store o warn session a st))
            ∙ starts)

  -- R's connection to the writer.
  pub query_start-exports :
      (session : SessionInfo) (a : AnySocket W) (x : Answer) (st : Store W) (h : Hooks)
      (line : Memory) (r : Writer (AnySocket W))
      → is_success (o.odbc.alloc_statement session.handle (world_of a)).0 ≡ true
      → Writer.start
          (io o)
          o.rounds
          o.line
          (Writer.create (some (running_socket o warn session a)) st.chunk)
        ≡ some (ok tt, line, r)
      → query_start
          (session_parts o warn)
          (session_side o warn)
          (some session.handle)
          (some session.query)
          1
          (connected x)
          (linked_store o warn a st, h)
        ≡ (
          returned (some (create_hooked h).0),
          exporting x (create_hooked h).0,
          (put_writer r (writing_store session a st), (create_hooked h).1),
        )
  unfolding query_start c_create_connection create_write_connection write_connected session_side
      with_hooks
  query_start-exports session a x st h line r allocates starts =
      ap (λ t. write_connected (session_parts o warn) (session_side o warn) (connected x) t)
        (start_writing-starts session a x st h line r allocates starts)

  pub writer-started :
      (line line' : Memory) (s s' : AnySocket W) (c : Chunk)
      → read_http_header (io o) o.rounds line s ≡ some (ok tt, line', s')
      → Writer.start (io o) o.rounds line (Writer.create (some s) c)
        ≡ some (ok tt, line', Writer.create (some s') c)
  unfolding Writer.start Writer.create
  writer-started line line' s s' c e = rw (e, Writer.start) refl
