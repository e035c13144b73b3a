-- ===== src/System.antt =====
-- The whole library put together: the objects that `ConnectionController` works with are those of
-- `ConnectionFactoryImpl` (src/r_exasol/connection/connection_factory_impl.cpp), of the two
-- establishers and of `OdbcSessionInfoImpl`, and R's connections have their hooks. One transfer
-- happens at a time: the store has the one socket, the static chunk and certificate, and the executor.
pub mod Beside
pub mod Close
pub mod Ends
pub mod Export
pub mod Exporting
pub mod Finish
pub mod Import
pub mod Importing
pub mod Reads
pub mod Report
pub mod Secure
pub mod Session
pub mod Steps
pub mod Writes
use r_exasol.Base.{Bool, List, Option, Result, [], err, false, none, ok, some, ℕ}
use r_exasol.Answers.{Piece, Thrown, connection_exception}
use r_exasol.Socket.{SocketOps}
use r_exasol.Chunk.{Memory, Chunk}
use r_exasol.Tcp.{Kernel, SocketImpl}
use r_exasol.Ssl.{SslLibrary, SslSocket}
use r_exasol.Socket.Any.{
  AnySocket, plain, secure, world_of, in_world, any_socket, any_shutdown_rd_wr, any_destroy,
}
use r_exasol.Certificate.{CryptoLibrary, Certificate, CertificateException}
use r_exasol.Factory.{
  Establisher, http_establisher, https_establisher, Outcome, made, unknown_protocol, uncaught,
  create_connection_establisher, create_http_reader, create_http_writer,
}
use r_exasol.Establish.{Established, http_connect, https_connect}
use r_exasol.Executor.{not_started, running, finished, joined}
use r_exasol.Executor.Odbc.{Odbc, query_result}
use r_exasol.Executor.Odbc
use r_exasol.Executor.Impl.{
  SessionInfo, Impl, create_async_executor, start_query, run_query, is_done, join_thread,
}
use r_exasol.Reader.{Reader}
use r_exasol.Reader
use r_exasol.Writer.{Writer}
use r_exasol.Writer
use r_exasol.Controller.{Parts, ConnectionInfo, ProtocolType, Failure, unsupported_protocol}
use r_exasol.RConnection.Hooks.{RObject, Hooks, get_connection_hook}
use r_exasol.Context.{Context}

-- The libraries, what the error handler does before it jumps out, the rounds that the header's loop is
-- given, and what its array has on the stack.
pub record Outside (W : Type 0) : Type 0 where
  pub kernel : Kernel W
  pub ssl : SslLibrary W
  pub crypto : CryptoLibrary W
  pub odbc : Odbc W
  pub handle : Failure → W → W
  pub rounds : ℕ
  pub line : Memory

-- The state of all objects. `sys` is the world; that in the socket is the one of its last use.
pub record Store (W : Type 0) : Type 0 where
  pub sys : W
  pub socket : Option (AnySocket W)
  pub chunk : Chunk
  pub certificate : Certificate
  pub executor : Option Impl

module _ {W : Type 0} where
  abbrev pub placed : W → Option (AnySocket W) → Option (AnySocket W)
  placed w none = none
  placed w (some s) = some (in_world w s)

  -- The reader on the socket and the chunk, and what it leaves.
  abbrev pub reader_of : Store W → Reader (AnySocket W)
  reader_of st = record { socket = placed st.sys st.socket; chunk = st.chunk }

  abbrev pub world_after : W → Option (AnySocket W) → W
  world_after w none = w
  world_after w (some s) = world_of s

  abbrev pub put_reader : Reader (AnySocket W) → Store W → Store W
  put_reader r st = record st {
    sys = world_after st.sys r.socket;
    socket = r.socket;
    chunk = r.chunk;
  }

  abbrev pub writer_of : Store W → Writer (AnySocket W)
  writer_of st = record { socket = placed st.sys st.socket; chunk = st.chunk }

  abbrev pub put_writer : Writer (AnySocket W) → Store W → Store W
  put_writer r st = record st {
    sys = world_after st.sys r.socket;
    socket = r.socket;
    chunk = r.chunk;
  }

module _ {W : Type 0} (o : Outside W) where
  abbrev pub io : SocketOps (AnySocket W)
  io = any_socket o.kernel o.ssl

  -- What follows `createConnectionEstablisher`.
  unfoldable pub establisher_made :
      Store W
      → Outcome × Certificate × W
      → Result CertificateException (Option Establisher) × Store W
  establisher_made st (made e, c, w) = (ok (some e), record st { sys = w; certificate = c })
  establisher_made st (unknown_protocol, c, w) =
      (ok none, record st { sys = o.handle unsupported_protocol w; certificate = c })
  establisher_made st (uncaught e, c, w) = (err e, record st { sys = w; certificate = c })

  -- What follows the establisher's `connect`: the socket is the new object.
  unfoldable pub plain_connected :
      Store W
      → Result (Thrown × W) (Established (SocketImpl W))
      → Result Thrown (ConnectionInfo (Unit {0})) × Store W
  plain_connected st (ok e) = (
    ok (record { proxy_host = e.proxy.host; proxy_port = e.proxy.port; socket = some tt }),
    record st { sys = e.socket.world; socket = some (plain e.socket) },
  )
  plain_connected st (err (e, w)) = (err e, record st { sys = w })

  unfoldable pub secure_connected :
      Store W
      → Result (Thrown × W) (Established (SslSocket W))
      → Result Thrown (ConnectionInfo (Unit {0})) × Store W
  secure_connected st (ok e) = (
    ok (record { proxy_host = e.proxy.host; proxy_port = e.proxy.port; socket = some tt }),
    record st { sys = e.socket.world; socket = some (secure e.socket) },
  )
  secure_connected st (err (e, w)) = (err e, record st { sys = w })

  unfoldable pub establish :
      Establisher → List ℕ → ℕ → Store W → Result Thrown (ConnectionInfo (Unit {0})) × Store W
  unfolding plain_connected secure_connected
  establish http_establisher host port st =
      plain_connected st (http_connect o.kernel host port st.sys)
  establish (https_establisher c) host port st =
      secure_connected st (https_connect o.kernel o.crypto o.ssl c host port st.sys)

  -- What follows `execute` of the executor.
  abbrev pub executed :
      Store W → Result (List Piece) (Unit {0}) × Impl × W → Result (List Piece) (Unit {0}) × Store W
  executed st (r, x, w) = (r, record st { sys = w; executor = some x })

  unfoldable pub begin_query : Store W → Result (List Piece) (Unit {0}) × Store W
  unfolding start_query
  begin_query st = elim st.executor [
    | none ↦ (err [], st)
    | some x ↦ executed st (start_query o.odbc x st.sys)
  ]

  -- The result of a query whose thread has ended.
  unfoldable pub answered : Store W → Impl → W → Option (List Piece × Store W)
  unfolding query_result join_thread
  answered st x w = elim (query_result o.odbc x.executor w) [
    | none ↦ none
    | some (msg, w') ↦ some (msg, record st { sys = w'; executor = some (join_thread o.odbc x) })
  ]

  -- `joinAndCheckResult` waits for a thread that runs. The controller has then let go of the socket,
  -- so that `onOdbcError` finds none.
  unfoldable pub waited : Store W → Impl → Option (List Piece × Store W)
  unfolding answered run_query
  waited st x = elim x.thread [
    | running ↦ let (x', w) = run_query o.odbc (λ w. w) x st.sys in answered st x' w
    | not_started ↦ answered st x st.sys
    | finished ↦ answered st x st.sys
    | joined ↦ answered st x st.sys
  ]

  unfoldable pub wait_for_query : Store W → Option (List Piece × Store W)
  unfolding waited
  wait_for_query st = elim st.executor [ none ↦ none | some x ↦ waited st x ]

  abbrev pub query_done : Option Impl → Bool
  query_done none = false
  query_done (some x) = is_done o.odbc x

  -- What follows `start` of the reader or the writer. A header that takes more than the rounds given is
  -- taken for an invalid one.
  abbrev pub reader_begun :
      Store W
      → Option (Result Thrown (Unit {0}) × Memory × Reader (AnySocket W))
      → Result Thrown (Unit {0}) × Store W
  reader_begun st none = (err (connection_exception "socket invalid"), st)
  reader_begun st (some (result, _, r)) = (result, put_reader r st)

  abbrev pub writer_begun :
      Store W
      → Option (Result Thrown (Unit {0}) × Memory × Writer (AnySocket W))
      → Result Thrown (Unit {0}) × Store W
  writer_begun st none = (err (connection_exception "socket invalid"), st)
  writer_begun st (some (result, _, r)) = (result, put_writer r st)

  abbrev pub shut_socket : Option (AnySocket W) → Store W → Store W
  shut_socket none st = st
  shut_socket (some s) st =
      let s' = any_shutdown_rd_wr o.kernel o.ssl s in
      record st { sys = world_of s'; socket = some s' }

  abbrev pub destroy_socket : Option (AnySocket W) → Store W → Store W
  destroy_socket none st = st
  destroy_socket (some s) st = record st { sys = any_destroy o.kernel o.ssl s; socket = none }

  abbrev pub destroy_executor : Option Impl → Store W → Store W
  destroy_executor none st = st
  destroy_executor (some x) st = record st {
    sys = Odbc.destroy o.odbc x.executor st.sys;
    executor = none;
  }

  -- The parts of the controller. An object has no name of its own, since there is one of each class.
  unfoldable pub system : Parts (Store W) Establisher (Unit {0}) (Unit {0}) (Unit {0}) (Unit {0})
  unfolding establisher_made create_connection_establisher establish begin_query wait_for_query
      create_http_reader create_http_writer Reader.start Writer.start
  system = record {
    create_establisher = λ protocol st.
        establisher_made st (create_connection_establisher o.crypto protocol st.certificate st.sys);
    establish = establish;
    create_executor =
        λ session st. (tt, record st { executor = some (create_async_executor session) });
    execute = λ _ st. begin_query st;
    join = λ _ st. wait_for_query st;
    is_done = λ _ st. query_done st.executor;
    create_reader =
        λ _ st. (tt, put_reader (create_http_reader (placed st.sys st.socket) st.chunk) st);
    start_reader = λ _ st. reader_begun st (Reader.start io o.rounds o.line (reader_of st));
    create_writer =
        λ _ st. (tt, put_writer (create_http_writer (placed st.sys st.socket) st.chunk) st);
    start_writer = λ _ st. writer_begun st (Writer.start io o.rounds o.line (writer_of st));
    shutdown_rd_wr = λ _ st. shut_socket (placed st.sys st.socket) st;
    drop_socket = λ _ st. destroy_socket (placed st.sys st.socket) st;
    drop_executor = λ _ st. destroy_executor st.executor st;
    on_error = λ e st. record st { sys = o.handle e st.sys };
  }
