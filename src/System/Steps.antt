-- ===== src/System/Steps.antt =====
-- The calls of R on the whole library, one by one, for an import without SSL.
use r_exasol.Base.{List, Option, codes, false, none, ok, pos, refl, some, true, ℕ, ◌%◌, ◌++◌, ◌≡◌}
use r_exasol.Tcp.{SocketImpl}
use r_exasol.Tcp
use r_exasol.Tcp.Stream.{Network, tcp_socket-Streams}
use r_exasol.MetaInfo.Answer.{Answer, IsAnswer, answer_bytes}
use r_exasol.Establish.Import.{after_request, http_connect-answer}
use r_exasol.Socket.Any.{AnySocket, plain, world_of, in_world}
use r_exasol.Factory.{create_connection_establisher}
use r_exasol.Executor.{running, is_success}
use r_exasol.Executor.Odbc.{OdbcQueryExecutor, initialize_query_executor, query_result}
use r_exasol.Executor.Odbc
use r_exasol.Executor.Impl.{SessionInfo, Impl, create_async_executor, initialized, start_query}
use r_exasol.Controller.{
  Controller, start_reading, start_reading_over, reader_executed, reader_started, connect_with,
  established, is_valid_protocol, shut_down, join_executor, report, released,
}
use r_exasol.Controller
use r_exasol.RConnection.Hooks.{RObject, Hooks}
use r_exasol.Context.{
  returned, init_destroyed, empty, convert_protocol, same_text, shut_controller, destroy_connection,
  init_connection, init_connected,
}
use r_exasol.Entry.{io_start, c_init_connection}
use r_exasol.System.{
  Outside, Store, establisher_made, plain_connected, establish, begin_query, system,
}
use r_exasol.System.Beside.{beside_hooks}
use r_exasol.System.Session.{Session, session_parts, session_side}

-- The controller once it is connected.
abbrev pub linked : Answer → Controller (Unit {0}) (Unit {0}) (Unit {0}) (Unit {0})
linked x = record {
  reader = none;
  writer = none;
  executor = none;
  info = record { proxy_host = x.host; proxy_port = x.port; socket = some tt };
}

-- The controller once it has let go of all.
abbrev pub let_go : Answer → Controller (Unit {0}) (Unit {0}) (Unit {0}) (Unit {0})
let_go x = record (linked x) { info = record (linked x).info { socket = none } }

abbrev pub connected : Answer → Session
connected x = record { connection = none; controller = some (linked x) }

-- The context while the query runs.
abbrev pub transferring : Answer → RObject → Option (Unit {0}) → Option (Unit {0}) → Session
transferring x object re wr = record {
  connection = some object;
  controller = some (record (linked x) { reader = re; writer = wr; executor = some tt });
}

abbrev pub importing : Answer → RObject → Session
importing x object = transferring x object (some tt) none

-- The executor whose statement was allocated and whose thread runs.
abbrev pub querying : SessionInfo → Option ℕ → Impl
querying session statement = record {
  thread = running;
  done = false;
  executor = record {
    connection = session.handle;
    query = session.query;
    statement = statement;
    res = none;
  };
  notified = false;
}

module _ {W : Type 0} (o : Outside W) (warn : Store W → Store W) where
  -- The store once the socket is there.
  abbrev pub linked_store : AnySocket W → Store W → Store W
  linked_store a st = record st { sys = world_of a; socket = some a }

  -- The store once the query runs, on a statement in a later world.
  abbrev pub querying_store : SessionInfo → Option ℕ → W → Store W → Store W
  querying_store session statement w st = record st {
    sys = w;
    executor = some (querying session statement);
  }

  pub begin_query-runs :
      (session : SessionInfo) (st : Store W)
      → is_success (o.odbc.alloc_statement session.handle st.sys).0 ≡ true
      → begin_query o (record st { executor = some (create_async_executor session) }) ≡ (
        ok tt,
        querying_store session
            (o.odbc.alloc_statement session.handle st.sys).1
            (o.odbc.alloc_statement session.handle st.sys).2
            st,
      )
  unfolding begin_query start_query initialized initialize_query_executor create_async_executor
      Odbc.create
  begin_query-runs session st yes_success = rw yes_success refl

  -- The socket and the store while the query runs, on the statement that was allocated.
  abbrev pub running_socket : SessionInfo → AnySocket W → AnySocket W
  running_socket session a = in_world (o.odbc.alloc_statement session.handle (world_of a)).2 a

  abbrev pub running_store : SessionInfo → AnySocket W → Store W → Store W
  running_store session a st =
      querying_store session (o.odbc.alloc_statement session.handle (world_of a)).1
        (o.odbc.alloc_statement session.handle (world_of a)).2 (linked_store a st)

  module _ (net : Network o.kernel) where
    pub io_start-connects :
        (host : List ℕ) (port : ℕ) (st : Store W) (h : Hooks) (s : SocketImpl W) (x : Answer)
        (rest : List ℕ)
        → Tcp.connect o.kernel host (port % 65536) (Tcp.create st.sys) ≡ (ok tt, s)
        → IsAnswer x
        → after_request o.kernel net s ≡ answer_bytes x ++ rest
        → (s' : SocketImpl W) × (io_start
              (session_parts o warn)
              (session_side o warn)
              host
              port
              (codes "http")
              empty
              (st, h)
            ≡ some (returned (pos 0), connected x, (linked_store (plain s') st, h)))
          × (net.incoming s'.world s'.descriptor ≡ rest)
    unfolding io_start c_init_connection init_connection init_connected init_destroyed
        destroy_connection shut_controller convert_protocol same_text Controller.connect
        connect_with is_valid_protocol established Controller.create session_parts beside_hooks
        system create_connection_establisher establisher_made establish plain_connected
        tcp_socket-Streams
    io_start-connects host port st h s x rest connects v p =
        let (s', answers, later) =
          http_connect-answer o.kernel net host (port % 65536) st.sys s x rest connects v p in
        (s', rw answers refl, later)
