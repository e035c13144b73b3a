-- ===== src/Controller.antt =====
-- `ConnectionController` (src/r_exasol/connection/connection_controller.cpp), over the abstract classes
-- that it uses: the connection factory and establisher, the executor of the query, the socket, the
-- reader and the writer. Objects are handles, and all of their state is in one world.
pub mod Connect
pub mod Keeps
pub mod Shutdown
pub mod Start
use r_exasol.Base.{Bool, List, Option, Result, [], err, false, none, ok, some, true, ℕ, ◌∷◌}
use r_exasol.Answers.{Thrown, Piece}
use r_exasol.Certificate.{CertificateException}
use r_exasol.Executor.Impl.{SessionInfo}

pub data ProtocolType : Type 0 where
  http : ProtocolType
  https : ProtocolType
  -- Any other value of the `enum`.
  other : ℕ → ProtocolType

-- What the error handler is told.
pub data Failure : Type 0 where
  connection_failed : Thrown → Failure
  executor_failed : List Piece → Failure
  query_failed : List Piece → Failure
  not_established : Failure
  unsupported_protocol : Failure

pub record ConnectionInfo (Sock : Type 0) : Type 0 where
  pub proxy_host : List ℕ
  pub proxy_port : ℕ
  pub socket : Option Sock

-- `create_establisher` throws what the factory lets out. `join` is `joinAndCheckResult`: `none` where it
-- blocks for ever or reads a result that has no value.
pub record Parts (W Es Sock Ex Re Wr : Type 0) : Type 0 where
  pub create_establisher : ProtocolType → W → Result CertificateException (Option Es) × W
  pub establish : Es → List ℕ → ℕ → W → Result Thrown (ConnectionInfo Sock) × W
  pub create_executor : SessionInfo → W → Ex × W
  pub execute : Ex → W → Result (List Piece) (Unit {0}) × W
  pub join : Ex → W → Option (List Piece × W)
  pub is_done : Ex → W → Bool
  pub create_reader : Sock → W → Re × W
  pub start_reader : Re → W → Result Thrown (Unit {0}) × W
  pub create_writer : Sock → W → Wr × W
  pub start_writer : Wr → W → Result Thrown (Unit {0}) × W
  pub shutdown_rd_wr : Sock → W → W
  -- The destructors, where the controller resets its pointer.
  pub drop_socket : Sock → W → W
  pub drop_executor : Ex → W → W
  -- What the error handler does. It returns here; that of the context then jumps out (Context).
  pub on_error : Failure → W → W

pub record Controller (Sock Ex Re Wr : Type 0) : Type 0 where
  pub reader : Option Re
  pub writer : Option Wr
  pub executor : Option Ex
  pub info : ConnectionInfo Sock

unfoldable pub is_valid_protocol : ProtocolType → Bool
is_valid_protocol http = true
is_valid_protocol https = true
is_valid_protocol (other n) = false

-- The constructor
unfoldable pub create : {Sock Ex Re Wr : Type 0} → Controller Sock Ex Re Wr
create = record {
  reader = none;
  writer = none;
  executor = none;
  info = record { proxy_host = []; proxy_port = 0; socket = none };
}

module _ {W Es Sock Ex Re Wr : Type 0} (parts : Parts W Es Sock Ex Re Wr) where
  abbrev pub shut : Option Sock → W → W
  shut none w = w
  shut (some s) w = parts.shutdown_rd_wr s w

  abbrev pub dropped : Option Sock → W → W
  dropped none w = w
  dropped (some s) w = parts.drop_socket s w

  -- What follows `start` of the reader.
  unfoldable pub reader_started :
      Re
      → Controller Sock Ex Re Wr
      → Result Thrown (Unit {0}) × W
      → Option Re × Controller Sock Ex Re Wr × W
  reader_started re c (ok _, w) = (some re, c, w)
  reader_started re c (err e, w) = (none, c, parts.on_error (connection_failed e) w)

  -- What follows `execute`.
  unfoldable pub reader_executed :
      Sock
      → Controller Sock Ex Re Wr
      → Result (List Piece) (Unit {0}) × W
      → Option Re × Controller Sock Ex Re Wr × W
  unfolding reader_started
  reader_executed s c (ok _, w) =
      let (re, w1) = parts.create_reader s w in
      reader_started re (record c { reader = some re }) (parts.start_reader re w1)
  reader_executed s c (err e, w) = (none, c, parts.on_error (executor_failed e) w)

  unfoldable pub start_reading_over :
      SessionInfo
      → Option Sock
      → Controller Sock Ex Re Wr
      → W
      → Option Re × Controller Sock Ex Re Wr × W
  unfolding reader_executed
  start_reading_over session none c w = (none, c, parts.on_error not_established w)
  start_reading_over session (some s) c w =
      let (ex, w1) = parts.create_executor session w in
      reader_executed s (record c { executor = some ex }) (parts.execute ex w1)

  unfoldable pub start_reading :
      SessionInfo → Controller Sock Ex Re Wr → W → Option Re × Controller Sock Ex Re Wr × W
  unfolding start_reading_over
  start_reading session c w = start_reading_over session c.info.socket c w

  unfoldable pub writer_started :
      Wr
      → Controller Sock Ex Re Wr
      → Result Thrown (Unit {0}) × W
      → Option Wr × Controller Sock Ex Re Wr × W
  writer_started wr c (ok _, w) = (some wr, c, w)
  writer_started wr c (err e, w) = (none, c, parts.on_error (connection_failed e) w)

  unfoldable pub writer_executed :
      Sock
      → Controller Sock Ex Re Wr
      → Result (List Piece) (Unit {0}) × W
      → Option Wr × Controller Sock Ex Re Wr × W
  unfolding writer_started
  writer_executed s c (ok _, w) =
      let (wr, w1) = parts.create_writer s w in
      writer_started wr (record c { writer = some wr }) (parts.start_writer wr w1)
  writer_executed s c (err e, w) = (none, c, parts.on_error (executor_failed e) w)

  unfoldable pub start_writing_over :
      SessionInfo
      → Option Sock
      → Controller Sock Ex Re Wr
      → W
      → Option Wr × Controller Sock Ex Re Wr × W
  unfolding writer_executed
  start_writing_over session none c w = (none, c, parts.on_error not_established w)
  start_writing_over session (some s) c w =
      let (ex, w1) = parts.create_executor session w in
      writer_executed s (record c { executor = some ex }) (parts.execute ex w1)

  unfoldable pub start_writing :
      SessionInfo → Controller Sock Ex Re Wr → W → Option Wr × Controller Sock Ex Re Wr × W
  unfolding start_writing_over
  start_writing session c w = start_writing_over session c.info.socket c w

  -- The message, and whether the transfer is done; without an executor there is nothing to join.
  unfoldable pub join_executor : Option Ex → W → Option (List Piece × Bool × W)
  join_executor none w = some ([], true, w)
  join_executor (some ex) w = elim (parts.join ex w) [
    | none ↦ none
    | some (msg, w1) ↦ some (msg, parts.is_done ex w1, parts.drop_executor ex w1)
  ]

  unfoldable pub report : List Piece → W → W
  report [] w = w
  report (x ∷ xs) w = parts.on_error (query_failed (x ∷ xs)) w

  -- Everything is released; the proxy's address stays.
  unfoldable pub released : Controller Sock Ex Re Wr → Controller Sock Ex Re Wr
  released c = record {
    reader = none;
    writer = none;
    executor = none;
    info = record c.info { socket = none };
  }

  -- All but the call of the error handler: the message that it is called with, and whether the
  -- transfer is done.
  unfoldable pub shut_all : Controller Sock Ex Re Wr → W → Option (List Piece × Bool × W)
  unfolding join_executor
  shut_all c w = join_executor c.executor (dropped c.info.socket (shut c.info.socket w))

  -- With a handler that returns.
  unfoldable pub shut_down :
      Controller Sock Ex Re Wr → W → Option (Bool × Controller Sock Ex Re Wr × W)
  unfolding shut_all report released
  shut_down c w = elim (shut_all c w) [
    | none ↦ none
    | some (msg, done, w1) ↦ some (done, released c, report msg w1)
  ]

  -- The callback of the background thread.
  unfoldable pub on_odbc_error : Controller Sock Ex Re Wr → W → W
  on_odbc_error c w = shut c.info.socket w

  -- What follows the establisher's `connect`: the handler comes before the old socket is shut down.
  unfoldable pub established :
      Controller Sock Ex Re Wr
      → Result Thrown (ConnectionInfo Sock) × W
      → Result CertificateException Bool × Controller Sock Ex Re Wr × W
  established c (ok info, w) = (ok true, record c { info = info }, dropped c.info.socket w)
  established c (err e, w) = (
    ok false,
    record c { info = record c.info { socket = none } },
    dropped c.info.socket (shut c.info.socket (parts.on_error (connection_failed e) w)),
  )

  -- What follows `createConnectionEstablisher`, whose exception is not caught.
  unfoldable pub connect_with :
      List ℕ
      → ℕ
      → Controller Sock Ex Re Wr
      → Result CertificateException (Option Es) × W
      → Result CertificateException Bool × Controller Sock Ex Re Wr × W
  unfolding established
  connect_with host port c (err e, w) = (err e, c, w)
  connect_with host port c (ok none, w) = (ok false, c, w)
  connect_with host port c (ok (some es), w) = established c (parts.establish es host port w)

  unfoldable pub connect :
      ProtocolType
      → List ℕ
      → ℕ
      → Controller Sock Ex Re Wr
      → W
      → Result CertificateException Bool × Controller Sock Ex Re Wr × W
  unfolding connect_with is_valid_protocol
  connect protocol host port c w = elim (is_valid_protocol protocol) [
    | false ↦ (ok false, c, w)
    | true ↦ connect_with host port c (parts.create_establisher protocol w)
  ]
