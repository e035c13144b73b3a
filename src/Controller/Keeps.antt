-- ===== src/Controller/Keeps.antt =====
-- A part of the world that the controller's parts leave alone, the controller leaves alone.
use r_exasol.Base.{
  Bool, List, Option, Result, [], ap, err, none, ok, refl, some, sym, ℕ, ◌∙◌, ◌∷◌, ◌≡◌,
}
use r_exasol.Answers.{Thrown, Piece}
use r_exasol.Certificate.{CertificateException}
use r_exasol.Executor.Impl.{SessionInfo}
use r_exasol.Controller.{
  Parts, Controller, ConnectionInfo, ProtocolType, http, https, other, Failure, shut, dropped,
  is_valid_protocol, established, connect_with, connect, reader_started, reader_executed,
  start_reading, start_reading_over, writer_started, writer_executed, start_writing,
  start_writing_over, join_executor, report, shut_all,
}

-- `H` is the part of the world.
pub record Keeps {W Es Sock Ex Re Wr H : Type 0} (parts : Parts W Es Sock Ex Re Wr) (get : W → H)
    : Type 0 where
  pub create_establisher : (p : ProtocolType) (w : W) → get (parts.create_establisher p w).1 ≡ get w
  pub establish :
      (es : Es) (host : List ℕ) (port : ℕ) (w : W) → get (parts.establish es host port w).1 ≡ get w
  pub create_executor :
      (session : SessionInfo) (w : W) → get (parts.create_executor session w).1 ≡ get w
  pub execute : (ex : Ex) (w : W) → get (parts.execute ex w).1 ≡ get w
  pub join :
      (ex : Ex) (w w' : W) (msg : List Piece) → parts.join ex w ≡ some (msg, w') → get w' ≡ get w
  pub create_reader : (s : Sock) (w : W) → get (parts.create_reader s w).1 ≡ get w
  pub start_reader : (re : Re) (w : W) → get (parts.start_reader re w).1 ≡ get w
  pub create_writer : (s : Sock) (w : W) → get (parts.create_writer s w).1 ≡ get w
  pub start_writer : (wr : Wr) (w : W) → get (parts.start_writer wr w).1 ≡ get w
  pub shutdown_rd_wr : (s : Sock) (w : W) → get (parts.shutdown_rd_wr s w) ≡ get w
  pub drop_socket : (s : Sock) (w : W) → get (parts.drop_socket s w) ≡ get w
  pub drop_executor : (ex : Ex) (w : W) → get (parts.drop_executor ex w) ≡ get w
  pub on_error : (e : Failure) (w : W) → get (parts.on_error e w) ≡ get w

module _ {W Es Sock Ex Re Wr H : Type 0} (parts : Parts W Es Sock Ex Re Wr) (get : W → H)
    (keeps : Keeps parts get) where
  shut-keeps : (o : Option Sock) (w : W) → get (shut parts o w) ≡ get w
  shut-keeps none w = refl
  shut-keeps (some s) w = keeps.shutdown_rd_wr s w

  dropped-keeps : (o : Option Sock) (w : W) → get (dropped parts o w) ≡ get w
  dropped-keeps none w = refl
  dropped-keeps (some s) w = keeps.drop_socket s w

  reader_started-keeps :
      (re : Re) (c : Controller Sock Ex Re Wr) (r : Result Thrown (Unit {0}) × W)
      → get (reader_started parts re c r).2 ≡ get r.1
  unfolding reader_started
  reader_started-keeps re c (ok _, w) = refl
  reader_started-keeps re c (err e, w) = keeps.on_error _ w

  reader_executed-keeps :
      (s : Sock) (c : Controller Sock Ex Re Wr) (r : Result (List Piece) (Unit {0}) × W)
      → get (reader_executed parts s c r).2 ≡ get r.1
  unfolding reader_executed
  reader_executed-keeps s c (ok _, w) =
      let (re, w1) = parts.create_reader s w in
      reader_started-keeps re (record c { reader = some re }) (parts.start_reader re w1)
      ∙ keeps.start_reader re w1
      ∙ keeps.create_reader s w
  reader_executed-keeps s c (err e, w) = keeps.on_error _ w

  start_reading_over-keeps :
      (session : SessionInfo) (o : Option Sock) (c : Controller Sock Ex Re Wr) (w : W)
      → get (start_reading_over parts session o c w).2 ≡ get w
  unfolding start_reading_over
  start_reading_over-keeps session none c w = keeps.on_error _ w
  start_reading_over-keeps session (some s) c w =
      let (ex, w1) = parts.create_executor session w in
      reader_executed-keeps s (record c { executor = some ex }) (parts.execute ex w1)
      ∙ keeps.execute ex w1
      ∙ keeps.create_executor session w

  pub start_reading-keeps :
      (session : SessionInfo) (c : Controller Sock Ex Re Wr) (w : W)
      → get (start_reading parts session c w).2 ≡ get w
  unfolding start_reading
  start_reading-keeps session c w = start_reading_over-keeps session c.info.socket c w

  writer_started-keeps :
      (wr : Wr) (c : Controller Sock Ex Re Wr) (r : Result Thrown (Unit {0}) × W)
      → get (writer_started parts wr c r).2 ≡ get r.1
  unfolding writer_started
  writer_started-keeps wr c (ok _, w) = refl
  writer_started-keeps wr c (err e, w) = keeps.on_error _ w

  writer_executed-keeps :
      (s : Sock) (c : Controller Sock Ex Re Wr) (r : Result (List Piece) (Unit {0}) × W)
      → get (writer_executed parts s c r).2 ≡ get r.1
  unfolding writer_executed
  writer_executed-keeps s c (ok _, w) =
      let (wr, w1) = parts.create_writer s w in
      writer_started-keeps wr (record c { writer = some wr }) (parts.start_writer wr w1)
      ∙ keeps.start_writer wr w1
      ∙ keeps.create_writer s w
  writer_executed-keeps s c (err e, w) = keeps.on_error _ w

  start_writing_over-keeps :
      (session : SessionInfo) (o : Option Sock) (c : Controller Sock Ex Re Wr) (w : W)
      → get (start_writing_over parts session o c w).2 ≡ get w
  unfolding start_writing_over
  start_writing_over-keeps session none c w = keeps.on_error _ w
  start_writing_over-keeps session (some s) c w =
      let (ex, w1) = parts.create_executor session w in
      writer_executed-keeps s (record c { executor = some ex }) (parts.execute ex w1)
      ∙ keeps.execute ex w1
      ∙ keeps.create_executor session w

  pub start_writing-keeps :
      (session : SessionInfo) (c : Controller Sock Ex Re Wr) (w : W)
      → get (start_writing parts session c w).2 ≡ get w
  unfolding start_writing
  start_writing-keeps session c w = start_writing_over-keeps session c.info.socket c w

  pub report-keeps : (msg : List Piece) (w : W) → get (report parts msg w) ≡ get w
  unfolding report
  report-keeps [] w = refl
  report-keeps (x ∷ xs) w = keeps.on_error _ w

  -- What `join_executor` makes of the executor's result.
  abbrev with_done : Ex → Option (List Piece × W) → Option (List Piece × Bool × W)
  with_done ex none = none
  with_done ex (some (msg, w)) = some (msg, parts.is_done ex w, parts.drop_executor ex w)

  joined-keeps :
      (ex : Ex) (w w' : W) (msg : List Piece) (done : Bool) (r : Option (List Piece × W))
      → parts.join ex w ≡ r
      → with_done ex r ≡ some (msg, done, w')
      → get w' ≡ get w
  joined-keeps ex w w' msg done none e h = absurd (cc h)
  joined-keeps ex w w' msg done (some (m, w1)) e h =
      let at_end : parts.drop_executor ex w1 ≡ w' = cc h in
      ap get (sym at_end) ∙ keeps.drop_executor ex w1 ∙ keeps.join ex w w1 m e

  join_executor-keeps :
      (o : Option Ex) (w w' : W) (msg : List Piece) (done : Bool)
      → join_executor parts o w ≡ some (msg, done, w')
      → get w' ≡ get w
  unfolding join_executor
  join_executor-keeps none w w' msg done h = let at_end : w ≡ w' = cc h in ap get (sym at_end)
  join_executor-keeps (some ex) w w' msg done h =
      joined-keeps ex w w' msg done (parts.join ex w) refl h

  established-keeps :
      (c : Controller Sock Ex Re Wr) (r : Result Thrown (ConnectionInfo Sock) × W)
      → get (established parts c r).2 ≡ get r.1
  unfolding established
  established-keeps c (ok info, w) = dropped-keeps c.info.socket w
  established-keeps c (err e, w) =
      dropped-keeps c.info.socket (shut parts c.info.socket (parts.on_error _ w))
      ∙ shut-keeps c.info.socket (parts.on_error _ w)
      ∙ keeps.on_error _ w

  connect_with-keeps :
      (host : List ℕ) (port : ℕ) (c : Controller Sock Ex Re Wr)
      (made : Result CertificateException (Option Es) × W)
      → get (connect_with parts host port c made).2 ≡ get made.1
  unfolding connect_with
  connect_with-keeps host port c (err e, w) = refl
  connect_with-keeps host port c (ok none, w) = refl
  connect_with-keeps host port c (ok (some es), w) =
      established-keeps c (parts.establish es host port w) ∙ keeps.establish es host port w

  pub connect-keeps :
      (p : ProtocolType) (host : List ℕ) (port : ℕ) (c : Controller Sock Ex Re Wr) (w : W)
      → get (connect parts p host port c w).2 ≡ get w
  unfolding connect is_valid_protocol
  connect-keeps http host port c w =
      connect_with-keeps host port c (parts.create_establisher http w)
      ∙ keeps.create_establisher http w
  connect-keeps https host port c w =
      connect_with-keeps host port c (parts.create_establisher https w)
      ∙ keeps.create_establisher https w
  connect-keeps (other n) host port c w = refl

  pub shut_all-keeps :
      (c : Controller Sock Ex Re Wr) (w w' : W) (msg : List Piece) (done : Bool)
      → shut_all parts c w ≡ some (msg, done, w')
      → get w' ≡ get w
  unfolding shut_all
  shut_all-keeps c w w' msg done h =
      join_executor-keeps c.executor (dropped parts c.info.socket (shut parts c.info.socket w)) w'
        msg done h
      ∙ dropped-keeps c.info.socket (shut parts c.info.socket w)
      ∙ shut-keeps c.info.socket w
