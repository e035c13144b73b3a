-- ===== src/Controller/Start.antt =====
-- What a started transfer means.
use r_exasol.Base.{List, Option, Result, ap, err, none, ok, refl, some, sym, ◌∙◌, ◌≡◌}
use r_exasol.Answers.{Thrown, Piece}
use r_exasol.Executor.Impl.{SessionInfo}
use r_exasol.Controller.{
  Parts, Controller, reader_started, reader_executed, start_reading, start_reading_over,
  writer_started, writer_executed, start_writing, start_writing_over,
}

module _ {W Es Sock Ex Re Wr : Type 0} (parts : Parts W Es Sock Ex Re Wr) where
  -- The objects of a reader that was started.
  pub record Reading (session : SessionInfo) (c c' : Controller Sock Ex Re Wr) (w w' : W) (x : Re)
      : Type 0 where
    pub socket : Sock
    pub connected : c.info.socket ≡ some socket
    pub executor : Ex
    pub before : W
    pub begun : W
    pub made : W
    pub created : parts.create_executor session w ≡ (executor, before)
    pub executes : parts.execute executor before ≡ (ok tt, begun)
    pub reader_made : parts.create_reader socket begun ≡ (x, made)
    pub starts : parts.start_reader x made ≡ (ok tt, w')
    pub holds : c' ≡ record c { reader = some x; executor = some executor }

  reader_started-inv :
      (x x' : Re) (c c' : Controller Sock Ex Re Wr) (r : Result Thrown (Unit {0}) × W) (w' : W)
      → reader_started parts x c r ≡ (some x', c', w')
      → (c ≡ c') × (x ≡ x') × (r ≡ (ok tt, w'))
  unfolding reader_started
  reader_started-inv x x' c c' (ok _, w) w' h =
      (ap (λ p. p.1) h, cc (ap (λ p. p.0) h), ap (λ p. (ok tt, p.2)) h)
  reader_started-inv x x' c c' (err e, w) w' h = absurd (cc (ap (λ p. p.0) h))

  reader_executed-inv :
      (s : Sock) (c c' : Controller Sock Ex Re Wr) (r : Result (List Piece) (Unit {0}) × W) (w' : W)
      (x' : Re)
      → reader_executed parts s c r ≡ (some x', c', w')
      → (v v' : W) × (r ≡ (ok tt, v))
        × (parts.create_reader s v ≡ (x', v'))
        × (parts.start_reader x' v' ≡ (ok tt, w'))
        × (c' ≡ record c { reader = some x' })
  unfolding reader_executed
  reader_executed-inv s c c' (ok _, w) w' x' h =
      let (x, w1) = parts.create_reader s w in
      let (e, same, started) =
        reader_started-inv x x' (record c { reader = some x }) c' (parts.start_reader x w1) w' h in
      (
        w,
        w1,
        refl,
        ap (λ y. (y, w1)) same,
        ap (λ y. parts.start_reader y w1) (sym same) ∙ started,
        sym e ∙ ap (λ y. record c { reader = some y }) same,
      )
  reader_executed-inv s c c' (err e, w) w' x' h = absurd (cc (ap (λ p. p.0) h))

  start_reading_over-Reading :
      (session : SessionInfo) (o : Option Sock) (c c' : Controller Sock Ex Re Wr) (w w' : W)
      (x : Re)
      → c.info.socket ≡ o
      → start_reading_over parts session o c w ≡ (some x, c', w')
      → Reading session c c' w w' x
  unfolding start_reading_over
  start_reading_over-Reading session none c c' w w' x e h = absurd (cc (ap (λ p. p.0) h))
  start_reading_over-Reading session (some s) c c' w w' x e h =
      let (ex, w1) = parts.create_executor session w in
      let (v, v', executes, made, starts, holds) =
        reader_executed-inv s (record c { executor = some ex }) c' (parts.execute ex w1) w' x h in
      record {
        socket = s;
        connected = e;
        executor = ex;
        before = w1;
        begun = v;
        made = v';
        created = refl;
        executes = executes;
        reader_made = made;
        starts = starts;
        holds = holds;
      }

  -- Where `startReading` returns a reader, there was a connection, `execute` of the executor made for
  -- that session has started the query, the reader was made on the connection's socket behind that and
  -- has started, and the controller holds both and is else as before.
  pub start_reading-Reading :
      (session : SessionInfo) (c c' : Controller Sock Ex Re Wr) (w w' : W) (x : Re)
      → start_reading parts session c w ≡ (some x, c', w')
      → Reading session c c' w w' x
  unfolding start_reading
  start_reading-Reading session c c' w w' x h =
      start_reading_over-Reading session c.info.socket c c' w w' x refl h

  -- The objects of a writer that was started.
  pub record Writing (session : SessionInfo) (c c' : Controller Sock Ex Re Wr) (w w' : W) (x : Wr)
      : Type 0 where
    pub socket : Sock
    pub connected : c.info.socket ≡ some socket
    pub executor : Ex
    pub before : W
    pub begun : W
    pub made : W
    pub created : parts.create_executor session w ≡ (executor, before)
    pub executes : parts.execute executor before ≡ (ok tt, begun)
    pub writer_made : parts.create_writer socket begun ≡ (x, made)
    pub starts : parts.start_writer x made ≡ (ok tt, w')
    pub holds : c' ≡ record c { writer = some x; executor = some executor }

  writer_started-inv :
      (x x' : Wr) (c c' : Controller Sock Ex Re Wr) (r : Result Thrown (Unit {0}) × W) (w' : W)
      → writer_started parts x c r ≡ (some x', c', w')
      → (c ≡ c') × (x ≡ x') × (r ≡ (ok tt, w'))
  unfolding writer_started
  writer_started-inv x x' c c' (ok _, w) w' h =
      (ap (λ p. p.1) h, cc (ap (λ p. p.0) h), ap (λ p. (ok tt, p.2)) h)
  writer_started-inv x x' c c' (err e, w) w' h = absurd (cc (ap (λ p. p.0) h))

  writer_executed-inv :
      (s : Sock) (c c' : Controller Sock Ex Re Wr) (r : Result (List Piece) (Unit {0}) × W) (w' : W)
      (x' : Wr)
      → writer_executed parts s c r ≡ (some x', c', w')
      → (v v' : W) × (r ≡ (ok tt, v))
        × (parts.create_writer s v ≡ (x', v'))
        × (parts.start_writer x' v' ≡ (ok tt, w'))
        × (c' ≡ record c { writer = some x' })
  unfolding writer_executed
  writer_executed-inv s c c' (ok _, w) w' x' h =
      let (x, w1) = parts.create_writer s w in
      let (e, same, started) =
        writer_started-inv x x' (record c { writer = some x }) c' (parts.start_writer x w1) w' h in
      (
        w,
        w1,
        refl,
        ap (λ y. (y, w1)) same,
        ap (λ y. parts.start_writer y w1) (sym same) ∙ started,
        sym e ∙ ap (λ y. record c { writer = some y }) same,
      )
  writer_executed-inv s c c' (err e, w) w' x' h = absurd (cc (ap (λ p. p.0) h))

  start_writing_over-Writing :
      (session : SessionInfo) (o : Option Sock) (c c' : Controller Sock Ex Re Wr) (w w' : W)
      (x : Wr)
      → c.info.socket ≡ o
      → start_writing_over parts session o c w ≡ (some x, c', w')
      → Writing session c c' w w' x
  unfolding start_writing_over
  start_writing_over-Writing session none c c' w w' x e h = absurd (cc (ap (λ p. p.0) h))
  start_writing_over-Writing session (some s) c c' w w' x e h =
      let (ex, w1) = parts.create_executor session w in
      let (v, v', executes, made, starts, holds) =
        writer_executed-inv s (record c { executor = some ex }) c' (parts.execute ex w1) w' x h in
      record {
        socket = s;
        connected = e;
        executor = ex;
        before = w1;
        begun = v;
        made = v';
        created = refl;
        executes = executes;
        writer_made = made;
        starts = starts;
        holds = holds;
      }

  -- Where `startWriting` returns a writer, there was a connection, `execute` of the executor made for
  -- that session has started the query, the writer was made on the connection's socket behind that and
  -- has started, and the controller holds both and is else as before.
  pub start_writing-Writing :
      (session : SessionInfo) (c c' : Controller Sock Ex Re Wr) (w w' : W) (x : Wr)
      → start_writing parts session c w ≡ (some x, c', w')
      → Writing session c c' w w' x
  unfolding start_writing
  start_writing-Writing session c c' w w' x h =
      start_writing_over-Writing session c.info.socket c c' w w' x refl h
