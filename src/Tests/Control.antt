-- ===== src/Tests/Control.antt =====
-- The controller over parts that always succeed. The world is whether the socket has been shut down,
-- and the background thread ends only then.
use r_exasol.Base.{Bool, List, Option, [], codes, false, none, ok, refl, some, true, ℕ, ◌≡◌}
use r_exasol.Answers.{Piece}
use r_exasol.Executor.Impl.{SessionInfo}
use r_exasol.Context.{RSide, Context, shut_controller}
use r_exasol.Context.{shut_controller}
use r_exasol.Controller.{
  Parts, Controller, start_reading, start_reading_over, reader_executed, reader_started,
  start_writing, start_writing_over, writer_executed, writer_started,
}
use r_exasol.Controller.Start.{Reading, Writing, start_reading-Reading, start_writing-Writing}

abbrev join_after : Bool → Option (List Piece × Bool)
join_after true = some ([], true)
join_after false = none

abbrev parts : Parts Bool ℕ ℕ ℕ ℕ ℕ
parts = record {
  create_establisher = λ protocol w. (ok (some 1), w);
  establish =
      λ es host port w. (ok (record { proxy_host = host; proxy_port = port; socket = some 2 }), w);
  create_executor = λ session w. (3, w);
  execute = λ ex w. (ok tt, w);
  join = λ ex w. join_after w;
  is_done = λ ex w. true;
  create_reader = λ s w. (4, w);
  start_reader = λ re w. (ok tt, w);
  create_writer = λ s w. (5, w);
  start_writer = λ wr w. (ok tt, w);
  shutdown_rd_wr = λ s w. true;
  drop_socket = λ s w. w;
  drop_executor = λ ex w. w;
  on_error = λ e w. w;
}

abbrev session : SessionInfo
session = record { handle = 1; query = codes "EXPORT" }

abbrev connected : Controller ℕ ℕ ℕ ℕ
connected = record {
  reader = none;
  writer = none;
  executor = none;
  info = record { proxy_host = codes "db"; proxy_port = 8563; socket = some 2 };
}

abbrev reading : Controller ℕ ℕ ℕ ℕ
reading = record connected { reader = some 4; executor = some 3 }

abbrev writing : Controller ℕ ℕ ℕ ℕ
writing = record connected { writer = some 5; executor = some 3 }

started_reading : start_reading parts session connected false ≡ (some 4, reading, false)
unfolding start_reading start_reading_over reader_executed reader_started
started_reading = refl

started_writing : start_writing parts session connected false ≡ (some 5, writing, false)
unfolding start_writing start_writing_over writer_executed writer_started
started_writing = refl

start_reading-Reading_example : Reading parts session connected reading false false 4
start_reading-Reading_example =
    start_reading-Reading parts session connected reading false false 4 started_reading

start_writing-Writing_example : Writing parts session connected writing false false 5
start_writing-Writing_example =
    start_writing-Writing parts session connected writing false false 5 started_writing

abbrev r_side : RSide Bool ℕ ℕ ℕ
r_side = record {
  create_reading = λ re w. (6, w);
  create_writing = λ wr w. (7, w);
  release = λ cn w. w;
  warn_not_done = λ w. w;
}
