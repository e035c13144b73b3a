-- ===== src/Tests/Hooks.antt =====
-- R uses the context twice, over parts that always succeed. The world is whether the socket has been
-- shut down, and the hooks of R's connections.
use r_exasol.Base.{
  Bool, List, Option, [], ap, codes, false, if◌then◌else◌, none, ok, pos, refl, some, sym, true, ℕ,
  ◌+◌, ◌==◌, ◌≡◌,
}
use r_exasol.Controller.{
  Parts, Controller, start_reading, start_reading_over, reader_executed, reader_started, connect,
  established, is_valid_protocol, shut_all, join_executor, report, released,
}
use r_exasol.Controller
use r_exasol.Answers.{Piece}
use r_exasol.Executor.Impl.{SessionInfo}
use r_exasol.Controller.Keeps.{Keeps}
use r_exasol.RConnection.Hooks.{
  RObject, Hooks, store_connection_hook, create_hooked, release_hooked, with_hooks,
}
use r_exasol.Context.{
  returned, init_destroyed, destroyed, Context, empty, init_connected, convert_protocol, same_text,
  shut_controller, destroy_connection, init_connection, read_connected, create_read_connection,
}
use r_exasol.Context.Uses.{
  NoneDangles, no_hooks, Call, step_init, step_destroy, step_read, Used, unused, used,
}
use r_exasol.Context.Hooked.{Used-NoneDangles}

abbrev join_after : Bool × Hooks → Option (List Piece × (Bool × Hooks))
join_after (true, h) = some ([], (true, h))
join_after (false, h) = none

abbrev parts : Parts (Bool × Hooks) ℕ ℕ ℕ ℕ ℕ
parts = record {
  create_establisher = λ protocol w. (ok (some 1), (false, w.1));
  establish =
      λ es host port w. (ok (record { proxy_host = host; proxy_port = port; socket = some 2 }), w);
  create_executor = λ session w. (3, w);
  execute = λ ex w. (ok tt, w);
  join = λ ex w. join_after w;
  is_done = λ ex w. true;
  create_reader = λ s w. (4, w);
  start_reader = λ re w. (ok tt, w);
  create_writer = λ s w. (5, w);
  start_writer = λ wr w. (ok tt, w);
  shutdown_rd_wr = λ s w. (true, w.1);
  drop_socket = λ s w. w;
  drop_executor = λ ex w. w;
  on_error = λ e w. w;
}

join_after-keeps :
    (w w' : Bool × Hooks) (msg : List Piece) → join_after w ≡ some (msg, w') → w'.1 ≡ w.1
join_after-keeps (true, h) w' msg e = let same : (true, h) ≡ w' = cc e in ap (λ x. x.1) (sym same)
join_after-keeps (false, h) w' msg e = absurd (cc e)

parts-Keeps : Keeps parts (λ w. w.1)
parts-Keeps = record {
  create_establisher = λ p w. refl;
  establish = λ es host port w. refl;
  create_executor = λ session w. refl;
  execute = λ ex w. refl;
  join = λ ex w w' msg h. join_after-keeps w w' msg h;
  create_reader = λ s w. refl;
  start_reader = λ re w. refl;
  create_writer = λ s w. refl;
  start_writer = λ wr w. refl;
  shutdown_rd_wr = λ s w. refl;
  drop_socket = λ s w. refl;
  drop_executor = λ ex w. refl;
  on_error = λ e w. refl;
}

abbrev session : SessionInfo
session = record { handle = 1; query = codes "EXPORT" }

abbrev warn : Bool → Bool
warn v = v

abbrev connected : Context RObject ℕ ℕ ℕ ℕ
connected = record {
  connection = none;
  controller = some (record {
    reader = none;
    writer = none;
    executor = none;
    info = record { proxy_host = codes "db"; proxy_port = 8563; socket = some 2 };
  });
}

abbrev reading : RObject → Context RObject ℕ ℕ ℕ ℕ
reading x = record {
  connection = some x;
  controller = some (record {
    reader = some 4;
    writer = none;
    executor = some 3;
    info = record { proxy_host = codes "db"; proxy_port = 8563; socket = some 2 };
  });
}

-- The hooks after an object was made, and after it was released.
abbrev hooked : Hooks → Hooks
hooked h = record { priv = λ k. if k == h.next then some h.next else h.priv k; next = h.next + 1 }

abbrev unhooked : RObject → Hooks → Hooks
unhooked x h = record h { priv = λ k. if k == x.conn then none else h.priv k }

abbrev object : ℕ → RObject
object n = record { address = n; conn = n }

init_step : (h : Hooks) → Call parts warn empty (false, h) connected (false, h)
unfolding init_connection init_connected init_destroyed destroy_connection shut_controller
    convert_protocol same_text connect established is_valid_protocol Controller.create
init_step h =
    step_init (codes "db") 8563 (codes "https") (returned (pos 0)) empty connected (false, h)
      (false, h) refl

read_step :
    (h : Hooks) → Call parts warn connected (false, h) (reading (object h.next)) (false, hooked h)
unfolding create_read_connection read_connected start_reading start_reading_over reader_executed
    reader_started with_hooks create_hooked store_connection_hook
read_step h = step_read session connected (false, h) refl

destroy_step :
    (x : RObject) (h : Hooks) → Call parts warn (reading x) (false, h) empty (true, unhooked x h)
unfolding destroy_connection shut_controller shut_all destroyed join_executor report released
    with_hooks release_hooked store_connection_hook
destroy_step x h =
    step_destroy true (returned (pos 0)) (reading x) empty (false, h) (true, unhooked x h) refl

reinit_step : (h : Hooks) → Call parts warn empty (true, h) connected (false, h)
unfolding init_connection init_connected init_destroyed destroy_connection shut_controller
    convert_protocol same_text connect established is_valid_protocol Controller.create
reinit_step h =
    step_init (codes "db") 8563 (codes "https") (returned (pos 0)) empty connected (true, h)
      (false, h) refl

abbrev once : Hooks
once = unhooked (object 0) (hooked no_hooks)

two_imports : Used parts warn false (reading (object 1)) (false, hooked once)
two_imports =
    used connected (reading (object 1)) (false, once) (false, hooked once)
      (used empty connected (true, once) (false, once)
        (used (reading (object 0)) empty (false, hooked no_hooks) (true, once)
          (used connected (reading (object 0)) (false, no_hooks) (false, hooked no_hooks)
            (used empty connected (false, no_hooks) (false, no_hooks) unused (init_step no_hooks))
            (read_step no_hooks))
          (destroy_step (object 0) (hooked no_hooks)))
        (reinit_step once))
      (read_step once)

Used-NoneDangles_example : NoneDangles (some (object 1)) (hooked once)
Used-NoneDangles_example =
    Used-NoneDangles parts warn parts-Keeps false (reading (object 1)) (false, hooked once)
      two_imports
