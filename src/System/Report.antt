-- ===== src/System/Report.antt =====
-- What `destroyConnection` makes of the result of the query, over any parts of the controller.
use r_exasol.Base.{Bool-cases, List, Option, inl, inr, refl, some, true, ℤ, ◌≡◌}
use r_exasol.Answers.{Piece}
use r_exasol.Controller.{
  shut_all, Parts, Controller, shut, dropped, join_executor, report, released, query_failed,
}
use r_exasol.Context.{
  RSide, raised, jumped, destroyed, release_hook, shut_controller, destroy_connection,
}
use r_exasol.Entry.{query_finish, c_destroy_connection}
use r_exasol.Executor.{is_success}
use r_exasol.Executor.Odbc.{Odbc, Diagnosis, error_text}

module _ {W Es Sock Ex Re Wr Cn : Type 0} (parts : Parts W Es Sock Ex Re Wr)
    (r : RSide W Re Wr Cn) where
  pub query_finish-done :
      (o : Option Cn) (c : Controller Sock Ex Re Wr) (w w' : W) (msg : List Piece)
      → join_executor parts c.executor
          (dropped parts c.info.socket (shut parts c.info.socket (release_hook parts r o w)))
        ≡ some (msg, true, w')
      → query_finish parts r 1 (record { connection = o; controller = some c }) w
        ≡ some (
            destroyed parts r true o
              (jumped parts r msg true, released parts c, report parts msg w'))
  unfolding query_finish c_destroy_connection destroy_connection shut_controller shut_all
  query_finish-done o c w w' msg e = rw (e, shut_all, shut_controller, destroy_connection) refl

  -- A query that failed has a message, so that the error handler jumps out.
  pub error_text-raises :
      {V : Type 0} (odbc : Odbc V) (d : ℤ × Diagnosis × V) (o : Option Cn)
      (k : Controller Sock Ex Re Wr) (w : W)
      → destroyed parts r true o
          (jumped parts r (error_text odbc d).0 true, k, report parts (error_text odbc d).0 w)
        ≡ (
          raised,
          record { connection = o; controller = some k },
          parts.on_error (query_failed (error_text odbc d).0) w,
        )
  unfolding report error_text destroyed
  error_text-raises odbc (res, d, v) o k w = elim (Bool-cases (is_success res)) [
    | inl t ↦ rw (t, error_text, report, destroyed) refl
    | inr t ↦ rw (t, error_text, report, destroyed) refl
  ]
