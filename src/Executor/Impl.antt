-- ===== src/Executor/Impl.antt =====
-- `AsyncExecutorImpl<OdbcQueryExecutor, …>`, the executor that `OdbcSessionInfoImpl` creates
-- (src/r_exasol/odbc/odbc_session_info_impl.cpp): the operations of both threads with their effects.
use r_exasol.Base.{
  Bool, List, Option, Result, err, false, if◌then◌else◌, none, not, ok, some, true, ℕ, ◌≡◌,
}
use r_exasol.Answers.{Piece}
use r_exasol.Executor.{Thread, not_started, running, finished, joined}
use r_exasol.Executor.Odbc
use r_exasol.Executor.Odbc.{
  Odbc, OdbcQueryExecutor, initialize_query_executor, execute_query, query_result,
}

-- `OdbcSessionInfoImpl`: the connection's handle, and the query.
pub record SessionInfo : Type 0 where
  pub handle : ℕ
  pub query : List ℕ

-- `notified` tells whether the error handler was called.
pub record Impl : Type 0 where
  pub thread : Thread
  pub done : Bool
  pub executor : OdbcQueryExecutor
  pub notified : Bool

-- `createAsyncExecutor`
unfoldable pub create_async_executor : SessionInfo → Impl
create_async_executor s = record {
  thread = not_started;
  done = false;
  executor = Odbc.create s.handle s.query;
  notified = false;
}

-- What comes of `joinAndCheckResult`: it blocks while the query runs, and reads an `mRes` without a
-- value where there was no query.
pub data Joined : Type 0 where
  still_running : Joined
  undefined_result : Joined
  reported : List Piece → Joined

module _ {W : Type 0} (odbc : Odbc W) where
  -- What follows `initializeQueryExecutor`.
  unfoldable pub initialized :
      Impl
      → Result (List Piece) (Unit {0}) × OdbcQueryExecutor × W
      → Result (List Piece) (Unit {0}) × Impl × W
  initialized x (ok _, q, w) = (ok tt, record x { executor = q; done = false; thread = running }, w)
  initialized x (err e, q, w) = (err e, record x { executor = q }, w)

  -- `execute`: an exception of the query executor passes through.
  unfoldable pub start_query : Impl → W → Result (List Piece) (Unit {0}) × Impl × W
  unfolding initialized
  start_query x w = initialized x (initialize_query_executor odbc x.executor w)

  -- `executeAsyncQuery`, on the background thread.
  unfoldable pub run_query : (W → W) → Impl → W → Impl × W
  run_query handler x w =
      let (result, q, w1) = execute_query odbc x.executor w in
      (
        record { thread = finished; done = true; executor = q; notified = not result },
        (if result then w1 else handler w1),
      )

  unfoldable pub is_done : Impl → Bool
  is_done x = x.done

  abbrev pub told : Option (List Piece × W) → Joined
  told none = undefined_result
  told (some (msg, w)) = reported msg

  -- `joinAndCheckResult`; there is nothing to join before the thread was started or after it was
  -- joined.
  unfoldable pub join_and_check_result : Impl → W → Joined
  join_and_check_result x w = elim x.thread [
    | running ↦ still_running
    | not_started ↦ told (query_result odbc x.executor w)
    | finished ↦ told (query_result odbc x.executor w)
    | joined ↦ told (query_result odbc x.executor w)
  ]

  unfoldable pub join_thread : Impl → Impl
  join_thread x = record x { thread = joined }

  -- The steps of the two threads. Whatever else happens in the world, between them, is left open.
  pub data Move : Impl → Impl → Type 0 where
    move_start : (x : Impl) (w : W) → x.thread ≡ not_started → Move x (start_query x w).1
    move_run :
        (x : Impl) (handler : W → W) (w : W) → x.thread ≡ running → Move x (run_query handler x w).0
    move_join : (x : Impl) → x.thread ≡ finished → Move x (join_thread x)

  pub data Runs (s : SessionInfo) : Impl → Type 0 where
    created : Runs s (create_async_executor s)
    moved : (x y : Impl) → Runs s x → Move x y → Runs s y
