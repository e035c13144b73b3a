-- ===== src/Executor.antt =====
-- `AsyncExecutorImpl` (src/r_exasol/connection/async_executor/async_executor_impl.h) with
-- `OdbcQueryExecutor` (src/r_exasol/odbc/odbc_query_executor.cpp): the query runs on a background
-- thread. The steps of the two threads form a relation; what ODBC returns is chosen with the step.
pub mod Joined
pub mod Odbc
pub mod Impl
pub mod Refine
use r_exasol.Base.{
  Bool, Option, false, if◌then◌else◌, negsuc, none, not, pos, some, true, ℤ, ◌==◌, ◌||◌, ◌≡◌,
}

-- `SQL_SUCCESS == res || SQL_SUCCESS_WITH_INFO == res`
unfoldable pub is_success : ℤ → Bool
is_success (pos n) = n == 0 || n == 1
is_success (negsuc n) = false

-- Where `mThread` stands.
pub data Thread : Type 0 where
  not_started : Thread
  running : Thread
  finished : Thread
  joined : Thread

-- `mRes` has no value (`none`) before the query has run. `notified` tells whether the error handler
-- was called.
pub record Executor : Type 0 where
  pub thread : Thread
  pub done : Bool
  pub res : Option ℤ
  pub notified : Bool

unfoldable pub fresh : Executor
fresh = record { thread = not_started; done = false; res = none; notified = false }

-- `execute`, where the statement was allocated: it throws otherwise, and the thread is not started.
unfoldable pub execute : ℤ → Executor → Bool × Executor
execute allocated x =
    if is_success allocated then (true, record x { done = false; thread = running }) else (false, x)

-- `executeAsyncQuery` of both, in the background, where `SQLExecDirect` returns `r`.
unfoldable pub execute_async_query : ℤ → Executor → Executor
execute_async_query r x = record x {
  res = some r;
  done = true;
  notified = not (is_success r);
  thread = finished;
}

-- `join`
unfoldable pub join : Executor → Executor
join x = record x { thread = joined }

-- What `getQueryExecutorResult` finds: no error, or what `SQLGetDiagRec` and its result give.
pub data Message : Type 0 where
  no_error : Message
  unknown_error : Message
  diagnosed : Message

-- `none` stands for the read of an `mRes` that has no value.
unfoldable pub get_query_executor_result : ℤ → Executor → Option Message
get_query_executor_result diagnosis x = elim x.res [
  | none ↦ none
  | some r ↦
      if is_success r
      then some no_error
      else if is_success diagnosis
      then some diagnosed
      else some unknown_error
]

pub data Step : Executor → Executor → Type 0 where
  step_execute :
      (x : Executor) (allocated : ℤ) → x.thread ≡ not_started → Step x (execute allocated x).1
  step_run : (x : Executor) (r : ℤ) → x.thread ≡ running → Step x (execute_async_query r x)
  step_join : (x : Executor) → x.thread ≡ finished → Step x (join x)

-- The states that the threads can reach.
pub data Reached : Executor → Type 0 where
  at_start : Reached fresh
  after : (x y : Executor) → Reached x → Step x y → Reached y
