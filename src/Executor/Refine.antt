-- ===== src/Executor/Refine.antt =====
-- The executor with its effects follows the steps of the abstract one, and what `joinAndCheckResult`
-- then says.
use r_exasol.Base.{List, [], true, ◌↔◌, ◌≡◌}
use r_exasol.Answers.{Piece}
use r_exasol.Executor.{Thread, not_started, running, finished, joined, Executor, is_success}
use r_exasol.Executor.Joined.{HasResult}
use r_exasol.Executor.Odbc
use r_exasol.Executor.Odbc.{Odbc}
use r_exasol.Executor.Impl.{Impl, Joined, still_running, undefined_result, reported}

-- The abstract state: the statement and the query are forgotten.
abbrev pub abstract : Impl → Executor
abstract x = record {
  thread = x.thread;
  done = x.done;
  res = x.executor.res;
  notified = x.notified;
}

-- What `joinAndCheckResult` says, and what else is then known, in each place of the thread.
abbrev pub Says : Thread → Impl → Joined → Type 0
Says not_started x out = out ≡ undefined_result
Says running x out = out ≡ still_running
Says finished x out =
    (v : HasResult (abstract x)) × (msg : List Piece) × (out ≡ reported msg)
    × ((msg ≡ []) ↔ (is_success v.result ≡ true))
Says joined x out =
    (v : HasResult (abstract x)) × (msg : List Piece) × (out ≡ reported msg)
    × ((msg ≡ []) ↔ (is_success v.result ≡ true))
