-- ===== src/Tests/Query.antt =====
-- A query that fails, from its start to its report.
use r_exasol.Base.{codes, false, minus_one, none, pos, some, true, ℕ}
use r_exasol.Executor.{running, finished}
use r_exasol.Executor.Odbc
use r_exasol.Executor.Odbc.{Odbc, OdbcQueryExecutor, Diagnosis}
use r_exasol.Executor.Impl.{SessionInfo, Impl}

abbrev driver : Odbc ℕ
driver = record {
  alloc_statement = λ c w. (pos 0, some 7, w);
  free_statement = λ s w. w;
  exec_direct = λ s q w. (minus_one, w);
  get_diag_rec = λ s w. (
    pos 0,
    record { sqlstate = codes "42000"; native_error = pos 1; message = codes "syntax" },
    w,
  );
}

abbrev session : SessionInfo
session = record { handle = 1; query = codes "IMPORT" }

abbrev statement : OdbcQueryExecutor
statement = record { connection = 1; query = codes "IMPORT"; statement = some 7; res = none }

abbrev started : Impl
started = record { thread = running; done = false; executor = statement; notified = false }

abbrev failed : Impl
failed = record {
  thread = finished;
  done = true;
  executor = record statement { res = some minus_one };
  notified = true;
}
