-- ===== src/Executor/Odbc.antt =====
-- The statement of `OdbcQueryExecutor` (src/r_exasol/odbc/odbc_query_executor.cpp), over ODBC's calls.
use r_exasol.Base.{Bool, List, Option, Result, [], err, if◌then◌else◌, none, ok, some, ℕ, ℤ, ◌∷◌}
use r_exasol.Answers.{chars, Piece, text, number}
use r_exasol.Executor.{is_success}

-- What `SQLGetDiagRec` stores.
pub record Diagnosis : Type 0 where
  pub sqlstate : List ℕ
  pub native_error : ℤ
  pub message : List ℕ

-- A statement is a number; the allocation gives its result and what it stored.
pub record Odbc (W : Type 0) : Type 0 where
  pub alloc_statement : ℕ → W → ℤ × Option ℕ × W
  pub free_statement : ℕ → W → W
  pub exec_direct : Option ℕ → List ℕ → W → ℤ × W
  pub get_diag_rec : Option ℕ → W → ℤ × Diagnosis × W

pub record OdbcQueryExecutor : Type 0 where
  pub connection : ℕ
  pub query : List ℕ
  pub statement : Option ℕ
  pub res : Option ℤ

-- The constructor: `mRes` has no value.
unfoldable pub create : ℕ → List ℕ → OdbcQueryExecutor
create connection query = record {
  connection = connection;
  query = query;
  statement = none;
  res = none;
}

module _ {W : Type 0} (odbc : Odbc W) where
  -- The destructor
  unfoldable pub destroy : OdbcQueryExecutor → W → W
  destroy x w = elim x.statement [ none ↦ w | some s ↦ odbc.free_statement s w ]

  unfoldable pub initialize_query_executor :
      OdbcQueryExecutor → W → Result (List Piece) (Unit {0}) × OdbcQueryExecutor × W
  initialize_query_executor x w =
      let (res, statement, w1) = odbc.alloc_statement x.connection w in
      if is_success res then (ok tt, record x { statement = statement }, w1) else (
        err (text "Could not allocate SQLAllocHandle (" ∷ number res ∷ text ")" ∷ []),
        record x { statement = statement },
        w1,
      )

  unfoldable pub execute_query : OdbcQueryExecutor → W → Bool × OdbcQueryExecutor × W
  execute_query x w =
      let (res, w1) = odbc.exec_direct x.statement x.query w in
      (is_success res, record x { res = some res }, w1)

  -- The text for a query that failed.
  unfoldable pub error_text : ℤ × Diagnosis × W → List Piece × W
  error_text (res, d, w) =
      if is_success res
      then (
        text "Could not execute SQL: '"
            ∷ chars d.sqlstate
            ∷ text "' "
            ∷ number d.native_error
            ∷ text "' "
            ∷ chars d.message
            ∷ text "'"
            ∷ [],
        w,
      )
      else (text "Unknown ODBC error" ∷ [], w)

  -- `getQueryExecutorResult`, with no piece for an empty string; `none` stands for the read of an
  -- `mRes` that has no value.
  unfoldable pub query_result : OdbcQueryExecutor → W → Option (List Piece × W)
  unfolding error_text
  query_result x w = elim x.res [
    | none ↦ none
    | some r ↦
        if is_success r then some ([], w) else some (error_text (odbc.get_diag_rec x.statement w))
  ]
