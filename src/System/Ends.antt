-- ===== src/System/Ends.antt =====
-- The whole library keeps what the controller relies on when it shuts a transfer down: a query that was
-- started ends by itself, since the executor's thread waits for nothing but ODBC.
use r_exasol.Base.{Option, refl, some, true, ℕ, ◌∙◌, ◌≡◌}
use r_exasol.Controller.Shutdown.{Unblocks}
use r_exasol.Executor.Impl.{SessionInfo}
use r_exasol.System.{Outside, Store, placed, system}
use r_exasol.System.Close.{shut_socket-executor, destroy_socket-executor}
use r_exasol.System.Steps.{querying}
use r_exasol.System.Finish.{wait_for_query-ends}

-- The store's executor runs a query.
abbrev pub IsQuerying : {W : Type 0} → Store W → Type 0
IsQuerying st =
    (session : SessionInfo) × (statement : Option ℕ) × (st.executor
      ≡ some (querying session statement))

unfoldable pub system-Unblocks : {W : Type 0} (o : Outside W) → Unblocks (system o)
unfolding system
system-Unblocks o = record {
  is_running = λ _ st. IsQuerying st;
  is_shut = λ _ _. true;
  shuts = λ _ _. refl;
  stays_shut = λ _ _ _. refl;
  runs_on = λ _ _ st h.
      let (session, statement, e) = h in
      (session, statement, shut_socket-executor o (placed st.sys st.socket) st ∙ e);
  runs_without = λ _ _ st h.
      let (session, statement, e) = h in
      (session, statement, destroy_socket-executor o (placed st.sys st.socket) st ∙ e);
  joins = λ _ _ st h _.
      let (session, statement, e) = h in
      let ended = wait_for_query-ends o (λ v. v) session statement st e in
      (_, ended.store, ended.answers);
}
