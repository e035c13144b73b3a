-- ===== src/System/Finish.antt =====
-- The end of a transfer that is done: the query is joined, and R's connection is let go.
use r_exasol.Base.{
  ==_refl, Bool, Bool-cases, List, Option, [], ap, false, if◌then◌else◌, inl, inr, none, pos, refl,
  some, true, ℕ, ℤ, ◌∙◌, ◌≡◌,
}
use r_exasol.Answers.{Piece}
use r_exasol.Controller.{released, join_executor, report, query_failed}
use r_exasol.Context.{Returned, returned, raised, empty, jumped, destroyed}
use r_exasol.Entry.{query_finish}
use r_exasol.Executor.{is_success}
use r_exasol.Executor.Impl.{run_query, is_done, join_thread, SessionInfo, Impl}
use r_exasol.MetaInfo.Answer.{Answer}
use r_exasol.RConnection.Hooks.{
  RObject, Hooks, store_connection_hook, get_connection_hook, release_hooked, with_hooks,
}
use r_exasol.Executor.Odbc.{Odbc, OdbcQueryExecutor, Diagnosis, query_result, error_text}
use r_exasol.Executor.Odbc
use r_exasol.System.{
  answered, waited, wait_for_query, query_done, Outside, Store, destroy_executor, system,
}
use r_exasol.System.Beside.{maybe_aside, beside_hooks}
use r_exasol.System.Session.{Session, session_parts, session_side}
use r_exasol.System.Close.{IsClear, destroy_executor-IsClear, closed, closed-executor, closed_at}
use r_exasol.System.Report.{query_finish-done, error_text-raises}
use r_exasol.System.Steps.{linked, let_go, transferring, querying}

module _ {W : Type 0} (o : Outside W) (warn : Store W → Store W) where
  -- What `getQueryExecutorResult` says of a result, and the world behind it.
  abbrev pub reply : Option ℕ → ℤ × W → List Piece × W
  reply statement (res, w) =
      if is_success res then ([], w) else error_text o.odbc (o.odbc.get_diag_rec statement w)

  query_result-reply :
      (x : OdbcQueryExecutor) (res : ℤ) (w : W)
      → x.res ≡ some res
      → query_result o.odbc x w ≡ some (reply x.statement (res, w))
  unfolding query_result
  query_result-reply x res w e = elim (Bool-cases (is_success res)) [
    | inl t ↦ rw (e, t, query_result) refl
    | inr t ↦ rw (e, t, query_result) refl
  ]

  -- The store once the query has ended and was joined.
  pub record Waited (st : Store W) (message : List Piece) : Type 0 where
    pub store : Store W
    pub answers : wait_for_query o st ≡ some (message, store)
    pub all_done : query_done o store.executor ≡ true
    pub same_socket : store.socket ≡ st.socket

  same_either_way : {A : Type 0} (b : Bool) (a : A) → (if b then a else a) ≡ a
  same_either_way true a = refl
  same_either_way false a = refl

  abbrev joined_with : Store W → Impl → Option (List Piece × W) → Option (List Piece × Store W)
  joined_with st x q = elim q [
    | none ↦ none
    | some (msg, v) ↦ some (msg, record st { sys = v; executor = some (join_thread o.odbc x) })
  ]

  pub wait_for_query-ends :
      (session : SessionInfo) (statement : Option ℕ) (st : Store W)
      → st.executor ≡ some (querying session statement)
      → Waited st (reply statement (o.odbc.exec_direct statement session.query st.sys)).0
  unfolding wait_for_query waited answered run_query Odbc.execute_query join_thread is_done
  wait_for_query-ends session statement st e =
      let (res, w) = o.odbc.exec_direct statement session.query st.sys in
      let x = (run_query o.odbc (λ v. v) (querying session statement) st.sys).0 in
      record {
        store = record st {
          sys = (reply statement (res, w)).1;
          executor = some (join_thread o.odbc x);
        };
        answers =
            ap
              (λ ex. elim ex as (λ _. Option (List Piece × Store W)) [
                | none ↦ none
                | some y ↦ waited o st y
              ])
              e
            ∙ ap (answered o st x) (same_either_way (is_success res) w)
            ∙ ap (joined_with st x) (query_result-reply x.executor res w refl);
        all_done = refl;
        same_socket = refl;
      }

  -- What `destroyConnection` makes of the message of the query.
  abbrev after_reply :
      Answer
      → RObject
      → Option (Unit {0})
      → Option (Unit {0})
      → List Piece
      → Store W × Hooks
      → Returned ℤ × Session × (Store W × Hooks)
  after_reply x object re wr msg w =
      destroyed (session_parts o warn) (session_side o warn) true (some object) (
        jumped (session_parts o warn) (session_side o warn) msg true,
        let_go x,
        report (session_parts o warn) msg w,
      )

  query_finish-replies :
      (session : SessionInfo) (statement : Option ℕ) (x : Answer) (object : RObject)
      (re wr : Option (Unit {0})) (st : Store W) (h : Hooks)
      → st.executor ≡ some (querying session statement)
      → (w : Store W × Hooks) × (query_finish
            (session_parts o warn)
            (session_side o warn)
            1
            (transferring x object re wr)
            (st, h)
          ≡ some (
              after_reply x object re wr
                (reply statement (o.odbc.exec_direct statement session.query (closed o st).sys)).0
                w))
        × (get_connection_hook object.conn w.1 ≡ none)
        × IsClear w.0
  unfolding join_executor released session_parts session_side with_hooks beside_hooks system
      get_connection_hook release_hooked store_connection_hook
  query_finish-replies session statement x object re wr st h e =
      let parts = session_parts o warn in
      let ended = wait_for_query-ends session statement (closed o st) (closed-executor o st ∙ e) in
      let msg =
        (reply statement (o.odbc.exec_direct statement session.query (closed o st).sys)).0 in
      let st3 = destroy_executor o ended.store.executor ended.store in
      let h' = release_hooked object h in
      (
        (st3, h'),
        query_finish-done parts (session_side o warn) (some object)
            (record (linked x) { reader = re; writer = wr; executor = some tt }) (st, h) (st3, h')
            msg
            (ap
                (λ t.
                  elim (maybe_aside {V = Store W} {A = List Piece} h' t)
                    as (λ _. Option (List Piece × Bool × (Store W × Hooks))) [
                      | none ↦ none
                      | some (msg, w) ↦ some (msg, parts.is_done tt w, parts.drop_executor tt w)
                    ])
                ended.answers
              ∙ ap (λ b. some (msg, b, (st3, h'))) ended.all_done),
        rw (==_refl object.conn) refl,
        destroy_executor-IsClear o ended.store.executor ended.store refl
            (ended.same_socket ∙ closed_at o st.sys st.socket st.chunk st.certificate st.executor),
      )

  -- Where the query succeeds, `asyncRODBCQueryFinish` returns 0, and nothing is left.
  pub query_finish-ends :
      (session : SessionInfo) (statement : Option ℕ) (x : Answer) (object : RObject)
      (re wr : Option (Unit {0})) (st : Store W) (h : Hooks)
      → ((w : W) → is_success (o.odbc.exec_direct statement session.query w).0 ≡ true)
      → st.executor ≡ some (querying session statement)
      → (w : Store W × Hooks) × (query_finish
            (session_parts o warn)
            (session_side o warn)
            1
            (transferring x object re wr)
            (st, h)
          ≡ some (returned (pos 0), empty, w))
        × (get_connection_hook object.conn w.1 ≡ none)
        × IsClear w.0
  unfolding report destroyed
  query_finish-ends session statement x object re wr st h succeeds e =
      let (w, finishes, unhooked, clear) =
        query_finish-replies session statement x object re wr st h e in
      let (res, v) = o.odbc.exec_direct statement session.query (closed o st).sys in
      let silent : (reply statement (res, v)).0 ≡ [] = rw (succeeds (closed o st).sys) refl in
      (w, finishes ∙ ap (λ m. some (after_reply x object re wr m w)) silent, unhooked, clear)

  -- Whatever R's connection is for, where the query runs, and fails once the socket is shut down and
  -- gone, `asyncRODBCQueryFinish` raises an error: it gives the error handler, which does not return,
  -- the text that `getQueryExecutorResult` makes of the driver's diagnosis. R's connection has no hook
  -- then, there is no socket and no executor, and the context keeps the connection object and a
  -- controller that has let go of all.
  pub query_finish-reports :
      (session : SessionInfo) (statement : Option ℕ) (x : Answer) (object : RObject)
      (re wr : Option (Unit {0})) (st : Store W) (h : Hooks) (res : ℤ) (v : W)
      → o.odbc.exec_direct statement session.query (closed o st).sys ≡ (res, v)
      → is_success res ≡ false
      → st.executor ≡ some (querying session statement)
      → (w : Store W × Hooks) × (query_finish
            (session_parts o warn)
            (session_side o warn)
            1
            (transferring x object re wr)
            (st, h)
          ≡ some (
            raised,
            record { connection = some object; controller = some (let_go x) },
            (session_parts o warn).on_error
                (query_failed (error_text o.odbc (o.odbc.get_diag_rec statement v)).0)
                w,
          ))
        × (get_connection_hook object.conn w.1 ≡ none)
        × IsClear w.0
  query_finish-reports session statement x object re wr st h res v ran fails e =
      let parts = session_parts o warn in
      let (w, finishes, unhooked, clear) =
        query_finish-replies session statement x object re wr st h e in
      let said : (reply statement (res, v)).0
          ≡ (error_text o.odbc (o.odbc.get_diag_rec statement v)).0 =
        rw fails refl in
      (
        w,
        finishes
            ∙ ap (λ m. some (after_reply x object re wr m w))
                (ap (λ t. (reply statement t).0) ran ∙ said)
            ∙ ap some (
                error_text-raises parts (session_side o warn) o.odbc
                  (o.odbc.get_diag_rec statement v) (some object) (let_go x) w),
        unhooked,
        clear,
      )
