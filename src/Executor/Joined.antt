-- ===== src/Executor/Joined.antt =====
-- What is known once the background thread is joined.
use mathlib.Core.Path.{subst}
use r_exasol.Base.{Bool-cases, inl, inr, none, not, refl, some, sym, true, ℤ, ◌↔◌, ◌∙◌, ◌≡◌}
use r_exasol.Executor.{
  Thread, not_started, running, finished, joined, Executor, Message, no_error, unknown_error,
  diagnosed, is_success, fresh, execute, execute_async_query, join, get_query_executor_result, Step,
  step_execute, step_run, step_join, Reached, at_start, after,
}

-- The result is there, and the error handler was called exactly where it is a failure.
pub record HasResult (x : Executor) : Type 0 where
  pub result : ℤ
  pub is_done : x.done ≡ true
  pub stored : x.res ≡ some result
  pub called : x.notified ≡ not (is_success result)

-- What holds in each place of the thread.
abbrev pub IsRun : Thread → Executor → Type 0
IsRun not_started x = x.res ≡ none
IsRun running x = x.res ≡ none
IsRun finished x = HasResult x
IsRun joined x = HasResult x

execute-IsRun :
    (x : Executor) (allocated : ℤ)
    → x.thread ≡ not_started
    → x.res ≡ none
    → IsRun (execute allocated x).1.thread (execute allocated x).1
unfolding execute
execute-IsRun x allocated e h = elim (Bool-cases (is_success allocated)) [
  | inl t ↦ rw t h
  | inr t ↦ rw t (subst (λ p. IsRun p x) (sym e) h)
]

Step-IsRun : (x y : Executor) → IsRun x.thread x → Step x y → IsRun y.thread y
unfolding execute_async_query join
Step-IsRun x y h (step_execute _ allocated e) =
    execute-IsRun x allocated e (subst (λ p. IsRun p x) e h)
Step-IsRun x y h (step_run _ r e) = record {
  result = r;
  is_done = refl;
  stored = refl;
  called = refl;
}
Step-IsRun x y h (step_join _ e) =
    let v : HasResult x = subst (λ t. IsRun t x) e h in
    record { result = v.result; is_done = v.is_done; stored = v.stored; called = v.called }

pub Reached-IsRun : (x : Executor) → Reached x → IsRun x.thread x
unfolding fresh
Reached-IsRun x at_start = refl
Reached-IsRun x (after z _ r s) = Step-IsRun z x (Reached-IsRun z r) s

result-defined :
    (diagnosis : ℤ) (x : Executor)
    → (v : HasResult x)
    → (m : Message) × (get_query_executor_result diagnosis x ≡ some m)
      × ((m ≡ no_error) ↔ (is_success v.result ≡ true))
unfolding get_query_executor_result
result-defined diagnosis x v = elim (Bool-cases (is_success v.result)) [
  | inl t ↦ (no_error, rw (v.stored, t) refl, ((λ _. t), (λ _. refl)))
  | inr t ↦ elim (Bool-cases (is_success diagnosis)) [
    | inl d ↦ (diagnosed, rw (v.stored, t, d) refl, ((λ e. cc e), (λ e. absurd (cc (sym t ∙ e)))))
    | inr d ↦
        (unknown_error, rw (v.stored, t, d) refl, ((λ e. cc e), (λ e. absurd (cc (sym t ∙ e)))))
  ]
]

-- In every state that the threads can reach, once the background thread is joined, the transfer is
-- done, and `getQueryExecutorResult` finds a value in `mRes`: it reports no error exactly where the
-- query succeeded, and the error handler was called exactly where it did not.
joined-HasResult :
    (x : Executor) (diagnosis : ℤ)
    → Reached x
    → x.thread ≡ joined
    → (v : HasResult x) × (m : Message) × (get_query_executor_result diagnosis x ≡ some m)
      × ((m ≡ no_error) ↔ (is_success v.result ≡ true))
joined-HasResult x diagnosis r e =
    let v : HasResult x = subst (λ t. IsRun t x) e (Reached-IsRun x r) in
    let (m, found, agrees) = result-defined diagnosis x v in (v, m, found, agrees)
