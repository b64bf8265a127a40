-- ===== src/Services/Quality/Completion.antt =====
-- The completion rate of a store that the services keep (backend/app/services/quality.py and executions.py).
use qa_platform_learning.Common.Tests.{
  ℕ, ◌+◌, ◌≡◌, refl, inl, inr, true, false, List, [], ◌∷◌, ◌++◌, arith, nat_keyed, Bool-cases, some,
  ◌==◌,
}
use qa_platform_learning.Common.Lists.{any, All}
use qa_platform_learning.Common.Dict.{lookup, values, Distinct, Distinct-lookup, Every-values}
use qa_platform_learning.Services.Models.Status.{
  ExecutionStatus, ResultStatus, execution_status_keyed, result_status_keyed,
}
use qa_platform_learning.Services.Models.Records.{Execution, CaseResult}
use qa_platform_learning.Services.Defects.Model.{Defect}
use qa_platform_learning.Services.Executions.Operations.{is_unfinished}
use qa_platform_learning.Services.Store.{Store}
use qa_platform_learning.Services.Work.Lockstep.{Judged}
use qa_platform_learning.Services.Work.InStep.{InStep}
use qa_platform_learning.Services.Quality.Figures.{count, Period, results_of, counted}
use qa_platform_learning.Services.Quality.Summary.{
  selected_executions, is_selected, execution_summary,
}

abbrev unjudged : List CaseResult → ℕ
unjudged rs = count (λ (r : CaseResult). r.status == ResultStatus.not_run) rs

unjudged-append : (rs ss : List CaseResult) → unjudged (rs ++ ss) ≡ unjudged rs + unjudged ss
unjudged-append [] ss = ground arith
unjudged-append (r ∷ rs) ss = ground (arith, unjudged-append rs ss)

none_unjudged : (rs : List CaseResult) → any is_unfinished rs ≡ false → unjudged rs ≡ 0
none_unjudged [] h = refl
none_unjudged (r ∷ rs) h = ground (arith, h, none_unjudged rs)

selected_completed :
    (project_id : ℕ) (period : Period) (x : Execution)
    → is_selected project_id period x ≡ true
    → x.status ≡ ExecutionStatus.completed
selected_completed project_id period x h =
    (execution_status_keyed.agree_iff x.status ExecutionStatus.completed).0 (ground (arith, h))

selected-unjudged :
    (project_id : ℕ) (period : Period) (xs : List Execution)
    → All Judged xs
    → counted ResultStatus.not_run (selected_executions project_id period xs) ≡ 0
selected-unjudged project_id period [] h = refl
selected-unjudged project_id period (x ∷ xs) (judged, rest) =
    elim (Bool-cases (is_selected project_id period x)) [
      | inl chosen ↦ rw chosen (
          ground (
            arith,
            unjudged-append x.results (results_of (selected_executions project_id period xs)),
            none_unjudged x.results (judged (selected_completed project_id period x chosen)),
            selected-unjudged project_id period xs rest,
          ))
      | inr other ↦ rw other (selected-unjudged project_id period xs rest)
    ]

-- In a store in which plans and executions are in step, as every run of the services keeps it, and in which ids
-- are distinct, a report over the stored executions counts no result that was not run: the executed results are
-- all results, in every project and period.
pub report_complete :
    (s : Store) (project_id : ℕ) (period : Period) (defects : List Defect)
    → InStep s
    → Distinct s.executions
    → let e = execution_summary project_id period (values s.executions) defects in
      (e.not_run ≡ 0) × (e.executed_results ≡ e.total_results)
unfolding execution_summary
report_complete s project_id period defects l distinct =
    let every =
      Every-values (λ (k : ℕ) (x : Execution). lookup k s.executions ≡ some x) Judged l.judged
        s.executions (Distinct-lookup s.executions distinct) in
    let none_left = selected-unjudged project_id period (values s.executions) every in
    (none_left, ground (arith, none_left))
