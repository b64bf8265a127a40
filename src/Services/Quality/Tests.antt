-- ===== src/Services/Quality/Tests.antt =====
-- Tests of the quality figures, and their theorems at concrete inputs.
use qa_platform_learning.Common.Tests.{
  ℕ, ◌+◌, ◌≡◌, refl, sym, ap, ◌∙◌, inl, inr, none, some, [], ◌∷◌, nat_keyed,
}
use qa_platform_learning.Common.Lists.{length, All}
use qa_platform_learning.Common.Dict.{lookup, values}
use qa_platform_learning.Common.Lookup.{found_after}
use qa_platform_learning.Services.Work.Lockstep.{Matches, Judged}
use mathlib.Core.Path.{subst}
use qa_platform_learning.Services.Models.Status.{
  CaseStatus, CasePriority, CaseType, ExecutionStatus, ResultStatus, PlanStatus,
}
use qa_platform_learning.Services.Models.Records.{Case, Execution, CaseResult, Plan}
use qa_platform_learning.Services.Store.{Store}
use qa_platform_learning.Services.Work.InStep.{InStep}
use qa_platform_learning.Services.Quality.Figures.{Period, results_of}
use qa_platform_learning.Services.Quality.Summary.{
  case_summary, execution_summary, selected_executions,
}
use qa_platform_learning.Services.Quality.Summary.{defect_summary}
use qa_platform_learning.Services.Quality.Trends.{
  Granularity, Span, period_of, bucket_starts, period_bucket_starts, TrendPoint, trends,
}
use qa_platform_learning.Services.Quality.Totals.{AddsUp, trends_add_up}
use qa_platform_learning.Services.Quality.Rates.{IsProportion, summaries_agree}
use qa_platform_learning.Services.Quality.Completion.{report_complete}

abbrev result_of : ℕ → ResultStatus → CaseResult
result_of case_id status = record {
  case_id = case_id;
  case_title = "a case";
  status = status;
  actual_result = "";
  comment = "";
  executed_at = some 5;
}

abbrev over : Execution
over = record {
  id = 4;
  plan_id = 3;
  project_id = 1;
  status = ExecutionStatus.completed;
  results = result_of 7 ResultStatus.passed ∷ result_of 8 ResultStatus.failed ∷ [];
  created_at = 1;
  updated_at = 6;
  started_at = some 2;
  completed_at = some 6;
}

abbrev log_in : Case
log_in = record {
  id = 7;
  project_id = 1;
  suite_id = none;
  title = "log in";
  preconditions = "";
  steps = [];
  priority = CasePriority.p1;
  case_type = CaseType.automated;
  status = CaseStatus.active;
  tags = [];
  created_at = 0;
  updated_at = 0;
}

abbrev first_day : Period
first_day = record { offset = 0; start = 0; end = 100 }

summary : (execution_summary 1 first_day (over ∷ []) []).passed ≡ 1
unfolding execution_summary
summary = refl

-- Ten days, with a Monday as the ordinals 1 and 8, in UTC.
abbrev ten_days : Span
ten_days = record { offset = 0; date_from = 1; date_to = 10 }

-- An execution that ended on the third day.
abbrev late : Execution
late = record over { completed_at = some 259_200_000_006 }

late_counts : (execution_summary 1 (period_of ten_days) (late ∷ []) []).failed ≡ 1
unfolding execution_summary
late_counts = refl

summaries_agree_example :
    let period = period_of ten_days in
    let e = execution_summary 1 period (late ∷ []) [] in
    let c = case_summary 1 period (log_in ∷ []) (late ∷ []) in
    (e.total_results ≡ length (results_of (selected_executions 1 period (late ∷ []))))
    × (e.passed + e.failed + e.blocked + e.skipped + e.not_run ≡ e.total_results)
    × (e.executed_results + e.not_run ≡ e.total_results)
    × IsProportion e.completion_rate
    × IsProportion e.pass_rate
    × IsProportion e.failure_defect_coverage
    × IsProportion c.automation_coverage
    × IsProportion c.execution_reach
    × All
        (λ (p : TrendPoint). IsProportion p.pass_rate)
        (trends ten_days Granularity.week 1 (late ∷ []) [] [])
summaries_agree_example =
    summaries_agree ten_days Granularity.week 1 (log_in ∷ []) (late ∷ []) [] []

abbrev smoke : Plan
smoke = record {
  id = 3;
  project_id = 1;
  name = "smoke";
  description = "";
  case_ids = 7 ∷ 8 ∷ [];
  status = PlanStatus.completed;
  created_at = 0;
  updated_at = 6;
}

abbrev store : Store
store = record {
  projects = [];
  suites = [];
  cases = [];
  plans = (3, smoke) ∷ [];
  executions = (4, over) ∷ [];
  defects = [];
  snapshots = [];
  audits = [];
}

only : (k : ℕ) (x : Execution) → lookup k store.executions ≡ some x → (4 ≡ k) × (over ≡ x)
only k x found = elim (found_after 4 k over x [] found) [
  | inl here ↦ here
  | inr (_, before) ↦ absurd (cc)
]

only_plan : (k : ℕ) (p : Plan) → lookup k store.plans ≡ some p → (3 ≡ k) × (smoke ≡ p)
only_plan k p found = elim (found_after 3 k smoke p [] found) [
  | inl here ↦ here
  | inr (_, before) ↦ absurd (cc)
]

store-InStep : InStep store
store-InStep = record {
  own_cases = λ k c found. absurd (cc);
  own_plans = λ k p found.
      let (here, same) = only_plan k p found in ap (λ (a : Plan). a.id) (sym same) ∙ here;
  own_executions = λ k x found.
      let (here, same) = only k x found in ap (λ (a : Execution). a.id) (sym same) ∙ here;
  partner = λ k x found.
      subst (λ (y : Execution). (p : Plan) × (lookup y.plan_id store.plans ≡ some p) × Matches p y)
        (only k x found).1 (smoke, refl, (refl, refl, refl));
  single = λ j k x y found other e. sym (only j x found).0 ∙ (only k y other).0;
  executed = λ k p found begun. (4, over, refl, (only_plan k p found).0);
  judged = λ k x found. subst Judged (only k x found).1 (λ _. refl);
}

report_complete_example :
    let e = execution_summary 1 first_day (values store.executions) [] in
    (e.not_run ≡ 0) × (e.executed_results ≡ e.total_results)
report_complete_example = report_complete store 1 first_day [] store-InStep (refl, tt)

week_starts : period_bucket_starts ten_days Granularity.week ≡ 1 ∷ 8 ∷ []
unfolding bucket_starts
week_starts = refl

trends_add_up_example :
    let points = trends ten_days Granularity.week 1 (late ∷ []) [] [] in
    let e = execution_summary 1 (period_of ten_days) (late ∷ []) [] in
    let d = defect_summary 1 (period_of ten_days) [] [] in
    AddsUp (λ p. p.completed_executions) points e.completed_executions
    × AddsUp (λ p. p.passed) points e.passed
    × AddsUp (λ p. p.failed) points e.failed
    × AddsUp (λ p. p.blocked) points e.blocked
    × AddsUp (λ p. p.skipped) points e.skipped
    × AddsUp (λ p. p.not_run) points e.not_run
    × AddsUp (λ p. p.defects_created) points d.created_in_period
    × AddsUp (λ p. p.defects_resolved) points d.resolved_in_period
    × AddsUp (λ p. p.defects_closed) points d.closed_in_period
    × AddsUp (λ p. p.defects_reopened) points d.reopened_in_period
trends_add_up_example = trends_add_up ten_days Granularity.week 1 (late ∷ []) [] []
