-- ===== src/Services/Quality/Summary.antt =====
-- The summary of `QualityService.report`, backend/app/services/quality.py and backend/app/schemas/quality.py.
use qa_platform_learning.Common.Tests.{ℕ, ◌+◌, ◌-◌, Bool, not, ◌&&◌, some, List, map, nat_beq, ◌==◌}
use qa_platform_learning.Common.Lists.{select, length}
use qa_platform_learning.Services.Models.Status.{
  CaseStatus, CaseType, ExecutionStatus, ResultStatus, case_status_keyed, case_type_keyed,
  execution_status_keyed,
}
use qa_platform_learning.Services.Models.Records.{Case, Execution}
use qa_platform_learning.Services.Models.Audit.{AuditEvent}
use qa_platform_learning.Services.Defects.Model.{Defect, closed, same_status}
use qa_platform_learning.Services.Quality.Figures.{
  count, Period, within, Rate, rate, counted, reached_case_ids, failure_pairs, linked_pairs,
  reached_active, is_reopen_event, is_unresolved, is_high,
}

-- `TestCaseQualitySummary`
pub record CaseSummary : Type 0 where
  pub total_current : ℕ
  pub active_current : ℕ
  pub automated_active_current : ℕ
  pub automation_coverage : Rate
  pub execution_reach : Rate

-- `ExecutionQualitySummary`
pub record ExecutionSummary : Type 0 where
  pub completed_executions : ℕ
  pub total_results : ℕ
  pub executed_results : ℕ
  pub passed : ℕ
  pub failed : ℕ
  pub blocked : ℕ
  pub skipped : ℕ
  pub not_run : ℕ
  pub completion_rate : Rate
  pub pass_rate : Rate
  pub failure_defect_coverage : Rate

-- `DefectQualitySummary`
pub record DefectSummary : Type 0 where
  pub created_in_period : ℕ
  pub resolved_in_period : ℕ
  pub closed_in_period : ℕ
  pub reopened_in_period : ℕ
  pub not_closed_current : ℕ
  pub unresolved_current : ℕ
  pub high_severity_not_closed_current : ℕ

abbrev pub is_selected : ℕ → Period → Execution → Bool
is_selected project_id period x =
    nat_beq x.project_id project_id
    && (x.status == ExecutionStatus.completed && within period x.completed_at)

-- `selected_executions`
abbrev pub selected_executions : ℕ → Period → List Execution → List Execution
selected_executions project_id period xs = select (is_selected project_id period) xs

abbrev pub project_cases : ℕ → List Case → List Case
project_cases project_id cases = select (λ (c : Case). nat_beq c.project_id project_id) cases

abbrev pub active_cases : ℕ → List Case → List Case
active_cases project_id cases =
    select (λ (c : Case). c.status == CaseStatus.active) (project_cases project_id cases)

abbrev pub project_defects : ℕ → List Defect → List Defect
project_defects project_id defects =
    select (λ (d : Defect). nat_beq d.project_id project_id) defects

unfoldable pub case_summary : ℕ → Period → List Case → List Execution → CaseSummary
case_summary project_id period cases executions =
    let active = active_cases project_id cases in
    let automated = length (select (λ (c : Case). c.case_type == CaseType.automated) active) in
    let reached =
      reached_active (reached_case_ids (selected_executions project_id period executions))
        (map (λ (c : Case). c.id) active) in
    record {
      total_current = length (project_cases project_id cases);
      active_current = length active;
      automated_active_current = automated;
      automation_coverage = rate automated (length active);
      execution_reach = rate (length reached) (length active);
    }

-- `sum(result_counts.values())`
abbrev pub total_results : List Execution → ℕ
total_results xs =
    counted ResultStatus.not_run xs
    + (counted ResultStatus.passed xs
        + (counted ResultStatus.failed xs
            + (counted ResultStatus.blocked xs + counted ResultStatus.skipped xs)))

unfoldable pub execution_summary : ℕ → Period → List Execution → List Defect → ExecutionSummary
execution_summary project_id period executions defects =
    let selected = selected_executions project_id period executions in
    let total = total_results selected in
    let not_run = counted ResultStatus.not_run selected in
    let passed = counted ResultStatus.passed selected in
    let failed = counted ResultStatus.failed selected in
    let failures = failure_pairs selected in
    let linked = linked_pairs failures (project_defects project_id defects) in
    record {
      completed_executions = length selected;
      total_results = total;
      executed_results = total - not_run;
      passed = passed;
      failed = failed;
      blocked = counted ResultStatus.blocked selected;
      skipped = counted ResultStatus.skipped selected;
      not_run = not_run;
      completion_rate = rate (total - not_run) total;
      pass_rate = rate passed (passed + failed);
      failure_defect_coverage = rate (length linked) (length failures);
    }

-- Audit events come with their times.
abbrev pub is_reopened : ℕ → Period → ℕ × AuditEvent → Bool
is_reopened project_id period (time, e) =
    nat_beq e.project_id project_id && (is_reopen_event e && within period (some time))

unfoldable pub defect_summary : ℕ → Period → List Defect → List (ℕ × AuditEvent) → DefectSummary
defect_summary project_id period defects audits =
    let own = project_defects project_id defects in
    let not_closed = select (λ (d : Defect). not (same_status d.status closed)) own in
    record {
      created_in_period = count (λ (d : Defect). within period (some d.created_at)) own;
      resolved_in_period = count (λ (d : Defect). within period d.resolved_at) own;
      closed_in_period = count (λ (d : Defect). within period d.closed_at) own;
      reopened_in_period = count (is_reopened project_id period) audits;
      not_closed_current = length not_closed;
      unresolved_current = count (λ (d : Defect). is_unresolved d.status) own;
      high_severity_not_closed_current = count (λ (d : Defect). is_high d.severity) not_closed;
    }
