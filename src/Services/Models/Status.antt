-- ===== src/Services/Models/Status.antt =====
-- The enumerations of backend/app/domain/models.py, compared by their place in the enumeration.
use qa_platform_learning.Common.Tests.{
  ℕ, zero, suc, ◌≡◌, refl, sym, ap, ◌∙◌, ◌↔◌, true, Keyed, nat_beq, nat_beq_iff,
}

pub data ProjectStatus : Type 0 where
  active archived : ProjectStatus

pub data CaseStatus : Type 0 where
  draft active disabled : CaseStatus

pub data CasePriority : Type 0 where
  p0 p1 p2 p3 : CasePriority

pub data CaseType : Type 0 where
  manual automated : CaseType

pub data SuiteStatus : Type 0 where
  active archived : SuiteStatus

pub data SnapshotScope : Type 0 where
  project suite : SnapshotScope

pub data PlanStatus : Type 0 where
  draft ready running completed cancelled : PlanStatus

pub data ExecutionStatus : Type 0 where
  created running completed cancelled : ExecutionStatus

pub data ResultStatus : Type 0 where
  not_run passed failed blocked skipped : ResultStatus

-- A type whose members are told apart by a number.
module _ {E : Type 0} (rank : E → ℕ) (unrank : ℕ → E) (left : (e : E) → unrank (rank e) ≡ e) where
  pub ranks_agree_iff : (a b : E) → (nat_beq (rank a) (rank b) ≡ true) ↔ (a ≡ b)
  ranks_agree_iff a b = (
    λ h. sym (left a) ∙ ap unrank ((nat_beq_iff (rank a) (rank b)).0 h) ∙ left b,
    λ e. (nat_beq_iff (rank a) (rank b)).1 (ap rank e),
  )

  abbrev pub ranked : Keyed E
  ranked = record { agree = λ a b. nat_beq (rank a) (rank b); agree_iff = ranks_agree_iff }

abbrev pub project_status_rank : ProjectStatus → ℕ
project_status_rank ProjectStatus.active = 0
project_status_rank ProjectStatus.archived = 1

abbrev pub project_status_at : ℕ → ProjectStatus
project_status_at zero = ProjectStatus.active
project_status_at _ = ProjectStatus.archived

pub project_status_rank_left : (s : ProjectStatus) → project_status_at (project_status_rank s) ≡ s
project_status_rank_left ProjectStatus.active = refl
project_status_rank_left ProjectStatus.archived = refl

instance abbrev pub project_status_keyed : Keyed ProjectStatus
project_status_keyed = ranked project_status_rank project_status_at project_status_rank_left

abbrev pub case_status_rank : CaseStatus → ℕ
case_status_rank CaseStatus.draft = 0
case_status_rank CaseStatus.active = 1
case_status_rank CaseStatus.disabled = 2

abbrev pub case_status_at : ℕ → CaseStatus
case_status_at zero = CaseStatus.draft
case_status_at (suc zero) = CaseStatus.active
case_status_at _ = CaseStatus.disabled

pub case_status_rank_left : (s : CaseStatus) → case_status_at (case_status_rank s) ≡ s
case_status_rank_left CaseStatus.draft = refl
case_status_rank_left CaseStatus.active = refl
case_status_rank_left CaseStatus.disabled = refl

instance abbrev pub case_status_keyed : Keyed CaseStatus
case_status_keyed = ranked case_status_rank case_status_at case_status_rank_left

abbrev pub case_priority_rank : CasePriority → ℕ
case_priority_rank CasePriority.p0 = 0
case_priority_rank CasePriority.p1 = 1
case_priority_rank CasePriority.p2 = 2
case_priority_rank CasePriority.p3 = 3

abbrev pub case_priority_at : ℕ → CasePriority
case_priority_at zero = CasePriority.p0
case_priority_at (suc zero) = CasePriority.p1
case_priority_at (suc (suc zero)) = CasePriority.p2
case_priority_at _ = CasePriority.p3

pub case_priority_rank_left : (s : CasePriority) → case_priority_at (case_priority_rank s) ≡ s
case_priority_rank_left CasePriority.p0 = refl
case_priority_rank_left CasePriority.p1 = refl
case_priority_rank_left CasePriority.p2 = refl
case_priority_rank_left CasePriority.p3 = refl

instance abbrev pub case_priority_keyed : Keyed CasePriority
case_priority_keyed = ranked case_priority_rank case_priority_at case_priority_rank_left

abbrev pub case_type_rank : CaseType → ℕ
case_type_rank CaseType.manual = 0
case_type_rank CaseType.automated = 1

abbrev pub case_type_at : ℕ → CaseType
case_type_at zero = CaseType.manual
case_type_at _ = CaseType.automated

pub case_type_rank_left : (s : CaseType) → case_type_at (case_type_rank s) ≡ s
case_type_rank_left CaseType.manual = refl
case_type_rank_left CaseType.automated = refl

instance abbrev pub case_type_keyed : Keyed CaseType
case_type_keyed = ranked case_type_rank case_type_at case_type_rank_left

abbrev pub suite_status_rank : SuiteStatus → ℕ
suite_status_rank SuiteStatus.active = 0
suite_status_rank SuiteStatus.archived = 1

abbrev pub suite_status_at : ℕ → SuiteStatus
suite_status_at zero = SuiteStatus.active
suite_status_at _ = SuiteStatus.archived

pub suite_status_rank_left : (s : SuiteStatus) → suite_status_at (suite_status_rank s) ≡ s
suite_status_rank_left SuiteStatus.active = refl
suite_status_rank_left SuiteStatus.archived = refl

instance abbrev pub suite_status_keyed : Keyed SuiteStatus
suite_status_keyed = ranked suite_status_rank suite_status_at suite_status_rank_left

abbrev pub snapshot_scope_rank : SnapshotScope → ℕ
snapshot_scope_rank SnapshotScope.project = 0
snapshot_scope_rank SnapshotScope.suite = 1

abbrev pub snapshot_scope_at : ℕ → SnapshotScope
snapshot_scope_at zero = SnapshotScope.project
snapshot_scope_at _ = SnapshotScope.suite

pub snapshot_scope_rank_left : (s : SnapshotScope) → snapshot_scope_at (snapshot_scope_rank s) ≡ s
snapshot_scope_rank_left SnapshotScope.project = refl
snapshot_scope_rank_left SnapshotScope.suite = refl

instance abbrev pub snapshot_scope_keyed : Keyed SnapshotScope
snapshot_scope_keyed = ranked snapshot_scope_rank snapshot_scope_at snapshot_scope_rank_left

abbrev pub plan_status_rank : PlanStatus → ℕ
plan_status_rank PlanStatus.draft = 0
plan_status_rank PlanStatus.ready = 1
plan_status_rank PlanStatus.running = 2
plan_status_rank PlanStatus.completed = 3
plan_status_rank PlanStatus.cancelled = 4

abbrev pub plan_status_at : ℕ → PlanStatus
plan_status_at zero = PlanStatus.draft
plan_status_at (suc zero) = PlanStatus.ready
plan_status_at (suc (suc zero)) = PlanStatus.running
plan_status_at (suc (suc (suc zero))) = PlanStatus.completed
plan_status_at _ = PlanStatus.cancelled

pub plan_status_rank_left : (s : PlanStatus) → plan_status_at (plan_status_rank s) ≡ s
plan_status_rank_left PlanStatus.draft = refl
plan_status_rank_left PlanStatus.ready = refl
plan_status_rank_left PlanStatus.running = refl
plan_status_rank_left PlanStatus.completed = refl
plan_status_rank_left PlanStatus.cancelled = refl

instance abbrev pub plan_status_keyed : Keyed PlanStatus
plan_status_keyed = ranked plan_status_rank plan_status_at plan_status_rank_left

abbrev pub execution_status_rank : ExecutionStatus → ℕ
execution_status_rank ExecutionStatus.created = 0
execution_status_rank ExecutionStatus.running = 1
execution_status_rank ExecutionStatus.completed = 2
execution_status_rank ExecutionStatus.cancelled = 3

abbrev pub execution_status_at : ℕ → ExecutionStatus
execution_status_at zero = ExecutionStatus.created
execution_status_at (suc zero) = ExecutionStatus.running
execution_status_at (suc (suc zero)) = ExecutionStatus.completed
execution_status_at _ = ExecutionStatus.cancelled

pub execution_status_rank_left :
    (s : ExecutionStatus) → execution_status_at (execution_status_rank s) ≡ s
execution_status_rank_left ExecutionStatus.created = refl
execution_status_rank_left ExecutionStatus.running = refl
execution_status_rank_left ExecutionStatus.completed = refl
execution_status_rank_left ExecutionStatus.cancelled = refl

instance abbrev pub execution_status_keyed : Keyed ExecutionStatus
execution_status_keyed = ranked execution_status_rank execution_status_at execution_status_rank_left

abbrev pub result_status_rank : ResultStatus → ℕ
result_status_rank ResultStatus.not_run = 0
result_status_rank ResultStatus.passed = 1
result_status_rank ResultStatus.failed = 2
result_status_rank ResultStatus.blocked = 3
result_status_rank ResultStatus.skipped = 4

abbrev pub result_status_at : ℕ → ResultStatus
result_status_at zero = ResultStatus.not_run
result_status_at (suc zero) = ResultStatus.passed
result_status_at (suc (suc zero)) = ResultStatus.failed
result_status_at (suc (suc (suc zero))) = ResultStatus.blocked
result_status_at _ = ResultStatus.skipped

pub result_status_rank_left : (s : ResultStatus) → result_status_at (result_status_rank s) ≡ s
result_status_rank_left ResultStatus.not_run = refl
result_status_rank_left ResultStatus.passed = refl
result_status_rank_left ResultStatus.failed = refl
result_status_rank_left ResultStatus.blocked = refl
result_status_rank_left ResultStatus.skipped = refl

instance abbrev pub result_status_keyed : Keyed ResultStatus
result_status_keyed = ranked result_status_rank result_status_at result_status_rank_left
