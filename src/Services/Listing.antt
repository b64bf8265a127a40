-- ===== src/Services/Listing.antt =====
-- The list methods of the business services, backend/app/services: the stored items that pass the filters, sorted.
-- Ids are parsed UUIDs, whose order as texts is that of the numbers; `strip` and `casefold` are the methods of
-- `str`.
use qa_platform_learning.Common.Tests.{
  ℕ, inl, inr, Bool, true, false, not, ◌&&◌, ◌||◌, String, Option, none, some, List, [], ◌∷◌,
  nat_beq, ltb, if◌then◌else◌, text_keyed, ◌==◌, Bool-cases, is_some, nat_keyed,
}
use qa_platform_learning.Common.Texts.{text_before}
use qa_platform_learning.Common.Lists.{select}
use qa_platform_learning.Common.Result.{gets, raise_if, ◌>>◌}
use qa_platform_learning.Services.Errors.{conflict}
use qa_platform_learning.Services.Repository.{all_items}
use qa_platform_learning.Services.Models.Status.{
  ProjectStatus, CaseStatus, SuiteStatus, PlanStatus, ExecutionStatus, SnapshotScope,
  project_status_keyed, case_status_keyed, suite_status_keyed, plan_status_keyed,
  execution_status_keyed, snapshot_scope_keyed,
}
use qa_platform_learning.Services.Models.Records.{Project, Case, Suite, Plan, Execution, Snapshot}
use qa_platform_learning.Services.Defects.Model.{
  Defect, DefectStatus, Severity, same_status, severity_rank,
}
use qa_platform_learning.Services.Suites.Operations.{same_id}
use qa_platform_learning.Services.Store.{
  Store, Call, projects_repo, cases_repo, suites_repo, plans_repo, executions_repo, defects_repo,
  snapshots_repo,
}
use mathlib.Core.List.{Perm}
use mathlib.Core.List.Perm

module _ {A : Type 0} (before : A → A → Bool) where
  abbrev pub place_by : A → List A → List A
  place_by x [] = x ∷ []
  place_by x (y ∷ ys) = let rest = place_by x ys in if before y x then y ∷ rest else x ∷ y ∷ ys

  -- A stable sort.
  abbrev pub sort_by : List A → List A
  sort_by [] = []
  sort_by (x ∷ xs) = place_by x (sort_by xs)

  place_by-Perm : (x : A) (ys : List A) → Perm (place_by x ys) (x ∷ ys)
  place_by-Perm x [] = Perm.rfl
  place_by-Perm x (y ∷ ys) = elim (Bool-cases (before y x)) [
    | inl first ↦ rw first (Perm.trans (Perm.cons y (place_by-Perm x ys)) (Perm.swap x y ys))
    | inr later ↦ rw later Perm.rfl
  ]

  -- It only reorders.
  pub sort_by-Perm : (xs : List A) → Perm (sort_by xs) xs
  sort_by-Perm [] = Perm.rfl
  sort_by-Perm (x ∷ xs) = Perm.trans (place_by-Perm x (sort_by xs)) (Perm.cons x (sort_by-Perm xs))

-- A filter that is not given lets everything pass.
abbrev pub given : {F : Type 0} → Option F → (F → Bool) → Bool
given none p = true
given (some f) p = p f

-- `_list_unlocked` of the project service.
abbrev pub list_projects : Option ProjectStatus → Store → List Project
list_projects status s =
    sort_by (λ (a b : Project). ltb a.created_at b.created_at)
      (select (λ (x : Project). given status λ t. x.status == t) (all_items projects_repo s))

-- `_list_unlocked` of the test plan service.
abbrev pub list_plans : Option ℕ → Option PlanStatus → Store → List Plan
list_plans project_id status s =
    sort_by (λ (a b : Plan). ltb a.created_at b.created_at)
      (select
        (λ (x : Plan).
          given project_id (λ i. nat_beq x.project_id i) && given status λ t. x.status == t)
        (all_items plans_repo s))

-- `_list_unlocked` of the execution service.
abbrev pub list_executions : Option ℕ → Option ExecutionStatus → Store → List Execution
list_executions plan_id status s =
    sort_by (λ (a b : Execution). ltb a.created_at b.created_at)
      (select
        (λ (x : Execution).
          given plan_id (λ i. nat_beq x.plan_id i) && given status λ t. x.status == t)
        (all_items executions_repo s))

-- The suite that is asked for, or the cases without one.
abbrev pub of_suite : Option ℕ → (unassigned : Bool) → Case → Bool
of_suite none unassigned c = not (unassigned && is_some c.suite_id)
of_suite (some i) unassigned c = same_id c.suite_id (some i)

-- `_list_unlocked` of the test case service.
abbrev pub list_cases :
    Option ℕ → Option CaseStatus → Option ℕ → (unassigned : Bool) → Store → List Case
list_cases project_id status suite_id unassigned s =
    sort_by (λ (a b : Case). ltb a.created_at b.created_at)
      (select
        (λ (x : Case).
          given project_id (λ i. nat_beq x.project_id i)
          && (given status (λ t. x.status == t) && of_suite suite_id unassigned x))
        (all_items cases_repo s))

-- None, as an empty text, comes first.
abbrev pub parent_before : Option ℕ → Option ℕ → Bool
parent_before none (some b) = true
parent_before (some a) (some b) = ltb a b
parent_before _ none = false

module _ (casefold : String → String) where
  -- The order of the keys as tuples.
  abbrev pub suite_before : Suite → Suite → Bool
  suite_before a b =
      ltb a.project_id b.project_id
      || nat_beq a.project_id b.project_id
        && (parent_before a.parent_id b.parent_id
            || same_id a.parent_id b.parent_id
              && (ltb a.position b.position
                  || nat_beq a.position b.position
                    && (text_before (casefold a.name) (casefold b.name)
                        || casefold a.name == casefold b.name && ltb a.created_at b.created_at)))

  -- `list` of the suite service.
  abbrev pub list_suites : Option ℕ → Option SuiteStatus → Store → List Suite
  list_suites project_id status s = sort_by suite_before (
      select
        (λ (x : Suite).
          given project_id (λ i. nat_beq x.project_id i) && given status λ t. x.status == t)
        (all_items suites_repo s))

  -- `_list_unlocked` of the defect service.
  abbrev pub list_defects :
      (strip : String → String)
      → Option ℕ
      → Option DefectStatus
      → Option Severity
      → Option String
      → (case_id execution_id : Option ℕ) → Store
      → List Defect
  list_defects strip project_id status severity assignee case_id execution_id s =
      sort_by (λ (a b : Defect). ltb a.created_at b.created_at)
        (select
          (λ (x : Defect).
            given project_id (λ i. nat_beq x.project_id i)
            && (given status (λ t. same_status x.status t)
                && (given severity (λ t. nat_beq (severity_rank x.severity) (severity_rank t))
                    && (given assignee (λ t. casefold x.assignee == casefold (strip t))
                        && (given case_id (λ i. same_id x.case_id (some i))
                            && given execution_id λ i. same_id x.execution_id (some i))))))
          (all_items defects_repo s))

-- `list` of the snapshot service: a scope is a type and an id, or neither; the latest come first.
unfoldable pub list_snapshots : Option ℕ → Option SnapshotScope → Option ℕ → Call (List Snapshot)
list_snapshots project_id scope_type scope_id = do
  raise_if
      (not (is_some scope_type) && is_some scope_id || is_some scope_type && not (is_some scope_id))
      conflict
  gets λ s.
      sort_by
        (λ (a b : Snapshot).
          ltb b.created_at a.created_at
          || nat_beq b.created_at a.created_at && ltb b.version a.version)
        (select
          (λ (x : Snapshot).
            given project_id (λ i. nat_beq x.project_id i)
            && (given scope_type (λ t. x.scope_type == t)
                && given scope_id λ i. nat_beq x.scope_id i))
          (all_items snapshots_repo s))
