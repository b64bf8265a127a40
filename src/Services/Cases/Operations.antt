-- ===== src/Services/Cases/Operations.antt =====
-- `TestCaseService`, backend/app/services/test_cases.py. Ids are parsed UUIDs, payloads are those that
-- their validators accept; `strip` and `lower` are `str.strip` and `str.lower`.
use qa_platform_learning.Common.Tests.{
  ℕ, zero, suc, Bool, true, false, not, ◌&&◌, String, Option, none, some, List, [], ◌∷◌, nat_beq,
  is_blank, if◌then◌else◌, nat_keyed, text_keyed, ◌==◌,
}
use qa_platform_learning.Common.Texts.{text_before}
use qa_platform_learning.Common.Lists.{any, is_empty, length}
use qa_platform_learning.Common.Dict.{Dict, lookup}
use qa_platform_learning.Common.Result.{Result, ok, err, pure, gets, raise_if, ◌>>=◌, ◌>>◌}
use qa_platform_learning.Services.Errors.{ServiceError, missing, conflict, invalid_state}
use qa_platform_learning.Services.Repository.{
  require_item, create_item, update_item, delete_item, all_items, no_clash,
}
use qa_platform_learning.Services.Models.Status.{
  CaseStatus, CasePriority, CaseType, SuiteStatus, case_status_keyed, suite_status_keyed,
}
use qa_platform_learning.Services.Models.Records.{Step, Case, Plan, Suite}
use qa_platform_learning.Services.Defects.Model.{Defect}
use qa_platform_learning.Services.Plans.Operations.{or_old}
use qa_platform_learning.Services.Suites.Operations.{same_id, visited_has}
use qa_platform_learning.Services.Store.{
  Call, suites_repo, cases_repo, plans_repo, defects_repo, require_active_project,
}

-- `_TRANSITIONS`
abbrev pub case_may : CaseStatus → CaseStatus → Bool
case_may CaseStatus.draft CaseStatus.active = true
case_may CaseStatus.active CaseStatus.disabled = true
case_may CaseStatus.disabled CaseStatus.active = true
case_may _ _ = false

-- The loop of `_require_active_suite` from a suite to its root; like `_validate_parent` it visits no
-- suite twice.
unfoldable pub climb : (fuel : ℕ) → Dict ℕ Suite → List ℕ → Suite → Result ServiceError Unit
climb zero suites visited x = err missing
climb (suc fuel) suites visited x = elim (visited_has visited x.id) [
  | true ↦ err conflict
  | false ↦ elim (x.status == SuiteStatus.active) [
    | false ↦ err invalid_state
    | true ↦ elim x.parent_id [
      | none ↦ ok tt
      | some id ↦ elim (lookup id suites) [
        | none ↦ err missing
        | some y ↦ climb fuel suites (x.id ∷ visited) y
      ]
    ]
  ]
]

abbrev pub climb_all : Suite → Call Unit
climb_all x s = (climb (suc (length s.suites)) s.suites [] x, s)

-- `_require_active_suite`
unfoldable pub require_active_suite : (project_id suite_id : ℕ) → Call Suite
unfolding climb
require_active_suite project_id suite_id = do
  x ← require_item suites_repo suite_id
  raise_if (not (nat_beq x.project_id project_id)) conflict
  climb_all x
  pure x

unfoldable pub check_suite : ℕ → Option ℕ → Call Unit
unfolding require_active_suite
check_suite project_id none = pure tt
check_suite project_id (some id) = do _ ← require_active_suite project_id id; pure tt

-- A text into a sorted list without doubles.
abbrev pub place_text : String → List String → List String
place_text t [] = t ∷ []
place_text t (u ∷ us) =
    let rest = place_text t us in
    if t == u then u ∷ us else if text_before t u then t ∷ u ∷ us else u ∷ rest

pub record NewCase : Type 0 where
  pub project_id : ℕ
  pub suite_id : Option ℕ
  pub title : String
  pub preconditions : String
  pub steps : List Step
  pub priority : CasePriority
  pub case_type : CaseType
  pub tags : List String

-- `TestCaseUpdate`; a suite that is given may be None.
pub record CaseEdit : Type 0 where
  pub suite_id : Option (Option ℕ)
  pub title : Option String
  pub preconditions : Option String
  pub steps : Option (List Step)
  pub priority : Option CasePriority
  pub case_type : Option CaseType
  pub tags : Option (List String)

module _ (strip lower : String → String) where
  -- `_normalize_tags`
  unfoldable pub normalize_tags : List String → List String
  normalize_tags [] = []
  normalize_tags (t ∷ ts) =
      let rest = normalize_tags ts in
      if is_blank (strip t) then rest else place_text (lower (strip t)) rest

  unfoldable pub new_case : NewCase → (now fresh_id : ℕ) → Case
  unfolding normalize_tags
  new_case p now fresh_id = record {
    id = fresh_id;
    project_id = p.project_id;
    suite_id = p.suite_id;
    title = p.title;
    preconditions = p.preconditions;
    steps = p.steps;
    priority = p.priority;
    case_type = p.case_type;
    status = CaseStatus.draft;
    tags = normalize_tags p.tags;
    created_at = now;
    updated_at = now;
  }

  unfoldable pub create_case : NewCase → (now fresh_id : ℕ) → Call Case
  unfolding new_case check_suite
  create_case p now fresh_id = do
    _ ← require_active_project p.project_id
    check_suite p.project_id p.suite_id
    create_item cases_repo no_clash (new_case p now fresh_id)
    pure (new_case p now fresh_id)

  unfoldable pub tags_of : Option (List String) → Option (List String)
  unfolding normalize_tags
  tags_of none = none
  tags_of (some ts) = some (normalize_tags ts)

  unfoldable pub edited_case : CaseEdit → ℕ → Case → Case
  unfolding tags_of
  edited_case e now c = record c {
    suite_id = or_old c.suite_id e.suite_id;
    title = or_old c.title e.title;
    preconditions = or_old c.preconditions e.preconditions;
    steps = or_old c.steps e.steps;
    priority = or_old c.priority e.priority;
    case_type = or_old c.case_type e.case_type;
    tags = or_old c.tags (tags_of e.tags);
    updated_at = now;
  }

  unfoldable pub check_new_suite : ℕ → Option (Option ℕ) → Call Unit
  unfolding check_suite
  check_new_suite project_id none = pure tt
  check_new_suite project_id (some suite_id) = check_suite project_id suite_id

  unfoldable pub update_case : ℕ → CaseEdit → (now : ℕ) → Call Case
  unfolding edited_case check_new_suite
  update_case id e now = do
    c ← require_item cases_repo id
    check_new_suite c.project_id e.suite_id
    raise_if
        ((edited_case e now c).status == CaseStatus.active && is_empty (edited_case e now c).steps)
        invalid_state
    update_item cases_repo no_clash (edited_case e now c)
    pure (edited_case e now c)

abbrev pub check_enabling : Case → CaseStatus → Call Unit
check_enabling c CaseStatus.active = do
  _ ← require_active_project c.project_id
  raise_if (is_empty c.steps) invalid_state
  pure tt
check_enabling c _ = pure tt

abbrev pub with_case_status : CaseStatus → ℕ → Case → Case
with_case_status status now c = record c { status = status; updated_at = now }

unfoldable pub move_case : Case → CaseStatus → (now : ℕ) → Call Case
move_case c target now = do
  raise_if (not (case_may c.status target)) invalid_state
  check_enabling c target
  update_item cases_repo no_clash (with_case_status target now c)
  pure (with_case_status target now c)

unfoldable pub transition_case : ℕ → CaseStatus → (now : ℕ) → Call Case
unfolding move_case
transition_case id target now = do
  c ← require_item cases_repo id
  if c.status == target then pure c else move_case c target now

unfoldable pub delete_case : ℕ → Call ℕ
delete_case id = do
  c ← require_item cases_repo id
  planned ←
      gets (λ s. any (λ (p : Plan). any (λ x. nat_beq x c.id) p.case_ids) (all_items plans_repo s))
  raise_if planned conflict
  broken ←
      gets (λ s. any (λ (d : Defect). same_id d.case_id (some c.id)) (all_items defects_repo s))
  raise_if broken conflict
  delete_item cases_repo c.id
  pure c.id
