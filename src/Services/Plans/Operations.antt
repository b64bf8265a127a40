-- ===== src/Services/Plans/Operations.antt =====
-- `TestPlanService`, backend/app/services/test_plans.py. Ids are parsed UUIDs, payloads are those that
-- their validators accept, and `now` is what `utc_now` reads.
use qa_platform_learning.Common.Tests.{
  ℕ, Bool, true, false, not, ◌&&◌, ◌||◌, String, Option, none, some, List, [], ◌∷◌, nat_beq,
  if◌then◌else◌, nat_keyed, ◌==◌,
}
use qa_platform_learning.Common.Lists.{any, is_empty}
use qa_platform_learning.Common.Result.{pure, gets, raise_if, ◌>>=◌, ◌>>◌}
use qa_platform_learning.Services.Errors.{conflict, invalid_state}
use qa_platform_learning.Services.Repository.{
  require_item, create_item, update_item, delete_item, all_items, no_clash,
}
use qa_platform_learning.Services.Models.Status.{
  PlanStatus, CaseStatus, plan_status_keyed, case_status_keyed,
}
use qa_platform_learning.Services.Models.Records.{Case, Plan, Execution}
use qa_platform_learning.Services.Store.{
  Store, Call, plans_repo, cases_repo, executions_repo, require_active_project,
}

-- `_USER_TRANSITIONS`
abbrev pub user_may : PlanStatus → PlanStatus → Bool
user_may PlanStatus.draft PlanStatus.ready = true
user_may PlanStatus.ready PlanStatus.draft = true
user_may _ _ = false

-- `len(case_ids) != len(set(case_ids))`
abbrev pub has_double : List ℕ → Bool
has_double [] = false
has_double (x ∷ xs) = any (λ y. nat_beq y x) xs || has_double xs

abbrev pub check_case : ℕ → Bool → Case → Call Unit
check_case project_id require_active c = do
  raise_if (not (nat_beq c.project_id project_id)) conflict
  raise_if (require_active && not (c.status == CaseStatus.active)) invalid_state
  pure tt

unfoldable pub check_cases : ℕ → List ℕ → Bool → Call Unit
check_cases project_id [] require_active = pure tt
check_cases project_id (id ∷ ids) require_active = do
  c ← require_item cases_repo id
  check_case project_id require_active c
  check_cases project_id ids require_active

-- `_validate_cases`
unfoldable pub validate_cases : ℕ → List ℕ → Bool → Call Unit
unfolding check_cases
validate_cases project_id ids require_active = do
  raise_if (has_double ids) conflict
  check_cases project_id ids require_active

-- `TestPlanCreate` and `TestPlanUpdate`
pub record NewPlan : Type 0 where
  pub project_id : ℕ
  pub name : String
  pub description : String
  pub case_ids : List ℕ

pub record PlanEdit : Type 0 where
  pub name : Option String
  pub description : Option String
  pub case_ids : Option (List ℕ)

abbrev pub new_plan : NewPlan → (now fresh_id : ℕ) → Plan
new_plan p now fresh_id = record {
  id = fresh_id;
  project_id = p.project_id;
  name = p.name;
  description = p.description;
  case_ids = p.case_ids;
  status = PlanStatus.draft;
  created_at = now;
  updated_at = now;
}

unfoldable pub create_plan : NewPlan → (now fresh_id : ℕ) → Call Plan
unfolding validate_cases
create_plan p now fresh_id = do
  _ ← require_active_project p.project_id
  validate_cases p.project_id p.case_ids false
  create_item plans_repo no_clash (new_plan p now fresh_id)
  pure (new_plan p now fresh_id)

abbrev pub or_old : {A : Type 0} → A → Option A → A
or_old a none = a
or_old _ (some a) = a

abbrev pub edited_plan : PlanEdit → ℕ → Plan → Plan
edited_plan e now p = record p {
  name = or_old p.name e.name;
  description = or_old p.description e.description;
  case_ids = or_old p.case_ids e.case_ids;
  updated_at = now;
}

abbrev pub validate_given : ℕ → Option (List ℕ) → Call Unit
validate_given project_id none = pure tt
validate_given project_id (some ids) = validate_cases project_id ids false

unfoldable pub update_plan : ℕ → PlanEdit → (now : ℕ) → Call Plan
unfolding validate_cases
update_plan id e now = do
  p ← require_item plans_repo id
  raise_if (not (p.status == PlanStatus.draft)) invalid_state
  validate_given p.project_id e.case_ids
  update_item plans_repo no_clash (edited_plan e now p)
  pure (edited_plan e now p)

abbrev pub with_status : PlanStatus → ℕ → Plan → Plan
with_status status now p = record p { status = status; updated_at = now }

-- `_set_status_unlocked`
unfoldable pub set_status : ℕ → PlanStatus → (now : ℕ) → Call Plan
set_status id status now = do
  p ← require_item plans_repo id
  update_item plans_repo no_clash (with_status status now p)
  pure (with_status status now p)

-- An execution of the plan exists.
abbrev pub is_executed : ℕ → Store → Bool
is_executed id s = any (λ (x : Execution). nat_beq x.plan_id id) (all_items executions_repo s)

-- The checks of `transition` for its target.
unfoldable pub check_target : Plan → PlanStatus → Call Unit
unfolding validate_cases
check_target p PlanStatus.ready = do
  _ ← require_active_project p.project_id
  raise_if (is_empty p.case_ids) invalid_state
  validate_cases p.project_id p.case_ids true
check_target p PlanStatus.draft = do
  executed ← gets (is_executed p.id)
  raise_if executed invalid_state
  pure tt
check_target p _ = pure tt

abbrev pub move_plan : Plan → PlanStatus → (now : ℕ) → Call Plan
move_plan p target now = do
  raise_if (not (user_may p.status target)) invalid_state
  check_target p target
  set_status p.id target now

unfoldable pub transition_plan : ℕ → PlanStatus → (now : ℕ) → Call Plan
unfolding check_target set_status
transition_plan id target now = do
  p ← require_item plans_repo id
  if p.status == target then pure p else move_plan p target now

unfoldable pub delete_plan : ℕ → Call ℕ
delete_plan id = do
  p ← require_item plans_repo id
  raise_if (not (p.status == PlanStatus.draft || p.status == PlanStatus.ready)) invalid_state
  executed ← gets (is_executed p.id)
  raise_if executed conflict
  delete_item plans_repo p.id
  pure p.id
