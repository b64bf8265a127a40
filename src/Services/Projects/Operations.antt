-- ===== src/Services/Projects/Operations.antt =====
-- `ProjectService`, backend/app/services/projects.py, without a cache (`cache_invalidator` is None).
-- `upper` is `str.upper`.
use qa_platform_learning.Common.Tests.{
  ℕ, Bool, true, false, not, ◌&&◌, String, Option, nat_beq, if◌then◌else◌, nat_keyed, text_keyed,
  ◌==◌,
}
use qa_platform_learning.Common.Lists.{any}
use qa_platform_learning.Common.Result.{pure, gets, raise_if, ◌>>=◌, ◌>>◌}
use qa_platform_learning.Services.Errors.{conflict}
use qa_platform_learning.Services.Repository.{
  require_item, create_item, update_item, delete_item, all_items,
}
use qa_platform_learning.Services.Models.Status.{
  ProjectStatus, PlanStatus, ExecutionStatus, project_status_keyed, plan_status_keyed,
  execution_status_keyed,
}
use qa_platform_learning.Services.Models.Records.{Project, Case, Plan, Execution, Suite, Snapshot}
use qa_platform_learning.Services.Defects.Model.{Defect, closed, same_status}
use qa_platform_learning.Services.Plans.Operations.{or_old}
use qa_platform_learning.Services.Store.{
  Call, projects_repo, cases_repo, plans_repo, executions_repo, defects_repo, suites_repo,
  snapshots_repo,
}

pub record ProjectEdit : Type 0 where
  pub name : Option String
  pub description : Option String

-- The unique field of projects.
abbrev pub same_key : Project → Project → Bool
same_key a b = a.key == b.key

abbrev pub new_project : (key name description : String) → (now fresh_id : ℕ) → Project
new_project key name description now fresh_id = record {
  id = fresh_id;
  key = key;
  name = name;
  description = description;
  status = ProjectStatus.active;
  created_at = now;
  updated_at = now;
}

unfoldable pub create_project :
    (upper : String → String) → (key name description : String) → (now fresh_id : ℕ) → Call Project
create_project upper key name description now fresh_id = do
  create_item projects_repo same_key (new_project (upper key) name description now fresh_id)
  pure (new_project (upper key) name description now fresh_id)

abbrev pub edited_project : ProjectEdit → ℕ → Project → Project
edited_project e now p = record p {
  name = or_old p.name e.name;
  description = or_old p.description e.description;
  updated_at = now;
}

unfoldable pub update_project : ℕ → ProjectEdit → (now : ℕ) → Call Project
update_project id e now = do
  p ← require_item projects_repo id
  update_item projects_repo same_key (edited_project e now p)
  pure (edited_project e now p)

-- `_ACTIVE_PLAN_STATUSES` and `_ACTIVE_EXECUTION_STATUSES`
abbrev pub plan_is_open : PlanStatus → Bool
plan_is_open PlanStatus.draft = true
plan_is_open PlanStatus.ready = true
plan_is_open PlanStatus.running = true
plan_is_open _ = false

abbrev pub execution_is_open : ExecutionStatus → Bool
execution_is_open ExecutionStatus.created = true
execution_is_open ExecutionStatus.running = true
execution_is_open _ = false

abbrev pub open_plan : ℕ → Plan → Bool
open_plan id p = nat_beq p.project_id id && plan_is_open p.status

abbrev pub open_execution : ℕ → Execution → Bool
open_execution id x = nat_beq x.project_id id && execution_is_open x.status

abbrev pub open_defect : ℕ → Defect → Bool
open_defect id d = nat_beq d.project_id id && not (same_status d.status closed)

-- `_ensure_project_has_no_active_work`
unfoldable pub ensure_no_active_work : ℕ → Call Unit
ensure_no_active_work id = do
  planned ← gets (λ s. any (open_plan id) (all_items plans_repo s))
  raise_if planned conflict
  executing ← gets (λ s. any (open_execution id) (all_items executions_repo s))
  raise_if executing conflict
  broken ← gets (λ s. any (open_defect id) (all_items defects_repo s))
  raise_if broken conflict
  pure tt

abbrev pub check_archive : ProjectStatus → ℕ → Call Unit
check_archive ProjectStatus.archived id = ensure_no_active_work id
check_archive ProjectStatus.active id = pure tt

abbrev pub with_project_status : ProjectStatus → ℕ → Project → Project
with_project_status status now p = record p { status = status; updated_at = now }

unfoldable pub move_project : Project → ProjectStatus → (now : ℕ) → Call Project
unfolding ensure_no_active_work
move_project p target now = do
  check_archive target p.id
  update_item projects_repo same_key (with_project_status target now p)
  pure (with_project_status target now p)

unfoldable pub transition_project : ℕ → ProjectStatus → (now : ℕ) → Call Project
unfolding move_project
transition_project id target now = do
  p ← require_item projects_repo id
  if p.status == target then pure p else move_project p target now

unfoldable pub delete_project : ℕ → Call ℕ
delete_project id = do
  p ← require_item projects_repo id
  cased ← gets (λ s. any (λ (c : Case). nat_beq c.project_id p.id) (all_items cases_repo s))
  raise_if cased conflict
  planned ← gets (λ s. any (λ (x : Plan). nat_beq x.project_id p.id) (all_items plans_repo s))
  raise_if planned conflict
  broken ← gets (λ s. any (λ (d : Defect). nat_beq d.project_id p.id) (all_items defects_repo s))
  raise_if broken conflict
  grouped ← gets (λ s. any (λ (x : Suite). nat_beq x.project_id p.id) (all_items suites_repo s))
  raise_if grouped conflict
  pictured ←
      gets (λ s. any (λ (x : Snapshot). nat_beq x.project_id p.id) (all_items snapshots_repo s))
  raise_if pictured conflict
  delete_item projects_repo p.id
  pure p.id
