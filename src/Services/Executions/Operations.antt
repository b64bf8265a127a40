-- ===== src/Services/Executions/Operations.antt =====
-- `ExecutionService`, backend/app/services/executions.py. Ids are parsed UUIDs, and `now` is what
-- `utc_now` reads; a second reading in the same call is `later`.
use qa_platform_learning.Common.Tests.{
  ℕ, Bool, false, not, ◌||◌, String, none, some, List, [], ◌∷◌, map, nat_beq, if◌then◌else◌,
  nat_keyed, ◌==◌,
}
use qa_platform_learning.Common.Lists.{any}
use qa_platform_learning.Common.Result.{pure, raise, gets, raise_if, ◌>>=◌, ◌>>◌}
use qa_platform_learning.Services.Errors.{missing, conflict, invalid_state}
use qa_platform_learning.Services.Repository.{
  require_item, create_item, update_item, delete_item, all_items, no_clash,
}
use qa_platform_learning.Services.Models.Status.{
  PlanStatus, ExecutionStatus, ResultStatus, plan_status_keyed, execution_status_keyed,
  result_status_keyed,
}
use qa_platform_learning.Services.Models.Records.{Case, Plan, Execution, CaseResult}
use qa_platform_learning.Services.Defects.Model.{Defect}
use qa_platform_learning.Services.Store.{
  Call, plans_repo, cases_repo, executions_repo, defects_repo, require_active_project,
}
use qa_platform_learning.Services.Plans.Operations.{is_executed, set_status}

abbrev pub new_result : Case → CaseResult
new_result c = record {
  case_id = c.id;
  case_title = c.title;
  status = ResultStatus.not_run;
  actual_result = "";
  comment = "";
  executed_at = none;
}

-- The loop over the plan's cases.
unfoldable pub new_results : List ℕ → Call (List CaseResult)
new_results [] = pure []
new_results (id ∷ ids) = do
  c ← require_item cases_repo id
  rest ← new_results ids
  pure (new_result c ∷ rest)

abbrev pub new_execution : Plan → List CaseResult → (now fresh_id : ℕ) → Execution
new_execution p results now fresh_id = record {
  id = fresh_id;
  plan_id = p.id;
  project_id = p.project_id;
  status = ExecutionStatus.created;
  results = results;
  created_at = now;
  updated_at = now;
  started_at = none;
  completed_at = none;
}

unfoldable pub create_execution : ℕ → (now fresh_id : ℕ) → Call Execution
unfolding new_results
create_execution plan_id now fresh_id = do
  p ← require_item plans_repo plan_id
  _ ← require_active_project p.project_id
  raise_if (not (p.status == PlanStatus.ready)) invalid_state
  executed ← gets (is_executed p.id)
  raise_if executed conflict
  results ← new_results p.case_ids
  create_item executions_repo no_clash (new_execution p results now fresh_id)
  pure (new_execution p results now fresh_id)

abbrev pub started : ℕ → Execution → Execution
started now x = record x {
  status = ExecutionStatus.running;
  started_at = some now;
  updated_at = now;
}

abbrev pub finished : ExecutionStatus → ℕ → Execution → Execution
finished status now x = record x { status = status; completed_at = some now; updated_at = now }

-- The end of `transition`: the plan follows, and then the execution is stored.
unfoldable pub settle : Execution → PlanStatus → (now : ℕ) → Call Execution
unfolding set_status
settle x plan_status now = do
  _ ← set_status x.plan_id plan_status now
  update_item executions_repo no_clash x
  pure x

unfoldable pub start_execution : Execution → (now : ℕ) → Call Execution
unfolding settle
start_execution x now = do
  raise_if (not (x.status == ExecutionStatus.created)) invalid_state
  _ ← require_active_project x.project_id
  p ← require_item plans_repo x.plan_id
  raise_if (not (p.status == PlanStatus.ready)) invalid_state
  settle (started now x) PlanStatus.running now

abbrev pub is_unfinished : CaseResult → Bool
is_unfinished r = r.status == ResultStatus.not_run

unfoldable pub complete_execution : Execution → (now : ℕ) → Call Execution
unfolding settle
complete_execution x now = do
  raise_if (not (x.status == ExecutionStatus.running)) invalid_state
  raise_if (any is_unfinished x.results) invalid_state
  settle (finished ExecutionStatus.completed now x) PlanStatus.completed now

unfoldable pub cancel_execution : Execution → (now : ℕ) → Call Execution
unfolding settle
cancel_execution x now = do
  raise_if (not (x.status == ExecutionStatus.created || x.status == ExecutionStatus.running))
      invalid_state
  settle (finished ExecutionStatus.cancelled now x) PlanStatus.cancelled now

-- The branches of `transition`.
unfoldable pub move_execution : Execution → ExecutionStatus → (now : ℕ) → Call Execution
unfolding start_execution complete_execution cancel_execution
move_execution x ExecutionStatus.running now = start_execution x now
move_execution x ExecutionStatus.completed now = complete_execution x now
move_execution x ExecutionStatus.cancelled now = cancel_execution x now
move_execution x ExecutionStatus.created now = raise invalid_state

unfoldable pub transition_execution : ℕ → ExecutionStatus → (now : ℕ) → Call Execution
unfolding move_execution
transition_execution id target now = do
  x ← require_item executions_repo id
  if x.status == target then pure x else move_execution x target now

abbrev pub judged : ResultStatus → (actual comment : String) → (now : ℕ) → CaseResult → CaseResult
judged status actual comment now r = record r {
  status = status;
  actual_result = actual;
  comment = comment;
  executed_at = some now;
}

-- The loop over the results.
abbrev pub judge :
    ℕ → ResultStatus → (actual comment : String) → (now : ℕ) → CaseResult → CaseResult
judge case_id status actual comment now r =
    if nat_beq r.case_id case_id then judged status actual comment now r else r

abbrev pub with_results : List CaseResult → ℕ → Execution → Execution
with_results results now x = record x { results = results; updated_at = now }

unfoldable pub update_case_result :
    (id case_id : ℕ) → ResultStatus → (actual comment : String) → (now later : ℕ) → Call Execution
update_case_result id case_id status actual comment now later = do
  x ← require_item executions_repo id
  raise_if (not (x.status == ExecutionStatus.running)) invalid_state
  raise_if (status == ResultStatus.not_run) invalid_state
  raise_if (not (any (λ (r : CaseResult). nat_beq r.case_id case_id) x.results)) missing
  update_item executions_repo no_clash
      (with_results (map (judge case_id status actual comment now) x.results) later x)
  pure (with_results (map (judge case_id status actual comment now) x.results) later x)

abbrev pub names_execution : ℕ → Defect → Bool
names_execution id d = elim d.execution_id [ none ↦ false | some x ↦ nat_beq x id ]

unfoldable pub delete_execution : ℕ → Call ℕ
delete_execution id = do
  x ← require_item executions_repo id
  raise_if (not (x.status == ExecutionStatus.created)) invalid_state
  named ← gets (λ s. any (names_execution x.id) (all_items defects_repo s))
  raise_if named conflict
  delete_item executions_repo x.id
  pure x.id
