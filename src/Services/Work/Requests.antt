-- ===== src/Services/Work/Requests.antt =====
-- The calls of the services that change the store, as values, and a run of them.
use qa_platform_learning.Common.Tests.{ℕ, String, Option, List, [], ◌∷◌}
use qa_platform_learning.Services.Models.Status.{
  ProjectStatus, CaseStatus, SuiteStatus, PlanStatus, ExecutionStatus, ResultStatus,
}
use qa_platform_learning.Services.Defects.Model.{NewDefect, Transition, Edit}
use qa_platform_learning.Services.Store.{Store}
use qa_platform_learning.Services.Projects.Operations.{
  ProjectEdit, create_project, update_project, transition_project, delete_project,
}
use qa_platform_learning.Services.Suites.Operations.{
  NewSuite, SuiteEdit, create_suite, update_suite, transition_suite, delete_suite,
}
use qa_platform_learning.Services.Cases.Operations.{
  NewCase, CaseEdit, create_case, update_case, transition_case, delete_case,
}
use qa_platform_learning.Services.Plans.Operations.{
  NewPlan, PlanEdit, create_plan, update_plan, transition_plan, delete_plan,
}
use qa_platform_learning.Services.Executions.Operations.{
  create_execution, transition_execution, update_case_result, delete_execution,
}
use qa_platform_learning.Services.Defects.Operations.{transition}
use qa_platform_learning.Services.Defects.Edits.{update}
use qa_platform_learning.Services.Defects.Creation.{create_defect}

-- One call with its arguments, the clock's reading and the fresh id.
pub data Request : Type 0 where
  new_project_call : (key name description : String) → (now fresh_id : ℕ) → Request
  edit_project_call : ℕ → ProjectEdit → (now : ℕ) → Request
  move_project_call : ℕ → ProjectStatus → (now : ℕ) → Request
  drop_project_call : ℕ → Request
  new_suite_call : NewSuite → (now fresh_id : ℕ) → Request
  edit_suite_call : ℕ → SuiteEdit → (now : ℕ) → Request
  move_suite_call : ℕ → SuiteStatus → (now : ℕ) → Request
  drop_suite_call : ℕ → Request
  new_case_call : NewCase → (now fresh_id : ℕ) → Request
  edit_case_call : ℕ → CaseEdit → (now : ℕ) → Request
  move_case_call : ℕ → CaseStatus → (now : ℕ) → Request
  drop_case_call : ℕ → Request
  new_plan_call : NewPlan → (now fresh_id : ℕ) → Request
  edit_plan_call : ℕ → PlanEdit → (now : ℕ) → Request
  move_plan_call : ℕ → PlanStatus → (now : ℕ) → Request
  drop_plan_call : ℕ → Request
  new_execution_call : (plan_id now fresh_id : ℕ) → Request
  move_execution_call : ℕ → ExecutionStatus → (now : ℕ) → Request
  judge_call :
      (id case_id : ℕ) → ResultStatus → (actual comment : String) → (now later : ℕ) → Request
  drop_execution_call : ℕ → Request
  new_defect_call : NewDefect → (actor : Option String) → (now fresh_id : ℕ) → Request
  edit_defect_call : ℕ → Edit → (now : ℕ) → Request
  move_defect_call : ℕ → Transition → (now : ℕ) → Request

module _ (upper lower casefold strip : String → String) where
  -- The store after a call, whether it returns or raises.
  unfoldable pub after : Request → Store → Store
  after (new_project_call key name description now i) s =
      (create_project upper key name description now i s).1
  after (edit_project_call id e now) s = (update_project id e now s).1
  after (move_project_call id target now) s = (transition_project id target now s).1
  after (drop_project_call id) s = (delete_project id s).1
  after (new_suite_call p now i) s = (create_suite casefold p now i s).1
  after (edit_suite_call id e now) s = (update_suite casefold id e now s).1
  after (move_suite_call id target now) s = (transition_suite id target now s).1
  after (drop_suite_call id) s = (delete_suite id s).1
  after (new_case_call p now i) s = (create_case strip lower p now i s).1
  after (edit_case_call id e now) s = (update_case strip lower id e now s).1
  after (move_case_call id target now) s = (transition_case id target now s).1
  after (drop_case_call id) s = (delete_case id s).1
  after (new_plan_call p now i) s = (create_plan p now i s).1
  after (edit_plan_call id e now) s = (update_plan id e now s).1
  after (move_plan_call id target now) s = (transition_plan id target now s).1
  after (drop_plan_call id) s = (delete_plan id s).1
  after (new_execution_call plan_id now i) s = (create_execution plan_id now i s).1
  after (move_execution_call id target now) s = (transition_execution id target now s).1
  after (judge_call id case_id status actual comment now later) s =
      (update_case_result id case_id status actual comment now later s).1
  after (drop_execution_call id) s = (delete_execution id s).1
  after (new_defect_call p actor now i) s = (create_defect p actor now i s).1
  after (edit_defect_call id e now) s = (update strip id e now s).1
  after (move_defect_call id p now) s = (transition strip id p now s).1

  -- The store after a run of calls, of any clients, one at a time.
  abbrev pub after_all : List Request → Store → Store
  after_all [] s = s
  after_all (r ∷ rs) s = after_all rs (after r s)
