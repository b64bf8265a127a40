-- ===== src/Services/Work/Tests.antt =====
-- Tests of runs of the services, and the theorems on them at concrete inputs.
use qa_platform_learning.Common.Tests.{
  ℕ, ◌≡◌, refl, String, Option, none, some, List, [], ◌∷◌, map, nat_keyed,
}
use qa_platform_learning.Services.Models.Status.{
  ProjectStatus, CaseStatus, CasePriority, CaseType, PlanStatus, ExecutionStatus, ResultStatus,
}
use qa_platform_learning.Services.Models.Records.{Execution, Plan, Project}
use qa_platform_learning.Common.Result.{◌>>=◌}
use qa_platform_learning.Services.Repository.{create_item, update_item}
use qa_platform_learning.Services.Store.{Store, require_active_project}
use qa_platform_learning.Services.Projects.Operations.{create_project, transition_project}
use qa_platform_learning.Services.Executions.Operations.{
  create_execution, transition_execution, update_case_result,
}
use qa_platform_learning.Services.Cases.Operations.{NewCase, create_case, transition_case}
use qa_platform_learning.Services.Plans.Operations.{NewPlan, create_plan, transition_plan}
use qa_platform_learning.Services.Work.InStep.{InStep}
use qa_platform_learning.Services.Work.Open.{IsSupported}
use qa_platform_learning.Services.Work.Kept.{after_all-InStep}
use qa_platform_learning.Services.Work.Supported.{OpenWorkSupported, after_all-supported}
use qa_platform_learning.Services.Suites.Operations.{NewSuite, SuiteEdit}
use qa_platform_learning.Services.Work.Forests.{IsForest, after_all-IsForest}
use qa_platform_learning.Services.Work.Requests.{
  Request, after, after_all, new_project_call, move_project_call, new_case_call, move_case_call,
  new_plan_call, move_plan_call, new_execution_call, move_execution_call, judge_call,
  new_suite_call, edit_suite_call, drop_suite_call,
}

abbrev plain : String → String
plain s = s

abbrev nothing : Store
nothing = record {
  projects = [];
  suites = [];
  cases = [];
  plans = [];
  executions = [];
  defects = [];
  snapshots = [];
  audits = [];
}

nothing-InStep : InStep nothing
nothing-InStep = record {
  own_cases = λ k c found. absurd (cc);
  own_plans = λ k p found. absurd (cc);
  own_executions = λ k x found. absurd (cc);
  partner = λ k x found. absurd (cc);
  single = λ j k x y found other e. absurd (cc);
  executed = λ k p found begun. absurd (cc);
  judged = λ k x found. absurd (cc);
}

nothing-IsSupported : IsSupported nothing
nothing-IsSupported = record {
  own_projects = λ k p found. absurd (cc);
  planned = λ k p found. absurd (cc);
  broken = λ k d found. absurd (cc);
}

abbrev log_in : NewCase
log_in = record {
  project_id = 1;
  suite_id = none;
  title = "log in";
  preconditions = "";
  steps = record { action = "log in"; expected_result = "a session" } ∷ [];
  priority = CasePriority.p1;
  case_type = CaseType.manual;
  tags = "smoke" ∷ [];
}

abbrev smoke : NewPlan
smoke = record { project_id = 1; name = "smoke"; description = ""; case_ids = 2 ∷ [] }

-- A plan is made ready, executed, judged and completed, and its project is archived.
abbrev whole_run : List Request
whole_run =
    new_project_call "SHOP" "shop" "" 10 1
    ∷ new_case_call log_in 11 2
    ∷ move_case_call 2 CaseStatus.active 12
    ∷ new_plan_call smoke 13 3
    ∷ move_plan_call 3 PlanStatus.ready 14
    ∷ new_execution_call 3 15 4
    ∷ move_project_call 1 ProjectStatus.archived 16
    ∷ move_execution_call 4 ExecutionStatus.running 17
    ∷ judge_call 4 2 ResultStatus.passed "a session" "" 18 19
    ∷ move_execution_call 4 ExecutionStatus.completed 20
    ∷ move_project_call 1 ProjectStatus.archived 21
    ∷ []

abbrev end : Store
end = after_all plain plain plain plain whole_run nothing

after_all-InStep_example : InStep end
after_all-InStep_example = after_all-InStep plain plain plain plain whole_run nothing nothing-InStep

after_all-supported_example : OpenWorkSupported end
after_all-supported_example =
    after_all-supported plain plain plain plain whole_run nothing nothing-InStep nothing-IsSupported

-- The run ends with a completed plan in an archived project.
whole_run_ends :
    (map (λ (e : ℕ × Execution). e.1.status) end.executions ≡ ExecutionStatus.completed ∷ [])
    × (map (λ (e : ℕ × Plan). e.1.status) end.plans ≡ PlanStatus.completed ∷ [])
    × (map (λ (e : ℕ × Project). e.1.status) end.projects ≡ ProjectStatus.archived ∷ [])
unfolding after transition_project ◌>>=◌ transition_execution update_case_result create_execution
    transition_plan create_plan require_active_project transition_case create_case create_project
    create_item update_item
whole_run_ends = (refl, refl, refl)

abbrev login : Option ℕ → NewSuite
login parent_id = record {
  project_id = 1;
  parent_id = parent_id;
  name = "login";
  description = "";
  position = 0;
}

abbrev under : ℕ → SuiteEdit
under parent_id = record {
  parent_id = some (some parent_id);
  name = none;
  description = none;
  position = none;
}

-- Suite 6 is made under 5, and 5 cannot be moved under 6; 6 is deleted.
abbrev suites_run : List Request
suites_run =
    new_project_call "SHOP" "shop" "" 10 1
    ∷ new_suite_call (login none) 11 5
    ∷ new_suite_call (login (some 5)) 12 6
    ∷ edit_suite_call 5 (under 6) 13
    ∷ new_suite_call (login (some 6)) 14 7
    ∷ drop_suite_call 7
    ∷ []

nothing-IsForest : IsForest plain nothing
nothing-IsForest = record {
  own = λ k x found. absurd (cc);
  rooted = λ k x found. absurd (cc);
  named = λ j k x y found other alike. absurd (cc);
}

after_all-IsForest_example : IsForest plain (after_all plain plain plain plain suites_run nothing)
after_all-IsForest_example =
    after_all-IsForest plain plain plain plain suites_run nothing nothing-IsForest
