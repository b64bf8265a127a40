-- ===== src/Services/Defects/Creation.antt =====
-- `DefectService.create`, backend/app/services/defects.py. `actor` is the name of the user in whose
-- request the call runs, when there is one.
use qa_platform_learning.Common.Tests.{
  ℕ, Bool, false, not, String, Option, none, some, List, [], ◌∷◌, nat_beq, nat_keyed, ◌==◌,
}
use qa_platform_learning.Common.Lists.{any}
use qa_platform_learning.Common.Result.{pure, raise_if, ◌>>=◌, ◌>>◌}
use qa_platform_learning.Services.Errors.{conflict, invalid_state}
use qa_platform_learning.Services.Repository.{require_item, create_item, no_clash}
use qa_platform_learning.Services.Models.Status.{ExecutionStatus, execution_status_keyed}
use qa_platform_learning.Services.Models.Records.{Case, Execution, CaseResult}
use qa_platform_learning.Services.Models.Audit.{
  Value, absent, status_value, severity_value, priority_value, text_value, time_value, id_value,
  steps_value, Change, created,
}
use qa_platform_learning.Services.Defects.Model.{open_, Defect, NewDefect}
use qa_platform_learning.Services.Defects.Operations.{defect_event}
use qa_platform_learning.Services.Store.{
  Call, defects_repo, cases_repo, executions_repo, require_active_project, record_audit,
}

abbrev pub require_case : (project_id : ℕ) → Option ℕ → Call (Option Case)
require_case project_id none = pure none
require_case project_id (some id) = do
  c ← require_item cases_repo id
  raise_if (not (nat_beq c.project_id project_id)) conflict
  pure (some c)

abbrev pub require_execution : (project_id : ℕ) → Option ℕ → Call (Option Execution)
require_execution project_id none = pure none
require_execution project_id (some id) = do
  x ← require_item executions_repo id
  raise_if (not (nat_beq x.project_id project_id)) conflict
  raise_if (x.status == ExecutionStatus.created) invalid_state
  pure (some x)

-- The execution has no result of the case.
abbrev pub foreign : Option Case → Option Execution → Bool
foreign (some c) (some x) = not (any (λ (r : CaseResult). nat_beq r.case_id c.id) x.results)
foreign _ _ = false

-- `_validate_associations`
unfoldable pub validate_associations :
    (project_id : ℕ) → (case_id execution_id : Option ℕ) → Call Unit
validate_associations project_id case_id execution_id = do
  c ← require_case project_id case_id
  x ← require_execution project_id execution_id
  raise_if (foreign c x) conflict
  pure tt

abbrev pub or_payload : String → Option String → String
or_payload reporter none = reporter
or_payload reporter (some username) = username

abbrev pub new_defect : NewDefect → (actor : Option String) → (now fresh_id : ℕ) → Defect
new_defect p actor now fresh_id = record {
  id = fresh_id;
  project_id = p.project_id;
  case_id = p.case_id;
  execution_id = p.execution_id;
  title = p.title;
  description = p.description;
  severity = p.severity;
  priority = p.priority;
  status = open_;
  reporter = or_payload p.reporter actor;
  assignee = p.assignee;
  environment = p.environment;
  reproduction_steps = p.reproduction_steps;
  expected_result = p.expected_result;
  actual_result = p.actual_result;
  resolution = "";
  created_at = now;
  updated_at = now;
  resolved_at = none;
  closed_at = none;
}

-- A field of a new defect, with its value.
abbrev added : String → Value → Change
added field after = record { field = field; before = absent; after = after }

-- `_creation_changes`
abbrev creation_changes : Defect → List Change
creation_changes d =
    added "project_id" (id_value (some d.project_id))
    ∷ added "case_id" (id_value d.case_id)
    ∷ added "execution_id" (id_value d.execution_id)
    ∷ added "title" (text_value d.title)
    ∷ added "description" (text_value d.description)
    ∷ added "severity" (severity_value d.severity)
    ∷ added "priority" (priority_value d.priority)
    ∷ added "status" (status_value d.status)
    ∷ added "reporter" (text_value d.reporter)
    ∷ added "assignee" (text_value d.assignee)
    ∷ added "environment" (text_value d.environment)
    ∷ added "reproduction_steps" (steps_value d.reproduction_steps)
    ∷ added "expected_result" (text_value d.expected_result)
    ∷ added "actual_result" (text_value d.actual_result)
    ∷ added "resolution" (text_value d.resolution)
    ∷ added "resolved_at" (time_value d.resolved_at)
    ∷ added "closed_at" (time_value d.closed_at)
    ∷ []

unfoldable pub create_defect :
    NewDefect → (actor : Option String) → (now fresh_id : ℕ) → Call Defect
unfolding validate_associations
create_defect p actor now fresh_id = do
  _ ← require_active_project p.project_id
  validate_associations p.project_id p.case_id p.execution_id
  create_item defects_repo no_clash (new_defect p actor now fresh_id)
  record_audit (
      defect_event (new_defect p actor now fresh_id) created
        (creation_changes (new_defect p actor now fresh_id)) "")
  pure (new_defect p actor now fresh_id)
