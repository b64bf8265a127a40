-- ===== src/Services/Models/Records.antt =====
-- The records of backend/app/domain/models.py. Ids are UUIDs, given as numbers.
use qa_platform_learning.Common.Tests.{ℕ, String, Option, List}
use qa_platform_learning.Services.Models.Status.{
  ProjectStatus, CaseStatus, CasePriority, CaseType, SuiteStatus, SnapshotScope, PlanStatus,
  ExecutionStatus, ResultStatus,
}

-- `TestStep`
pub record Step : Type 0 where
  pub action : String
  pub expected_result : String

pub record Project : Type 0 where
  pub id : ℕ
  pub key : String
  pub name : String
  pub description : String
  pub status : ProjectStatus
  pub created_at : ℕ
  pub updated_at : ℕ

-- `TestCase`
pub record Case : Type 0 where
  pub id : ℕ
  pub project_id : ℕ
  pub suite_id : Option ℕ
  pub title : String
  pub preconditions : String
  pub steps : List Step
  pub priority : CasePriority
  pub case_type : CaseType
  pub status : CaseStatus
  pub tags : List String
  pub created_at : ℕ
  pub updated_at : ℕ

-- `TestPlan`
pub record Plan : Type 0 where
  pub id : ℕ
  pub project_id : ℕ
  pub name : String
  pub description : String
  pub case_ids : List ℕ
  pub status : PlanStatus
  pub created_at : ℕ
  pub updated_at : ℕ

-- `CaseExecutionResult`
pub record CaseResult : Type 0 where
  pub case_id : ℕ
  pub case_title : String
  pub status : ResultStatus
  pub actual_result : String
  pub comment : String
  pub executed_at : Option ℕ

-- `TestExecution`
pub record Execution : Type 0 where
  pub id : ℕ
  pub plan_id : ℕ
  pub project_id : ℕ
  pub status : ExecutionStatus
  pub results : List CaseResult
  pub created_at : ℕ
  pub updated_at : ℕ
  pub started_at : Option ℕ
  pub completed_at : Option ℕ

-- `TestSuite`
pub record Suite : Type 0 where
  pub id : ℕ
  pub project_id : ℕ
  pub parent_id : Option ℕ
  pub name : String
  pub description : String
  pub status : SuiteStatus
  pub position : ℕ
  pub created_at : ℕ
  pub updated_at : ℕ

-- `TestCaseSnapshotItem`
pub record SnapshotItem : Type 0 where
  pub source_case_id : ℕ
  pub source_suite_id : Option ℕ
  pub suite_path : List String
  pub position : ℕ
  pub title : String
  pub preconditions : String
  pub steps : List Step
  pub priority : CasePriority
  pub case_type : CaseType
  pub status : CaseStatus
  pub tags : List String
  pub source_created_at : ℕ
  pub source_updated_at : ℕ

-- `TestCaseSnapshot`
pub record Snapshot : Type 0 where
  pub id : ℕ
  pub project_id : ℕ
  pub scope_type : SnapshotScope
  pub scope_id : ℕ
  pub scope_name : String
  pub version : ℕ
  pub label : String
  pub description : String
  pub case_count : ℕ
  pub items : List SnapshotItem
  pub created_at : ℕ
