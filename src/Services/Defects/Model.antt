-- ===== src/Services/Defects/Model.antt =====
-- Defects, backend/app/domain/models.py and backend/app/schemas/defects.py.
use qa_platform_learning.Common.Tests.{ℕ, Bool, String, Option, List, [], ◌∷◌, nat_beq}
use qa_platform_learning.Common.Lists.{any}

pub data DefectStatus : Type 0 where
  open_ in_progress resolved verified closed reopened : DefectStatus

pub data Severity : Type 0 where
  blocker critical major minor trivial : Severity

pub data Priority : Type 0 where
  p0 p1 p2 p3 : Priority

-- The place of a status in its enumeration, by which two are compared.
abbrev pub rank : DefectStatus → ℕ
rank open_ = 0
rank in_progress = 1
rank resolved = 2
rank verified = 3
rank closed = 4
rank reopened = 5

abbrev pub same_status : DefectStatus → DefectStatus → Bool
same_status s t = nat_beq (rank s) (rank t)

abbrev pub severity_rank : Severity → ℕ
severity_rank blocker = 0
severity_rank critical = 1
severity_rank major = 2
severity_rank minor = 3
severity_rank trivial = 4

abbrev pub priority_rank : Priority → ℕ
priority_rank p0 = 0
priority_rank p1 = 1
priority_rank p2 = 2
priority_rank p3 = 3

-- `_TRANSITIONS`
abbrev pub transitions : DefectStatus → List DefectStatus
transitions open_ = in_progress ∷ resolved ∷ []
transitions in_progress = open_ ∷ resolved ∷ []
transitions resolved = verified ∷ reopened ∷ []
transitions verified = closed ∷ reopened ∷ []
transitions closed = reopened ∷ []
transitions reopened = in_progress ∷ resolved ∷ []

abbrev pub allowed : DefectStatus → DefectStatus → Bool
allowed s t = any (λ u. same_status u t) (transitions s)

pub record Defect : Type 0 where
  pub id : ℕ
  pub project_id : ℕ
  pub case_id : Option ℕ
  pub execution_id : Option ℕ
  pub title : String
  pub description : String
  pub severity : Severity
  pub priority : Priority
  pub status : DefectStatus
  pub reporter : String
  pub assignee : String
  pub environment : String
  pub reproduction_steps : List String
  pub expected_result : String
  pub actual_result : String
  pub resolution : String
  pub created_at : ℕ
  pub updated_at : ℕ
  pub resolved_at : Option ℕ
  pub closed_at : Option ℕ

-- `DefectCreate`, after its validators.
pub record NewDefect : Type 0 where
  pub project_id : ℕ
  pub case_id : Option ℕ
  pub execution_id : Option ℕ
  pub title : String
  pub description : String
  pub severity : Severity
  pub priority : Priority
  pub reporter : String
  pub assignee : String
  pub environment : String
  pub reproduction_steps : List String
  pub expected_result : String
  pub actual_result : String

-- `DefectTransition`, after its validators.
pub record Transition : Type 0 where
  pub status : DefectStatus
  pub resolution : Option String
  pub comment : String

-- `DefectUpdate`, after its validators, and the dump that leaves out what is unset or None.
pub record Edit : Type 0 where
  pub title : Option String
  pub description : Option String
  pub severity : Option Severity
  pub priority : Option Priority
  pub assignee : Option String
  pub environment : Option String
  pub reproduction_steps : Option (List String)
  pub expected_result : Option String
  pub actual_result : Option String
