-- ===== src/Services/Store.antt =====
-- The repositories that the services share, backend/app/container.py, and what they have in common.
use qa_platform_learning.Common.Tests.{
  ℕ, ◌≡◌, some, nat_keyed, true_of_not, List, [], ◌∷◌, ◌++◌, ◌==◌, not,
}
use qa_platform_learning.Common.Dict.{Dict, lookup}
use qa_platform_learning.Common.Result.{Result, err, Action, pure, raise_if, modify, ◌>>=◌, ◌>>◌}
use qa_platform_learning.Common.Holds.{Holds, Holds-pure, bind-any, bind-find, bind-raise_if}
use qa_platform_learning.Services.Errors.{ServiceError, missing, invalid_state}
use qa_platform_learning.Services.Repository.{Repository, require_item}
use qa_platform_learning.Services.Models.Status.{ProjectStatus, project_status_keyed}
use qa_platform_learning.Services.Models.Records.{Project, Case, Plan, Execution, Suite, Snapshot}
use qa_platform_learning.Services.Models.Audit.{AuditEvent}
use qa_platform_learning.Services.Defects.Model.{Defect}

pub record Store : Type 0 where
  pub projects : Dict ℕ Project
  pub suites : Dict ℕ Suite
  pub cases : Dict ℕ Case
  pub plans : Dict ℕ Plan
  pub executions : Dict ℕ Execution
  pub defects : Dict ℕ Defect
  pub snapshots : Dict ℕ Snapshot
  pub audits : List AuditEvent

-- A call of a service, under the business lock.
abbrev pub Call : Type 0 → Type 0
Call A = Action Store ServiceError A

abbrev pub projects_repo : Repository Store Project
projects_repo = record {
  items = λ s. s.projects;
  keep = λ d s. record s { projects = d };
  id_of = λ x. x.id;
}

abbrev pub suites_repo : Repository Store Suite
suites_repo = record {
  items = λ s. s.suites;
  keep = λ d s. record s { suites = d };
  id_of = λ x. x.id;
}

abbrev pub cases_repo : Repository Store Case
cases_repo = record {
  items = λ s. s.cases;
  keep = λ d s. record s { cases = d };
  id_of = λ x. x.id;
}

abbrev pub plans_repo : Repository Store Plan
plans_repo = record {
  items = λ s. s.plans;
  keep = λ d s. record s { plans = d };
  id_of = λ x. x.id;
}

abbrev pub executions_repo : Repository Store Execution
executions_repo = record {
  items = λ s. s.executions;
  keep = λ d s. record s { executions = d };
  id_of = λ x. x.id;
}

abbrev pub defects_repo : Repository Store Defect
defects_repo = record {
  items = λ s. s.defects;
  keep = λ d s. record s { defects = d };
  id_of = λ x. x.id;
}

abbrev pub snapshots_repo : Repository Store Snapshot
snapshots_repo = record {
  items = λ s. s.snapshots;
  keep = λ d s. record s { snapshots = d };
  id_of = λ x. x.id;
}

-- `_record_unlocked` of the audit service, on a comment and an entity that its checks accept.
abbrev pub record_audit : AuditEvent → Call Unit
record_audit event = modify λ s. record s { audits = s.audits ++ event ∷ [] }

-- `_require_active_project`, the same in each service.
unfoldable pub require_active_project : ℕ → Call Project
require_active_project id = do
  p ← require_item projects_repo id
  raise_if (not (p.status == ProjectStatus.active)) invalid_state
  pure p

-- What follows it finds the project, and finds it active.
pub bind-active :
    {B : Type 0} {Post : Result ServiceError B → Store → Type 0} (id : ℕ) (f : Project → Call B)
    (s : Store)
    → ((e : ServiceError) → Post (err e) s)
    → ((p : Project)
        → lookup id s.projects ≡ some p
        → p.status ≡ ProjectStatus.active
        → Holds Post (f p) s)
    → Holds Post (require_active_project id >>= f) s
unfolding require_active_project
bind-active id f s bad good = bind-any _ f s (
    bind-find _ _ _ s (λ _. bad missing)
      λ p found.
        bind-raise_if _ _ _ s (λ _. bad invalid_state)
          λ runs. Holds-pure p s (
            good p found (
              (project_status_keyed.agree_iff p.status ProjectStatus.active).0
                (true_of_not _ runs))))
