-- ===== src/Services/Repository/Tests.antt =====
-- Tests of the repository, and its theorem at a concrete input.
use qa_platform_learning.Common.Tests.{ℕ, ◌≡◌, refl, String, [], ◌∷◌, nat_keyed}
use qa_platform_learning.Common.Dict.{Distinct}
use qa_platform_learning.Common.Result.{err, ◌>>=◌}
use qa_platform_learning.Services.Errors.{conflict}
use qa_platform_learning.Services.Repository.{create_item, update_item, delete_item}
use qa_platform_learning.Services.Repository.Refinement.{Creates, Updates, Deletes, calls-refine}
use qa_platform_learning.Services.Models.Status.{ProjectStatus}
use qa_platform_learning.Services.Models.Records.{Project}
use qa_platform_learning.Services.Projects.Operations.{same_key}
use qa_platform_learning.Services.Store.{Store, projects_repo}

abbrev project : ℕ → String → Project
project id key = record {
  id = id;
  key = key;
  name = key;
  description = "";
  status = ProjectStatus.active;
  created_at = 0;
  updated_at = 0;
}

abbrev two_projects : Store
two_projects = record {
  projects = (1, project 1 "SHOP") ∷ (2, project 2 "BANK") ∷ [];
  suites = [];
  cases = [];
  plans = [];
  executions = [];
  defects = [];
  snapshots = [];
  audits = [];
}

two_projects-Distinct : Distinct two_projects.projects
two_projects-Distinct = (refl, (refl, tt))

-- A third project must have another key.
same_key_refused :
    create_item projects_repo same_key (project 3 "BANK") two_projects
    ≡ (err conflict, two_projects)
unfolding create_item ◌>>=◌
same_key_refused = refl

calls-refine_example :
    Creates projects_repo same_key
      (project 1 "BANK")
      two_projects
      (create_item projects_repo same_key (project 1 "BANK") two_projects).0
      (create_item projects_repo same_key (project 1 "BANK") two_projects).1
    × Updates projects_repo same_key
        (project 1 "BANK")
        two_projects
        (update_item projects_repo same_key (project 1 "BANK") two_projects).0
        (update_item projects_repo same_key (project 1 "BANK") two_projects).1
    × Deletes projects_repo 2 two_projects
        (delete_item projects_repo 2 two_projects).0
        (delete_item projects_repo 2 two_projects).1
calls-refine_example =
    calls-refine projects_repo (λ d s. refl) same_key (project 1 "BANK") 2 two_projects
      two_projects-Distinct
