-- ===== src/Services/Snapshots/Tests.antt =====
-- Tests of snapshots, and their theorems at concrete inputs.
use qa_platform_learning.Common.Tests.{
  ℕ, ◌≡◌, ◌↔◌, refl, true, String, Option, none, some, List, [], ◌∷◌, map, nat_keyed,
}
use qa_platform_learning.Common.Result.{Result, ok, err, ◌>>=◌}
use qa_platform_learning.Services.Errors.{ServiceError}
use qa_platform_learning.Services.Reads.{Owned, Owned-insert}
use qa_platform_learning.Services.Models.Status.{
  ProjectStatus, SuiteStatus, CaseStatus, CasePriority, CaseType,
}
use qa_platform_learning.Services.Models.Records.{Project, Suite, Case, Snapshot, SnapshotItem}
use qa_platform_learning.Services.Store.{Store, require_active_project}
use qa_platform_learning.Services.Repository.{create_item}
use qa_platform_learning.Services.Suites.Operations.{visited_has}
use qa_platform_learning.Services.Snapshots.Operations.{
  NewSnapshot, suite_scope_ids, expand, keys, suite_path, snapshot_items, create_snapshot,
}
use qa_platform_learning.Services.Snapshots.Scope.{Descends, suite_scope_ids-Descends}
use qa_platform_learning.Services.Snapshots.Creation.{Pictured, create_snapshot-Pictured}

abbrev plain : String → String
plain s = s

abbrev suite : ℕ → Option ℕ → String → Suite
suite id parent_id name = record {
  id = id;
  project_id = 1;
  parent_id = parent_id;
  name = name;
  description = "";
  status = SuiteStatus.active;
  position = 0;
  created_at = 0;
  updated_at = 0;
}

abbrev case_in : ℕ → Option ℕ → Case
case_in id suite_id = record {
  id = id;
  project_id = 1;
  suite_id = suite_id;
  title = "a case";
  preconditions = "";
  steps = [];
  priority = CasePriority.p1;
  case_type = CaseType.manual;
  status = CaseStatus.draft;
  tags = [];
  created_at = 0;
  updated_at = 0;
}

abbrev three_suites : List Suite
three_suites = suite 2 none "login" ∷ suite 3 (some 2) "mail" ∷ suite 4 none "cart" ∷ []

below_login : suite_scope_ids 2 three_suites true ≡ 3 ∷ 2 ∷ []
unfolding suite_scope_ids expand
below_login = refl

suite_scope_ids-Descends_example :
    (visited_has (suite_scope_ids 2 three_suites true) 3 ≡ true) ↔ Descends three_suites 2 3
suite_scope_ids-Descends_example = suite_scope_ids-Descends three_suites 2 3

abbrev shop : Project
shop = record {
  id = 1;
  key = "SHOP";
  name = "shop";
  description = "";
  status = ProjectStatus.active;
  created_at = 0;
  updated_at = 0;
}

abbrev store : Store
store = record {
  projects = (1, shop) ∷ [];
  suites = (2, suite 2 none "login") ∷ (3, suite 3 (some 2) "mail") ∷ (4, suite 4 none "cart") ∷ [];
  cases = (7, case_in 7 (some 3)) ∷ (8, case_in 8 (some 4)) ∷ (9, case_in 9 (some 2)) ∷ [];
  plans = [];
  executions = [];
  defects = [];
  snapshots = [];
  audits = [];
}

abbrev login_cases : NewSnapshot
login_cases = record {
  project_id = 1;
  suite_id = some 2;
  label = "before the release";
  description = "";
  include_descendants = true;
}

-- The case of the suite itself stands before the one of the suite below it.
abbrev taken : Result ServiceError Snapshot → List ℕ
taken (ok x) = map (λ (i : SnapshotItem). i.source_case_id) x.items
taken (err e) = []

login_taken : taken (create_snapshot plain login_cases 10 20 store).0 ≡ 9 ∷ 7 ∷ []
unfolding create_snapshot ◌>>=◌ require_active_project keys suite_path snapshot_items create_item
login_taken = refl

store-Owned : Owned (λ (p : Project). p.id) store.projects
store-Owned = Owned-insert (λ (p : Project). p.id) shop [] (λ k p found. absurd (cc))

create_snapshot-Pictured_example :
    Pictured login_cases store
      (create_snapshot plain login_cases 10 20 store).0
      (create_snapshot plain login_cases 10 20 store).1
create_snapshot-Pictured_example =
    create_snapshot-Pictured plain login_cases 10 20 store store-Owned
