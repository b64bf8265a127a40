-- ===== src/Services/Defects/Tests.antt =====
-- Tests of the defect service, and its theorems at concrete inputs.
use qa_platform_learning.Common.Tests.{◌≡◌, refl, String, none, some, [], ◌∷◌, nat_keyed, arith}
use qa_platform_learning.Common.Result.{ok, ◌>>=◌}
use qa_platform_learning.Services.Defects.Model.{
  in_progress, resolved, major, p2, Edit, Defect, Transition,
}
use qa_platform_learning.Services.Errors.{invalid_state}
use qa_platform_learning.Services.Models.Status.{ProjectStatus}
use qa_platform_learning.Services.Models.Records.{Project}
use qa_platform_learning.Services.Store.{Store, require_active_project}
use qa_platform_learning.Services.Repository.{update_item}
use qa_platform_learning.Services.Defects.Operations.{moved, transition}
use qa_platform_learning.Services.Defects.Edits.{update, update-AllFit, closed_only_reopens}
use qa_platform_learning.Services.Defects.Model.{closed}
use qa_platform_learning.Common.Result.{err}
use qa_platform_learning.Services.Defects.Lifecycle.{
  AllFit, Moved, transition-AllFit, transition-Moved,
}

abbrev plain : String → String
plain s = s

abbrev crash : Defect
crash = record {
  id = 1;
  project_id = 2;
  case_id = none;
  execution_id = none;
  title = "crash";
  description = "";
  severity = major;
  priority = p2;
  status = in_progress;
  reporter = "ann";
  assignee = "bob";
  environment = "";
  reproduction_steps = [];
  expected_result = "";
  actual_result = "";
  resolution = "";
  created_at = 0;
  updated_at = 0;
  resolved_at = none;
  closed_at = none;
}

abbrev fix : Transition
fix = record { status = resolved; resolution = some "fixed"; comment = "done" }

abbrev shop : Project
shop = record {
  id = 2;
  key = "SHOP";
  name = "shop";
  description = "";
  status = ProjectStatus.active;
  created_at = 0;
  updated_at = 0;
}

abbrev store : Store
store = record {
  projects = (2, shop) ∷ [];
  suites = [];
  cases = [];
  plans = [];
  executions = [];
  defects = (1, crash) ∷ [];
  snapshots = [];
  audits = [];
}

abbrev store_after : Store
store_after = (transition plain 1 fix 50 store).1

store-AllFit : AllFit plain store
store-AllFit = ground arith

fix_resolves : transition plain 1 fix 50 store ≡ (ok (moved plain 50 fix crash), store_after)
unfolding transition ◌>>=◌ require_active_project update_item
fix_resolves = refl

transition-AllFit_example : AllFit plain store_after
transition-AllFit_example = transition-AllFit plain 1 fix 50 store store-AllFit

transition-Moved_example : Moved plain 1 fix 50 store (ok (moved plain 50 fix crash)) store_after
transition-Moved_example =
    transition-Moved plain 1 fix 50 store store_after (moved plain 50 fix crash) fix_resolves

abbrev retitle : Edit
retitle = record {
  title = some "crash on start";
  description = none;
  severity = none;
  priority = none;
  assignee = none;
  environment = none;
  reproduction_steps = none;
  expected_result = none;
  actual_result = none;
}

update-AllFit_example : AllFit plain (update plain 1 retitle 60 store).1
update-AllFit_example = update-AllFit plain 1 retitle 60 store store-AllFit

abbrev closed_store : Store
closed_store = record store { defects = (1, record crash { status = closed }) ∷ [] }

closed_only_reopens_example :
    (update plain 1 retitle 60 closed_store ≡ (err invalid_state, closed_store))
    × (transition plain 1 fix 60 closed_store ≡ (err invalid_state, closed_store))
closed_only_reopens_example =
    closed_only_reopens plain 1 retitle fix 60 closed_store (record crash { status = closed }) refl
      refl refl refl
