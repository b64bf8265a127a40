-- ===== src/Services/Suites/Tests.antt =====
-- Tests of the suite service, and its theorem on the walk at a concrete input.
use qa_platform_learning.Common.Tests.{ℕ, ◌≡◌, refl, Option, none, some, [], ◌∷◌, nat_keyed, arith}
use qa_platform_learning.Common.Dict.{Dict}
use qa_platform_learning.Common.Result.{err}
use qa_platform_learning.Services.Errors.{conflict}
use qa_platform_learning.Services.Models.Status.{SuiteStatus}
use qa_platform_learning.Services.Models.Records.{Suite}
use qa_platform_learning.Services.Suites.Operations.{walk_up}
use qa_platform_learning.Services.Suites.Walk.{Walks, walk_up-ends}

abbrev suite : ℕ → Option ℕ → Suite
suite id parent_id = record {
  id = id;
  project_id = 1;
  parent_id = parent_id;
  name = "a";
  description = "";
  status = SuiteStatus.active;
  position = 0;
  created_at = 0;
  updated_at = 0;
}

-- Two suites, each the parent of the other.
abbrev cycle : Dict ℕ Suite
cycle = (2, suite 2 (some 3)) ∷ (3, suite 3 (some 2)) ∷ []

cycle_refused : walk_up 3 cycle 1 none [] (some 2) ≡ err conflict
unfolding walk_up
cycle_refused = refl

walk_up-ends_example : Walks cycle 1 none [] (some 2) (walk_up 10 cycle 1 none [] (some 2))
walk_up-ends_example = walk_up-ends cycle 1 none 10 (some 2) (ground arith)
