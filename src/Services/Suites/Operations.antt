-- ===== src/Services/Suites/Operations.antt =====
-- `TestSuiteService`, backend/app/services/test_suites.py. Ids are parsed UUIDs, payloads are those that
-- their validators accept, and `casefold` is `str.casefold`.
use qa_platform_learning.Common.Tests.{
  ℕ, zero, suc, Bool, true, false, not, ◌&&◌, ◌||◌, String, Option, none, some, List, [], ◌∷◌,
  nat_beq, if◌then◌else◌, nat_keyed, text_keyed, ◌==◌,
}
use qa_platform_learning.Common.Lists.{any, is_empty, length}
use qa_platform_learning.Common.Dict.{Dict, lookup}
use qa_platform_learning.Common.Result.{Result, ok, err, pure, gets, raise_if, ◌>>=◌, ◌>>◌}
use qa_platform_learning.Services.Errors.{ServiceError, missing, conflict, invalid_state}
use qa_platform_learning.Services.Repository.{
  require_item, create_item, update_item, delete_item, all_items, no_clash,
}
use qa_platform_learning.Services.Models.Status.{SuiteStatus, suite_status_keyed}
use qa_platform_learning.Services.Models.Records.{Case, Suite}
use qa_platform_learning.Services.Models.Audit.{
  Value, absent, text_value, number_value, id_value, suite_status_value, Change, created, updated,
  status_changed, deleted, AuditAction, AuditEvent,
}
use qa_platform_learning.Services.Plans.Operations.{or_old}
use qa_platform_learning.Services.Store.{
  Call, suites_repo, cases_repo, require_active_project, record_audit,
}

-- A UUID that may be None.
abbrev pub same_id : Option ℕ → Option ℕ → Bool
same_id none none = true
same_id (some a) (some b) = nat_beq a b
same_id _ _ = false

abbrev pub visited_has : List ℕ → ℕ → Bool
visited_has visited id = any (λ v. nat_beq v id) visited

-- The walk of `_validate_parent` from a suite to its root. Each round but the last visits a suite that
-- was not visited before, so there are no more rounds than suites, and one.
unfoldable pub walk_up :
    (fuel : ℕ)
    → Dict ℕ Suite
    → (project_id : ℕ) → Option ℕ
    → List ℕ
    → Option ℕ
    → Result ServiceError Unit
walk_up fuel suites project_id suite_id visited none = ok tt
walk_up zero suites project_id suite_id visited (some id) = err missing
walk_up (suc fuel) suites project_id suite_id visited (some id) =
    elim (visited_has visited id || same_id (some id) suite_id) [
      | true ↦ err conflict
      | false ↦ elim (lookup id suites) [
        | none ↦ err missing
        | some x ↦ elim (nat_beq x.project_id project_id) [
          | false ↦ err conflict
          | true ↦ elim (x.status == SuiteStatus.active) [
            | false ↦ err invalid_state
            | true ↦ walk_up fuel suites project_id suite_id (id ∷ visited) x.parent_id
          ]
        ]
      ]
    ]

-- `_validate_parent`
unfoldable pub validate_parent : (project_id : ℕ) → (suite_id parent_id : Option ℕ) → Call Unit
unfolding walk_up
validate_parent project_id suite_id parent_id s =
    (walk_up (suc (length s.suites)) s.suites project_id suite_id [] parent_id, s)

-- `TestSuiteCreate` and `TestSuiteUpdate`; a parent that is given may be None.
pub record NewSuite : Type 0 where
  pub project_id : ℕ
  pub parent_id : Option ℕ
  pub name : String
  pub description : String
  pub position : ℕ

pub record SuiteEdit : Type 0 where
  pub parent_id : Option (Option ℕ)
  pub name : Option String
  pub description : Option String
  pub position : Option ℕ

abbrev pub new_suite : NewSuite → (now fresh_id : ℕ) → Suite
new_suite p now fresh_id = record {
  id = fresh_id;
  project_id = p.project_id;
  parent_id = p.parent_id;
  name = p.name;
  description = p.description;
  status = SuiteStatus.active;
  position = p.position;
  created_at = now;
  updated_at = now;
}

abbrev pub suite_event : Suite → AuditAction → List Change → String → AuditEvent
suite_event x action changes comment = record {
  project_id = x.project_id;
  entity_type = "test_suite";
  entity_id = x.id;
  action = action;
  changes = changes;
  comment = comment;
}

abbrev pub added : String → Value → Change
added field after = record { field = field; before = absent; after = after }

abbrev pub dropped : String → Value → Change
dropped field before = record { field = field; before = before; after = absent }

abbrev creation_changes : Suite → List Change
creation_changes x =
    added "name" (text_value x.name)
    ∷ added "parent_id" (id_value x.parent_id)
    ∷ added "status" (suite_status_value x.status)
    ∷ []

-- `changes[field]`, where the values differ.
abbrev pub changed : String → Bool → Value → Value → List Change → List Change
changed field same before after cs =
    if same then cs else record { field = field; before = before; after = after } ∷ cs

-- `_suite_changes`
unfoldable pub suite_changes : Suite → Suite → List Change
suite_changes x y =
    changed "parent_id" (same_id x.parent_id y.parent_id) (id_value x.parent_id)
      (id_value y.parent_id)
      (changed "name" (x.name == y.name) (text_value x.name) (text_value y.name) (
        changed "description" (x.description == y.description) (text_value x.description)
          (text_value y.description)
          (changed "position" (nat_beq x.position y.position) (number_value x.position)
            (number_value y.position) [])))

abbrev pub edited_suite : SuiteEdit → Suite → Suite
edited_suite e x = record x {
  parent_id = or_old x.parent_id e.parent_id;
  name = or_old x.name e.name;
  description = or_old x.description e.description;
  position = or_old x.position e.position;
}

abbrev pub touched_suite : ℕ → Suite → Suite
touched_suite now x = record x { updated_at = now }

abbrev pub with_suite_status : SuiteStatus → ℕ → Suite → Suite
with_suite_status status now x = record x { status = status; updated_at = now }

module _ (casefold : String → String) where
  -- Another suite of the same project and parent with the same name, whatever the case.
  unfoldable pub takes_name : (project_id : ℕ) → Option ℕ → String → Option ℕ → Suite → Bool
  takes_name project_id parent_id name exclude_id x =
      not (same_id (some x.id) exclude_id)
      && nat_beq x.project_id project_id
      && same_id x.parent_id parent_id
      && casefold x.name == casefold name

  -- `_ensure_unique_name`
  unfoldable pub ensure_unique_name : (project_id : ℕ) → Option ℕ → String → Option ℕ → Call Unit
  unfolding takes_name
  ensure_unique_name project_id parent_id name exclude_id = do
    taken ←
        gets (λ s. any (takes_name project_id parent_id name exclude_id) (all_items suites_repo s))
    raise_if taken conflict
    pure tt

  unfoldable pub create_suite : NewSuite → (now fresh_id : ℕ) → Call Suite
  unfolding ensure_unique_name
  create_suite p now fresh_id = do
    _ ← require_active_project p.project_id
    validate_parent p.project_id none p.parent_id
    ensure_unique_name p.project_id p.parent_id p.name none
    create_item suites_repo no_clash (new_suite p now fresh_id)
    record_audit (
        suite_event (new_suite p now fresh_id) created (creation_changes (new_suite p now fresh_id))
          "创建测试套件")
    pure (new_suite p now fresh_id)

  abbrev pub validate_new_parent : Suite → Option (Option ℕ) → Call Unit
  validate_new_parent x none = pure tt
  validate_new_parent x (some parent) = validate_parent x.project_id (some x.id) parent

  abbrev pub save_suite : ℕ → Suite → Suite → Call Suite
  save_suite now x y = do
    update_item suites_repo no_clash (touched_suite now y)
    record_audit (suite_event x updated (suite_changes x y) "更新测试套件")
    pure (touched_suite now y)

  unfoldable pub update_suite : ℕ → SuiteEdit → (now : ℕ) → Call Suite
  unfolding ensure_unique_name
  update_suite id e now = do
    x ← require_item suites_repo id
    _ ← require_active_project x.project_id
    raise_if (not (x.status == SuiteStatus.active)) invalid_state
    validate_new_parent x e.parent_id
    ensure_unique_name x.project_id (edited_suite e x).parent_id (edited_suite e x).name (some x.id)
    if is_empty (suite_changes x (edited_suite e x))
        then pure x
        else save_suite now x (edited_suite e x)

abbrev pub check_activation : Suite → SuiteStatus → Call Unit
check_activation x SuiteStatus.active = validate_parent x.project_id (some x.id) x.parent_id
check_activation x SuiteStatus.archived = pure tt

unfoldable pub move_suite : Suite → SuiteStatus → (now : ℕ) → Call Suite
move_suite x target now = do
  _ ← require_active_project x.project_id
  check_activation x target
  update_item suites_repo no_clash (with_suite_status target now x)
  record_audit (
      suite_event x status_changed
        (record {
          field = "status";
          before = suite_status_value x.status;
          after = suite_status_value target;
        }
          ∷ [])
        "变更测试套件状态")
  pure (with_suite_status target now x)

unfoldable pub transition_suite : ℕ → SuiteStatus → (now : ℕ) → Call Suite
unfolding move_suite
transition_suite id target now = do
  x ← require_item suites_repo id
  if x.status == target then pure x else move_suite x target now

unfoldable pub delete_suite : ℕ → Call ℕ
delete_suite id = do
  x ← require_item suites_repo id
  _ ← require_active_project x.project_id
  parent ←
      gets (λ s. any (λ (y : Suite). same_id y.parent_id (some x.id)) (all_items suites_repo s))
  raise_if parent conflict
  used ← gets (λ s. any (λ (c : Case). same_id c.suite_id (some x.id)) (all_items cases_repo s))
  raise_if used conflict
  delete_item suites_repo x.id
  record_audit (
      suite_event x deleted
        (dropped "name" (text_value x.name) ∷ dropped "parent_id" (id_value x.parent_id) ∷ [])
        "删除测试套件")
  pure x.id
