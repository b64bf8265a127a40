-- ===== src/Services/Snapshots/Operations.antt =====
-- `TestCaseSnapshotService.create`, backend/app/services/test_case_snapshots.py. Ids are parsed UUIDs, whose
-- order as texts is that of the numbers; `casefold` is `str.casefold`.
use qa_platform_learning.Common.Tests.{
  ℕ, zero, suc, ◌+◌, Bool, true, false, ◌&&◌, ◌||◌, String, Option, none, some, List, [], ◌∷◌, ◌++◌,
  map, nat_beq, ltb, if◌then◌else◌, nat_keyed, text_keyed, ◌==◌,
}
use qa_platform_learning.Common.Texts.{text_before}
use qa_platform_learning.Common.Lists.{all, select, is_empty, length}
use qa_platform_learning.Common.Dict.{Dict, lookup, insert}
use qa_platform_learning.Common.Result.{
  Result, ok, err, pure, raise, gets, lift, raise_if, ◌>>=◌, ◌>>◌,
}
use qa_platform_learning.Services.Errors.{ServiceError, missing, conflict, invalid_state}
use qa_platform_learning.Services.Repository.{require_item, create_item, all_items, no_clash}
use qa_platform_learning.Services.Models.Status.{SnapshotScope, snapshot_scope_keyed}
use qa_platform_learning.Services.Models.Records.{Project, Suite, Case, Snapshot, SnapshotItem}
use qa_platform_learning.Services.Models.Audit.{
  Value, absent, number_value, id_value, scope_value, Change, snapshot_created, AuditEvent,
}
use qa_platform_learning.Services.Suites.Operations.{visited_has}
use qa_platform_learning.Services.Store.{
  Store, Call, suites_repo, cases_repo, snapshots_repo, require_active_project, record_audit,
}

-- `TestCaseSnapshotCreate`
pub record NewSnapshot : Type 0 where
  pub project_id : ℕ
  pub suite_id : Option ℕ
  pub label : String
  pub description : String
  pub include_descendants : Bool

-- An optional id in a set of ids.
abbrev pub has_id : List ℕ → Option ℕ → Bool
has_id ids none = false
has_id ids (some id) = visited_has ids id

-- `{suite.id for suite in suites if suite.parent_id in allowed}`
abbrev pub descendants : List Suite → List ℕ → List ℕ
descendants suites allowed =
    map (λ (x : Suite). x.id) (select (λ (x : Suite). has_id allowed x.parent_id) suites)

-- The loop of `_suite_scope_ids`. Each round but the last adds a suite, so there are no more rounds than
-- suites, and one.
unfoldable pub expand : (fuel : ℕ) → List Suite → List ℕ → List ℕ
expand zero suites allowed = allowed
expand (suc fuel) suites allowed =
    let rest = expand fuel suites (descendants suites allowed ++ allowed) in
    if all (visited_has allowed) (descendants suites allowed) then allowed else rest

-- `_suite_scope_ids`
unfoldable pub suite_scope_ids : ℕ → List Suite → (include_descendants : Bool) → List ℕ
unfolding expand
suite_scope_ids root suites false = root ∷ []
suite_scope_ids root suites true = expand (suc (length suites)) suites (root ∷ [])

-- `{suite.id: suite for suite in suites}`
abbrev pub index : List Suite → Dict ℕ Suite → Dict ℕ Suite
index [] d = d
index (x ∷ xs) d = index xs (insert x.id x d)

-- `_suite_path`; no suite is visited twice, so there are no more rounds than suites, and one.
unfoldable pub suite_path :
    (fuel : ℕ) → Dict ℕ Suite → List ℕ → List String → Option ℕ → Result ServiceError (List String)
suite_path fuel suites visited names none = ok names
suite_path zero suites visited names (some id) = err missing
suite_path (suc fuel) suites visited names (some id) = elim (visited_has visited id) [
  | true ↦ err conflict
  | false ↦ elim (lookup id suites) [
    | none ↦ err missing
    | some x ↦ suite_path fuel suites (id ∷ visited) (x.name ∷ names) x.parent_id
  ]
]

abbrev pub path_of : Dict ℕ Suite → Option ℕ → Result ServiceError (List String)
path_of suites id = suite_path (suc (length suites)) suites [] [] id

-- The scope of a snapshot; no set of suites is allowed when it is the whole project.
pub record Scope : Type 0 where
  pub kind : SnapshotScope
  pub id : ℕ
  pub name : String
  pub allowed : Option (List ℕ)

abbrev pub suites_of : ℕ → Store → List Suite
suites_of project_id s =
    select (λ (x : Suite). nat_beq x.project_id project_id) (all_items suites_repo s)

abbrev pub project_scope : Project → Scope
project_scope p = record { kind = SnapshotScope.project; id = p.id; name = p.name; allowed = none }

abbrev pub suite_scope : Suite → List Suite → Bool → Scope
suite_scope x suites include_descendants = record {
  kind = SnapshotScope.suite;
  id = x.id;
  name = x.name;
  allowed = some (suite_scope_ids x.id suites include_descendants);
}

-- A suite that is there stands in another project.
abbrev pub refuse_suite : ℕ → Call Scope
refuse_suite id = do _ ← require_item suites_repo id; raise conflict

abbrev pub choose_scope : NewSnapshot → Project → List Suite → Option ℕ → Call Scope
choose_scope p project suites none = pure (project_scope project)
choose_scope p project suites (some id) = elim (lookup id (index suites [])) [
  | none ↦ refuse_suite id
  | some x ↦ pure (suite_scope x suites p.include_descendants)
]

abbrev pub in_scope : ℕ → Option (List ℕ) → Case → Bool
in_scope project_id none c = nat_beq c.project_id project_id
in_scope project_id (some ids) c = nat_beq c.project_id project_id && has_id ids c.suite_id

-- The key by which cases are ordered.
pub record Key : Type 0 where
  pub path : List String
  pub created_at : ℕ
  pub id : ℕ

abbrev pub path_before : List String → List String → Bool
path_before [] [] = false
path_before [] (t ∷ ts) = true
path_before (s ∷ ss) [] = false
path_before (s ∷ ss) (t ∷ ts) = let rest = path_before ss ts in text_before s t || s == t && rest

abbrev pub same_path : List String → List String → Bool
same_path [] [] = true
same_path (s ∷ ss) (t ∷ ts) = let rest = same_path ss ts in s == t && rest
same_path _ _ = false

-- The order of the keys as tuples.
abbrev pub key_before : Key → Key → Bool
key_before a b =
    path_before a.path b.path
    || same_path a.path b.path
      && (ltb a.created_at b.created_at || nat_beq a.created_at b.created_at && ltb a.id b.id)

module _ (casefold : String → String) where
  abbrev pub keyed : Case → List String → Key × Case
  keyed c path = (record { path = map casefold path; created_at = c.created_at; id = c.id }, c)

  -- The keys of `sorted`, in the order of the cases; the first path that fails raises.
  unfoldable pub keys : Dict ℕ Suite → List Case → Result ServiceError (List (Key × Case))
  keys suites [] = ok []
  keys suites (c ∷ cs) =
      let rest = keys suites cs in
      elim (path_of suites c.suite_id) [
        | err e ↦ err e
        | ok path ↦ elim rest [ err e ↦ err e | ok ks ↦ ok (keyed c path ∷ ks) ]
      ]

-- A stable sort.
abbrev pub place : Key × Case → List (Key × Case) → List (Key × Case)
place k [] = k ∷ []
place k (l ∷ ls) = let rest = place k ls in if key_before l.0 k.0 then l ∷ rest else k ∷ l ∷ ls

abbrev pub sorted : List (Key × Case) → List (Key × Case)
sorted [] = []
sorted (k ∷ ks) = place k (sorted ks)

-- `_snapshot_item`
abbrev pub snapshot_item : Case → ℕ → List String → SnapshotItem
snapshot_item c position path = record {
  source_case_id = c.id;
  source_suite_id = c.suite_id;
  suite_path = path;
  position = position;
  title = c.title;
  preconditions = c.preconditions;
  steps = c.steps;
  priority = c.priority;
  case_type = c.case_type;
  status = c.status;
  tags = c.tags;
  source_created_at = c.created_at;
  source_updated_at = c.updated_at;
}

-- The items, numbered from `position`.
unfoldable pub snapshot_items :
    Dict ℕ Suite → ℕ → List (Key × Case) → Result ServiceError (List SnapshotItem)
snapshot_items suites position [] = ok []
snapshot_items suites position ((_, c) ∷ ks) =
    let rest = snapshot_items suites (suc position) ks in
    elim (path_of suites c.suite_id) [
      | err e ↦ err e
      | ok path ↦ elim rest [
        | err e ↦ err e
        | ok items ↦ ok (snapshot_item c position path ∷ items)
      ]
    ]

abbrev pub same_scope : Scope → Snapshot → Bool
same_scope scope x = x.scope_type == scope.kind && nat_beq x.scope_id scope.id

-- The greatest version of the scope, 0 when there is none.
abbrev pub last_version : Scope → List Snapshot → ℕ
last_version scope [] = 0
last_version scope (x ∷ xs) =
    let rest = last_version scope xs in
    if same_scope scope x then (if ltb rest x.version then x.version else rest) else rest

abbrev pub new_snapshot :
    NewSnapshot → Scope → ℕ → List SnapshotItem → (now fresh_id : ℕ) → Snapshot
new_snapshot p scope version items now fresh_id = record {
  id = fresh_id;
  project_id = p.project_id;
  scope_type = scope.kind;
  scope_id = scope.id;
  scope_name = scope.name;
  version = version;
  label = p.label;
  description = p.description;
  case_count = length items;
  items = items;
  created_at = now;
}

abbrev added_field : String → Value → Change
added_field field after = record { field = field; before = absent; after = after }

abbrev pub snapshot_event : Snapshot → AuditEvent
snapshot_event x = record {
  project_id = x.project_id;
  entity_type = "test_case_snapshot";
  entity_id = x.id;
  action = snapshot_created;
  changes =
      added_field "scope_type" (scope_value x.scope_type)
      ∷ added_field "scope_id" (id_value (some x.scope_id))
      ∷ added_field "version" (number_value x.version)
      ∷ added_field "case_count" (number_value x.case_count)
      ∷ [];
  comment = "创建测试用例归档快照";
}

abbrev pub save_snapshot : Snapshot → Call Snapshot
save_snapshot x = do create_item snapshots_repo no_clash x; record_audit (snapshot_event x); pure x

module _ (casefold : String → String) where
  unfoldable pub create_snapshot : NewSnapshot → (now fresh_id : ℕ) → Call Snapshot
  unfolding suite_scope_ids
  create_snapshot p now fresh_id = do
    project ← require_active_project p.project_id
    suites ← gets (suites_of p.project_id)
    scope ← choose_scope p project suites p.suite_id
    cases ← gets (λ s. select (in_scope p.project_id scope.allowed) (all_items cases_repo s))
    raise_if (is_empty cases) invalid_state
    ks ← lift (keys casefold (index suites []) cases)
    items ← lift (snapshot_items (index suites []) 0 (sorted ks))
    version ← gets (λ s. 1 + last_version scope (all_items snapshots_repo s))
    save_snapshot (new_snapshot p scope version items now fresh_id)
