-- ===== src/Services/Snapshots/Creation.antt =====
-- What `TestCaseSnapshotService.create` does, backend/app/services/test_case_snapshots.py.
use qa_platform_learning.Common.Tests.{
  ℕ, ◌+◌, ◌<◌, ◌≡◌, refl, sym, ap, true, false, String, Option, none, some, List, [], ◌∷◌, ◌++◌,
  map, arith, nat_keyed, nat_beq_iff,
}
use qa_platform_learning.Common.Lists.{select, length, is_empty}
use qa_platform_learning.Common.Dict.{lookup, contains, values}
use qa_platform_learning.Common.Result.{Result, ok, err, ◌>>=◌}
use qa_platform_learning.Common.Holds.{
  Holds, Holds-pure, Holds-raise, bind-find, bind-gets, bind-lift, bind-raise_if, bind-modify,
}
use qa_platform_learning.Services.Errors.{ServiceError}
use qa_platform_learning.Services.Repository.{put, no_clash, bind-create}
use qa_platform_learning.Services.Reads.{bind-reads, Owned}
use qa_platform_learning.Services.Models.Status.{SnapshotScope, snapshot_scope_keyed}
use qa_platform_learning.Services.Models.Records.{Project, Suite, Case, Snapshot, SnapshotItem}
use qa_platform_learning.Services.Store.{Store, Call, snapshots_repo, bind-active}
use qa_platform_learning.Services.Plans.Effects.{ActiveProject}
use qa_platform_learning.Services.Snapshots.Operations.{
  NewSnapshot, suite_scope_ids, Scope, Key, suites_of, index, project_scope, suite_scope,
  choose_scope, in_scope, keys, sorted, snapshot_items, last_version, same_scope, snapshot_event,
  create_snapshot,
}
use qa_platform_learning.Services.Snapshots.Contents.{
  case_ids, sorted-Perm, keys-case_ids, numbers, snapshot_items-Itemize, last_version-latest,
  index-id,
}
use mathlib.Core.List.{Perm}
use mathlib.Core.Path.{subst}

-- The scope that the payload asks for: the project, or the suite with what is below it if that is asked for.
abbrev pub ScopeFor : NewSnapshot → Store → Option ℕ → Scope → Type 0
ScopeFor p s none scope =
    (scope.kind ≡ SnapshotScope.project) × (scope.id ≡ p.project_id) × (scope.allowed ≡ none)
ScopeFor p s (some i) scope =
    (scope.kind ≡ SnapshotScope.suite)
    × (scope.id ≡ i)
    × (scope.allowed ≡ some (suite_scope_ids i (suites_of p.project_id s) p.include_descendants))

abbrev Chosen : NewSnapshot → Store → Option ℕ → Result ServiceError Scope → Store → Type 0
Chosen p s id (ok scope) t = (t ≡ s) × ScopeFor p s id scope
Chosen p s id (err e) t = t ≡ s

module _ (p : NewSnapshot) (project : Project) (s : Store) (own : project.id ≡ p.project_id) where
  Chosen-suite :
      (i : ℕ) (o : Option Suite)
      → lookup i (index (suites_of p.project_id s) []) ≡ o
      → Holds (Chosen p s (some i)) (choose_scope p project (suites_of p.project_id s) (some i)) s
  Chosen-suite i none at =
      rw at (bind-find {Post = Chosen p s (some i)} _ _ _ s (λ _. refl) λ _ _. Holds-raise _ s refl)
  Chosen-suite i (some x) at =
      let same = index-id (suites_of p.project_id s) i x at in
      rw at (
        Holds-pure (suite_scope x (suites_of p.project_id s) p.include_descendants) s (
          refl,
          (
            refl,
            same,
            ap
                (λ (j : ℕ).
                  some (suite_scope_ids j (suites_of p.project_id s) p.include_descendants))
                same,
          ),
        ))

  choose_scope-Chosen :
      (id : Option ℕ)
      → Holds (Chosen p s id) (choose_scope p project (suites_of p.project_id s) id) s
  choose_scope-Chosen none = Holds-pure (project_scope project) s (refl, (refl, own, refl))
  choose_scope-Chosen (some i) =
      Chosen-suite i (lookup i (index (suites_of p.project_id s) [])) refl

  Still-Chosen :
      (id : Option ℕ) (r : Result ServiceError Scope) (t : Store) → Chosen p s id r t → t ≡ s
  Still-Chosen id (ok scope) t h = h.0
  Still-Chosen id (err e) t h = h

  -- What follows the choice has the scope that was asked for.
  bind-Chosen :
      {B : Type 0} {Post : Result ServiceError B → Store → Type 0} (id : Option ℕ)
      (f : Scope → Call B)
      → ((e : ServiceError) → Post (err e) s)
      → ((scope : Scope) → ScopeFor p s id scope → Holds Post (f scope) s)
      → Holds Post (choose_scope p project (suites_of p.project_id s) id >>= f) s
  bind-Chosen id f bad good =
      bind-reads _ f s (record { at = Still-Chosen id _ _ (choose_scope-Chosen id).at }) bad
        λ scope chosen.
          good scope
            (subst (λ (o : Result ServiceError Scope × Store). Chosen p s id o.0 o.1) chosen
              (choose_scope-Chosen id).at).1

-- What a call that returns the snapshot `x` has found and done.
abbrev pub Pictured : NewSnapshot → Store → Result ServiceError Snapshot → Store → Type 0
Pictured p s (err e) t = t ≡ s
Pictured p s (ok x) t =
    (scope : Scope) × ScopeFor p s p.suite_id scope
    × ActiveProject p.project_id s
    × (x.scope_type ≡ scope.kind)
    × (x.scope_id ≡ scope.id)
    × Perm (map (λ (i : SnapshotItem). i.source_case_id) x.items)
        (map (λ (c : Case). c.id) (select (in_scope p.project_id scope.allowed) (values s.cases)))
    × (is_empty (select (in_scope p.project_id scope.allowed) (values s.cases)) ≡ false)
    × (map (λ (i : SnapshotItem). i.position) x.items ≡ numbers 0 x.items)
    × (x.case_count ≡ length x.items)
    × ((k : ℕ) (y : Snapshot)
        → lookup k s.snapshots ≡ some y
        → y.scope_type ≡ scope.kind
        → y.scope_id ≡ scope.id
        → y.version < x.version)
    × (contains x.id s.snapshots ≡ false)
    × (t ≡ record (put snapshots_repo x s) { audits = s.audits ++ snapshot_event x ∷ [] })

same_scope-holds :
    (scope : Scope) (y : Snapshot)
    → y.scope_type ≡ scope.kind
    → y.scope_id ≡ scope.id
    → same_scope scope y ≡ true
same_scope-holds scope y kind id = ground (
  arith,
  (snapshot_scope_keyed.agree_iff y.scope_type scope.kind).1 kind,
  (nat_beq_iff y.scope_id scope.id).1 id,
)

module _ (casefold : String → String) where
  created :
      (p : NewSnapshot) (now fresh_id : ℕ) (s : Store)
      → Owned (λ (x : Project). x.id) s.projects
      → Holds (Pictured p s) (create_snapshot casefold p now fresh_id) s
  unfolding create_snapshot
  created p now fresh_id s own =
      bind-active _ _ s (λ _. refl)
        λ project found runs. bind-gets _ _ s (
          bind-Chosen p project s (own p.project_id project found) p.suite_id _ (λ _. refl)
            λ scope asked. bind-gets _ _ s (
              bind-raise_if _ _ _ s (λ _. refl)
                λ has_cases.
                  bind-lift _ _ s (λ _ _. refl)
                    λ ks keyed.
                      bind-lift _ _ s (λ _ _. refl)
                        λ items itemized. bind-gets _ _ s (
                          bind-create snapshots_repo no_clash _ _ s (λ _. refl)
                            λ fresh _. bind-modify _ _ _ (
                              Holds-pure _ _ (
                                scope,
                                asked,
                                (project, found, runs),
                                refl,
                                refl,
                                contents scope ks items keyed itemized,
                                has_cases,
                                (snapshot_items-Itemize (index (suites_of p.project_id s) []) 0
                                    (sorted ks) items itemized).1,
                                refl,
                                latest scope,
                                fresh,
                                refl,
                              )))))
    where
      contents :
          (scope : Scope) (ks : List (Key × Case)) (items : List SnapshotItem)
          → keys casefold
              (index (suites_of p.project_id s) [])
              (select (in_scope p.project_id scope.allowed) (values s.cases))
            ≡ ok ks
          → snapshot_items (index (suites_of p.project_id s) []) 0 (sorted ks) ≡ ok items
          → Perm (map (λ (i : SnapshotItem). i.source_case_id) items) (
              map
                (λ (c : Case). c.id)
                (select (in_scope p.project_id scope.allowed) (values s.cases)))
      contents scope ks items keyed itemized =
          subst
            (λ (is : List ℕ). Perm is (
              map (λ (c : Case). c.id)
                (select (in_scope p.project_id scope.allowed) (values s.cases))))
            (sym
              (snapshot_items-Itemize (index (suites_of p.project_id s) []) 0 (sorted ks) items
                itemized).0)
            (subst (λ (is : List ℕ). Perm (case_ids (sorted ks)) is)
              (keys-case_ids casefold (index (suites_of p.project_id s) [])
                (select (in_scope p.project_id scope.allowed) (values s.cases)) ks keyed)
              (sorted-Perm ks))

      latest :
          (scope : Scope) (k : ℕ) (y : Snapshot)
          → lookup k s.snapshots ≡ some y
          → y.scope_type ≡ scope.kind
          → y.scope_id ≡ scope.id
          → y.version < 1 + last_version scope (values s.snapshots)
      latest scope k y found kind id = ground (
        arith,
        last_version-latest scope k y s.snapshots found (same_scope-holds scope y kind id),
      )

  -- A call that returns a snapshot has found its project active and has taken the scope that was asked for: the
  -- project, or the suite with the suites below it where that is asked for. The items stand for exactly the cases
  -- of the project in that scope, of which there is at least one, each as often as it is stored, and are numbered
  -- from 0; the count is their number; and the version is later than that of every stored snapshot of the same
  -- scope. The snapshot is stored under a new id, one audit event is appended, and nothing else has changed. A call
  -- that raises changes nothing. The projects must stand under their ids.
  pub create_snapshot-Pictured :
      (p : NewSnapshot) (now fresh_id : ℕ) (s : Store)
      → Owned (λ (x : Project). x.id) s.projects
      → Pictured p s
          (create_snapshot casefold p now fresh_id s).0
          (create_snapshot casefold p now fresh_id s).1
  create_snapshot-Pictured p now fresh_id s own = (created p now fresh_id s own).at
