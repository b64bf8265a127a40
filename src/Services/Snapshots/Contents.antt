-- ===== src/Services/Snapshots/Contents.antt =====
-- What a snapshot contains (backend/app/services/test_case_snapshots.py): the sorted cases, their items and
-- the versions of a scope.
use qa_platform_learning.Common.Tests.{
  ℕ, suc, ◌≤◌, ◌≡◌, refl, sym, ap, ◌∙◌, inl, inr, true, String, some, List, [], ◌∷◌, map, arith,
  nat_beq, nat_keyed, Bool-cases,
}
use qa_platform_learning.Common.Dict.{Dict, lookup, insert, values}
use qa_platform_learning.Common.Result.{Result, ok, err}
use qa_platform_learning.Services.Errors.{ServiceError}
use qa_platform_learning.Services.Reads.{Owned, Owned-insert}
use qa_platform_learning.Services.Models.Status.{snapshot_scope_keyed}
use qa_platform_learning.Services.Models.Records.{Suite, Case, Snapshot, SnapshotItem}
use qa_platform_learning.Services.Snapshots.Operations.{
  index, path_of, Key, key_before, keyed, keys, place, sorted, snapshot_item, snapshot_items, Scope,
  same_scope, last_version,
}
use mathlib.Core.List.{Perm}
use mathlib.Core.List.Perm
use mathlib.Core.Path.{subst}
use mathlib.Core.Option.{some-injective}

ok-injective : {A : Type 0} {a b : A} → ◌≡◌ {A = Result ServiceError A} (ok a) (ok b) → a ≡ b
ok-injective h = cc (h)

-- The ids of the cases behind the keys.
abbrev pub case_ids : List (Key × Case) → List ℕ
case_ids ks = map (λ (k : Key × Case). k.1.id) ks

place-Perm :
    (k : Key × Case) (ks : List (Key × Case)) → Perm (case_ids (place k ks)) (k.1.id ∷ case_ids ks)
place-Perm k [] = Perm.rfl
place-Perm k (l ∷ ls) = elim (Bool-cases (key_before l.0 k.0)) [
  | inl before ↦
      rw before
        (Perm.trans (Perm.cons l.1.id (place-Perm k ls)) (Perm.swap k.1.id l.1.id (case_ids ls)))
  | inr not_before ↦ rw not_before Perm.rfl
]

pub sorted-Perm : (ks : List (Key × Case)) → Perm (case_ids (sorted ks)) (case_ids ks)
sorted-Perm [] = Perm.rfl
sorted-Perm (k ∷ ks) = Perm.trans (place-Perm k (sorted ks)) (Perm.cons k.1.id (sorted-Perm ks))

module _ (casefold : String → String) (suites : Dict ℕ Suite) where
  -- The keys of `c ∷ cs`, by what the path of `c` and the keys of `cs` are.
  keys-cases :
      (c : Case) (cs : List Case) (p : Result ServiceError (List String))
      (r : Result ServiceError (List (Key × Case))) (ks : List (Key × Case))
      → path_of suites c.suite_id ≡ p
      → keys casefold suites cs ≡ r
      → keys casefold suites (c ∷ cs) ≡ ok ks
      → (path : List String) × (rest : List (Key × Case)) × (r ≡ ok rest)
        × (ks ≡ keyed casefold c path ∷ rest)
  unfolding keys
  keys-cases c cs (ok path) (ok rest) ks e g h = (path, rest, refl, cc (rw (keys, e, g) at h))
  keys-cases c cs (ok path) (err x) ks e g h = absurd (cc (rw (keys, e, g) at h))
  keys-cases c cs (err x) r ks e g h = absurd (cc (rw (keys, e) at h))

  pub keys-case_ids :
      (cs : List Case) (ks : List (Key × Case))
      → keys casefold suites cs ≡ ok ks
      → case_ids ks ≡ map (λ (c : Case). c.id) cs
  unfolding keys
  keys-case_ids [] ks h = ap case_ids (ok-injective (sym h))
  keys-case_ids (c ∷ cs) ks h =
      let (path, rest, made, whole) = keys-cases c cs _ _ ks refl refl h in
      ap case_ids whole ∙ ap (λ (is : List ℕ). c.id ∷ is) (keys-case_ids cs rest made)

-- The numbers from `n` on, as many as `xs` has elements.
abbrev pub numbers : {A : Type 0} → ℕ → List A → List ℕ
numbers n [] = []
numbers n (x ∷ xs) = n ∷ numbers (suc n) xs

-- The items stand for the cases behind the keys, in their order, and are numbered.
abbrev pub Itemize : ℕ → List (Key × Case) → List SnapshotItem → Type 0
Itemize n ks items =
    (map (λ (i : SnapshotItem). i.source_case_id) items ≡ case_ids ks)
    × (map (λ (i : SnapshotItem). i.position) items ≡ numbers n items)

module _ (suites : Dict ℕ Suite) where
  items-cases :
      (n : ℕ) (k : Key × Case) (ks : List (Key × Case)) (p : Result ServiceError (List String))
      (r : Result ServiceError (List SnapshotItem)) (items : List SnapshotItem)
      → path_of suites k.1.suite_id ≡ p
      → snapshot_items suites (suc n) ks ≡ r
      → snapshot_items suites n (k ∷ ks) ≡ ok items
      → (path : List String) × (rest : List SnapshotItem) × (r ≡ ok rest)
        × (items ≡ snapshot_item k.1 n path ∷ rest)
  unfolding snapshot_items
  items-cases n k ks (ok path) (ok rest) items e g h =
      (path, rest, refl, cc (rw (snapshot_items, e, g) at h))
  items-cases n k ks (ok path) (err x) items e g h = absurd (cc (rw (snapshot_items, e, g) at h))
  items-cases n k ks (err x) r items e g h = absurd (cc (rw (snapshot_items, e) at h))

  pub snapshot_items-Itemize :
      (n : ℕ) (ks : List (Key × Case)) (items : List SnapshotItem)
      → snapshot_items suites n ks ≡ ok items
      → Itemize n ks items
  unfolding snapshot_items
  snapshot_items-Itemize n [] items h = subst (Itemize n []) (ok-injective h) (refl, refl)
  snapshot_items-Itemize n (k ∷ ks) items h =
      let (path, rest, made, whole) = items-cases n k ks _ _ items refl refl h in
      let (ids, places) = snapshot_items-Itemize (suc n) ks rest made in
      subst (Itemize n (k ∷ ks)) (sym whole)
        (ap (λ (is : List ℕ). k.1.id ∷ is) ids, ap (λ (is : List ℕ). n ∷ is) places)

-- No stored snapshot of the scope has a later version.
pub last_version-latest :
    (scope : Scope) (k : ℕ) (y : Snapshot) (d : Dict ℕ Snapshot)
    → lookup k d ≡ some y
    → same_scope scope y ≡ true
    → y.version ≤ last_version scope (values d)
last_version-latest scope k y [] found same = absurd (cc)
last_version-latest scope k y ((j, x) ∷ d) found same = elim (Bool-cases (nat_beq j k)) [
  | inl here ↦
      let own : x ≡ y = some-injective _ _ (rw here at found) in
      ground (arith, ap (same_scope scope) own ∙ same, ap (λ (a : Snapshot). a.version) own)
  | inr other ↦ ground (arith, last_version-latest scope k y d (rw other at found) same)
]

index-Owned :
    (xs : List Suite) (d : Dict ℕ Suite)
    → Owned (λ (x : Suite). x.id) d
    → Owned (λ (x : Suite). x.id) (index xs d)
index-Owned [] d own = own
index-Owned (x ∷ xs) d own =
    index-Owned xs (insert x.id x d) (Owned-insert (λ (x : Suite). x.id) x d own)

pub index-id : (xs : List Suite) (id : ℕ) (x : Suite) → lookup id (index xs []) ≡ some x → x.id ≡ id
index-id xs id x found = index-Owned xs [] (λ k a h. absurd (cc)) id x found
