-- ===== src/Services/Suites/Walk.antt =====
-- The walk of `_validate_parent`, backend/app/services/test_suites.py, from a suite to its root.
use qa_platform_learning.Common.Tests.{
  ℕ, zero, suc, ◌+◌, ◌<◌, ◌≤◌, ◌≡◌, refl, sym, ◌∙◌, ◌⊎◌, inl, inr, true, false, ◌||◌, Option, none,
  some, List, [], ◌∷◌, arith, nat_keyed, nat_beq, Bool-cases, ◌==◌,
}
use qa_platform_learning.Common.Lists.{length}
use qa_platform_learning.Common.Dict.{Dict, lookup, contains}
use qa_platform_learning.Common.Lookup.{remove, lookup-remove, length-remove_there}
use qa_platform_learning.Common.Result.{Result, ok, err}
use qa_platform_learning.Services.Errors.{ServiceError, missing, conflict, invalid_state}
use qa_platform_learning.Services.Models.Status.{SuiteStatus, suite_status_keyed}
use qa_platform_learning.Services.Models.Records.{Suite}
use qa_platform_learning.Services.Suites.Operations.{same_id, visited_has, walk_up}
use qa_platform_learning.Services.Suites.Forest.{Climbs}
use mathlib.Core.Path.{subst}

-- The loop of `_validate_parent` without fuel: from `p`, with these suites visited, it returns or raises `r`. A
-- loop that does not end has no derivation.
pub data Walks (d : Dict ℕ Suite) (project_id : ℕ) (e : Option ℕ)
    : List ℕ → Option ℕ → Result ServiceError Unit → Type 0 where
  root : {visited : List ℕ} → Walks d project_id e visited none (ok tt)
  met :
      {visited : List ℕ} {id : ℕ}
      → (visited_has visited id || same_id (some id) e) ≡ true
      → Walks d project_id e visited (some id) (err conflict)
  unknown :
      {visited : List ℕ} {id : ℕ}
      → (visited_has visited id || same_id (some id) e) ≡ false
      → lookup id d ≡ none
      → Walks d project_id e visited (some id) (err missing)
  foreign :
      {visited : List ℕ} {id : ℕ} {x : Suite}
      → (visited_has visited id || same_id (some id) e) ≡ false
      → lookup id d ≡ some x
      → nat_beq x.project_id project_id ≡ false
      → Walks d project_id e visited (some id) (err conflict)
  archived :
      {visited : List ℕ} {id : ℕ} {x : Suite}
      → (visited_has visited id || same_id (some id) e) ≡ false
      → lookup id d ≡ some x
      → nat_beq x.project_id project_id ≡ true
      → (x.status == SuiteStatus.active) ≡ false
      → Walks d project_id e visited (some id) (err invalid_state)
  onwards :
      {visited : List ℕ} {id : ℕ} {x : Suite} {r : Result ServiceError Unit}
      → (visited_has visited id || same_id (some id) e) ≡ false
      → lookup id d ≡ some x
      → nat_beq x.project_id project_id ≡ true
      → (x.status == SuiteStatus.active) ≡ true
      → Walks d project_id e (id ∷ visited) x.parent_id r
      → Walks d project_id e visited (some id) r

-- A round of the walk stops with an error, or goes on from a stored suite that was not visited.
abbrev pub Round : Dict ℕ Suite → ℕ → Option ℕ → List ℕ → ℕ → Type 0
unfolding walk_up
Round d project_id e visited id =
    ((r : ServiceError) × Walks d project_id e visited (some id) (err r)
      × ((f : ℕ) → walk_up (suc f) d project_id e visited (some id) ≡ err r))
    ⊎ ((x : Suite) × ((visited_has visited id || same_id (some id) e) ≡ false)
        × (lookup id d ≡ some x)
        × (nat_beq x.project_id project_id ≡ true)
        × ((x.status == SuiteStatus.active) ≡ true)
        × ((f : ℕ)
            → walk_up (suc f) d project_id e visited (some id)
              ≡ walk_up f d project_id e (id ∷ visited) x.parent_id))

module _ (d : Dict ℕ Suite) (project_id : ℕ) (e : Option ℕ) where
  found-Round :
      (visited : List ℕ) (id : ℕ) (o : Option Suite)
      → (visited_has visited id || same_id (some id) e) ≡ false
      → lookup id d ≡ o
      → Round d project_id e visited id
  unfolding walk_up
  found-Round visited id none away at =
      inl (missing, unknown away at, λ f. rw (walk_up, away, at) refl)
  found-Round visited id (some x) away at = elim (Bool-cases (nat_beq x.project_id project_id)) [
    | inr other ↦ inl (conflict, foreign away at other, λ f. rw (walk_up, away, at, other) refl)
    | inl own ↦ elim (Bool-cases (x.status == SuiteStatus.active)) [
      | inr over ↦
          inl
            (invalid_state, archived away at own over, λ f. rw (walk_up, away, at, own, over) refl)
      | inl runs ↦ inr (x, away, at, own, runs, λ f. rw (walk_up, away, at, own, runs) refl)
    ]
  ]

  pub rounds : (visited : List ℕ) (id : ℕ) → Round d project_id e visited id
  unfolding walk_up
  rounds visited id = elim (Bool-cases (visited_has visited id || same_id (some id) e)) [
    | inl stops ↦ inl (conflict, met stops, λ f. rw (walk_up, stops) refl)
    | inr away ↦ found-Round visited id (lookup id d) away refl
  ]

  -- A walk that ends well ends at a root, over stored suites and without the suite `e`.
  pub walk_up-Climbs :
      (f : ℕ) (visited : List ℕ) (p : Option ℕ)
      → walk_up f d project_id e visited p ≡ ok tt
      → Climbs e f d p
  unfolding walk_up
  walk_up-Climbs f visited none h = tt
  walk_up-Climbs zero visited (some id) h = absurd (cc (h))
  walk_up-Climbs (suc f) visited (some id) h = elim (rounds visited id) [
    | inl (r, ends, stop) ↦ absurd (cc (sym (stop f) ∙ h))
    | inr (x, away, at, own, runs, go) ↦
        (x, ground (arith, away), at, walk_up-Climbs f (id ∷ visited) x.parent_id (sym (go f) ∙ h))
  ]

-- The suites that a walk has visited: stored ones, none twice.
abbrev pub Seen : Dict ℕ Suite → List ℕ → Type 0
Seen d [] = Unit
Seen d (v ∷ vs) = (visited_has vs v ≡ false) × (contains v d ≡ true) × Seen d vs

Seen-remove :
    (d : Dict ℕ Suite) (v : ℕ) (vs : List ℕ)
    → visited_has vs v ≡ false
    → Seen d vs
    → Seen (remove v d) vs
Seen-remove d v [] away seen = tt
Seen-remove d v (w ∷ vs) away seen = (
  seen.0,
  ground (arith, away, seen, lookup-remove v w d),
  Seen-remove d v vs (ground (arith, away)) seen.2,
)

-- A walk has visited no more suites than there are.
Seen-length : (vs : List ℕ) (d : Dict ℕ Suite) → Seen d vs → length vs ≤ length d
Seen-length [] d seen = ground arith
Seen-length (v ∷ vs) d seen = ground (
  arith,
  Seen-length vs (remove v d) (Seen-remove d v vs seen.0 seen.2),
  length-remove_there v d seen.1,
)

module _ (d : Dict ℕ Suite) (project_id : ℕ) (e : Option ℕ) where
  enough_fuel :
      (f : ℕ) (visited : List ℕ) (p : Option ℕ)
      → Seen d visited
      → length d < f + length visited
      → Walks d project_id e visited p (walk_up f d project_id e visited p)
  unfolding walk_up
  enough_fuel f visited none seen room = root
  enough_fuel zero visited (some id) seen room =
      absurd (ground (arith, room, Seen-length visited d seen))
  enough_fuel (suc f) visited (some id) seen room = elim (rounds d project_id e visited id) [
    | inl (r, ends, stop) ↦ subst (Walks d project_id e visited (some id)) (sym (stop f)) ends
    | inr (x, away, at, own, runs, go) ↦
        subst (Walks d project_id e visited (some id)) (sym (go f)) (
          onwards away at own runs (
            enough_fuel f (id ∷ visited) x.parent_id (ground (arith, away), rw at refl, seen)
              (ground (arith, room))))
  ]

  -- The walk of `_validate_parent` ends on any stored suites, cycles included, for every fuel above
  -- the number of suites: its result is one with which the loop without fuel ends from the same
  -- parent, so the fuel does not run out before the loop has returned or raised.
  pub walk_up-ends :
      (fuel : ℕ) (p : Option ℕ)
      → suc (length d) ≤ fuel
      → Walks d project_id e [] p (walk_up fuel d project_id e [] p)
  walk_up-ends fuel p enough = enough_fuel fuel [] p tt (ground arith)
