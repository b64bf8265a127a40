-- ===== src/Services/Snapshots/Scope.antt =====
-- `_suite_scope_ids`, backend/app/services/test_case_snapshots.py: a suite and everything below it.
use qa_platform_learning.Common.Tests.{
  ℕ, zero, suc, ◌<◌, ◌≤◌, ◌≡◌, refl, sym, ap, ◌∙◌, inl, inr, ◌↔◌, true, false, ◌||◌, Option, none,
  some, List, [], ◌∷◌, ◌++◌, arith, nat_beq, nat_beq_iff, Bool-cases, if◌then◌else◌,
}
use qa_platform_learning.Common.Lists.{all, length, Among}
use qa_platform_learning.Services.Models.Records.{Suite}
use qa_platform_learning.Services.Suites.Operations.{visited_has}
use qa_platform_learning.Services.Snapshots.Operations.{
  has_id, descendants, expand, suite_scope_ids,
}
use mathlib.Core.Path.{subst}

-- The suite `root` and the suites below it.
pub data Descends (suites : List Suite) (root : ℕ) : ℕ → Type 0 where
  itself : Descends suites root root
  below :
      (x : Suite) (p : ℕ)
      → Among x suites
      → x.parent_id ≡ some p
      → Descends suites root p
      → Descends suites root x.id

has-append :
    (xs ys : List ℕ) (i : ℕ) → visited_has (xs ++ ys) i ≡ (visited_has xs i || visited_has ys i)
has-append [] ys i = refl
has-append (x ∷ xs) ys i = ground (arith, has-append xs ys i)

-- What is a descendant in one round.
abbrev Child : List Suite → List ℕ → ℕ → Type 0
Child suites allowed i =
    (x : Suite) × (p : ℕ) × Among x suites
    × (x.parent_id ≡ some p)
    × (visited_has allowed p ≡ true)
    × (x.id ≡ i)

parent_of :
    (o : Option ℕ) (allowed : List ℕ)
    → has_id allowed o ≡ true
    → (p : ℕ) × (o ≡ some p) × (visited_has allowed p ≡ true)
parent_of none allowed h = absurd (cc)
parent_of (some p) allowed h = (p, refl, h)

descendants-Child :
    (suites : List Suite) (allowed : List ℕ) (i : ℕ)
    → visited_has (descendants suites allowed) i ≡ true
    → Child suites allowed i
descendants-Child [] allowed i h = absurd (cc)
descendants-Child (x ∷ xs) allowed i h = elim (Bool-cases (has_id allowed x.parent_id)) [
  | inl known ↦ elim (Bool-cases (nat_beq x.id i)) [
    | inl same ↦
        let (p, at, has) = parent_of x.parent_id allowed known in
        (x, p, inl refl, at, has, (nat_beq_iff x.id i).0 same)
    | inr other ↦ further (descendants-Child xs allowed i (rw other at (rw known at h)))
  ]
  | inr strange ↦ further (descendants-Child xs allowed i (rw strange at h))
]
  where
    further : Child xs allowed i → Child (x ∷ xs) allowed i
    further (y, p, among, at, has, same) = (y, p, inr among, at, has, same)

module _ (suites : List Suite) where
  expand-sound :
      (f root : ℕ) (allowed : List ℕ)
      → ((i : ℕ) → visited_has allowed i ≡ true → Descends suites root i)
      → (i : ℕ) → visited_has (expand f suites allowed) i ≡ true
      → Descends suites root i
  unfolding expand
  expand-sound zero root allowed all_below i h = all_below i h
  expand-sound (suc f) root allowed all_below i h =
      elim (Bool-cases (all (visited_has allowed) (descendants suites allowed))) [
        | inl closed ↦ all_below i (rw closed at h)
        | inr grows ↦
            expand-sound f root (descendants suites allowed ++ allowed) next i (rw grows at h)
      ]
    where
      next :
          (j : ℕ)
          → visited_has (descendants suites allowed ++ allowed) j ≡ true
          → Descends suites root j
      next j g = elim (Bool-cases (visited_has (descendants suites allowed) j)) [
        | inl new ↦
            let (x, p, among, at, has, same) = descendants-Child suites allowed j new in
            subst (Descends suites root) same (below x p among at (all_below p has))
        | inr old ↦ all_below j (rw old at (rw has-append at g))
      ]

  -- It keeps what it starts with.
  expand-keeps :
      (f : ℕ) (allowed : List ℕ) (i : ℕ)
      → visited_has allowed i ≡ true
      → visited_has (expand f suites allowed) i ≡ true
  unfolding expand
  expand-keeps zero allowed i h = h
  expand-keeps (suc f) allowed i h =
      elim (Bool-cases (all (visited_has allowed) (descendants suites allowed))) [
        | inl closed ↦ rw closed h
        | inr grows ↦ rw grows (
            expand-keeps f (descendants suites allowed ++ allowed) i
              (ground (arith, h, has-append (descendants suites allowed) allowed i)))
      ]

-- The suites whose ids are not in a set.
abbrev unseen : List Suite → List ℕ → ℕ
unseen [] allowed = 0
unseen (x ∷ xs) allowed =
    let rest = unseen xs allowed in if visited_has allowed x.id then rest else suc rest

unseen-append :
    (xs : List Suite) (new allowed : List ℕ) → unseen xs (new ++ allowed) ≤ unseen xs allowed
unseen-append [] new allowed = ground arith
unseen-append (x ∷ xs) new allowed =
    ground (arith, unseen-append xs new allowed, has-append new allowed x.id)

-- A round that adds an id leaves fewer suites unseen.
unseen-grows :
    (xs : List Suite) (new allowed : List ℕ)
    → ((i : ℕ) → visited_has (descendants xs allowed) i ≡ true → visited_has new i ≡ true)
    → all (visited_has allowed) (descendants xs allowed) ≡ false
    → unseen xs (new ++ allowed) < unseen xs allowed
unseen-grows [] new allowed sub h = absurd (cc)
unseen-grows (x ∷ xs) new allowed sub h = elim (Bool-cases (has_id allowed x.parent_id)) [
  | inl known ↦ elim (Bool-cases (visited_has allowed x.id)) [
    | inl old ↦ ground (
      arith,
      old,
      has-append new allowed x.id,
      unseen-grows xs new allowed (λ i e. sub i (rw known (ground (arith, e))))
          (rw old at (rw known at h)),
    )
    | inr fresh ↦ ground (
      arith,
      fresh,
      has-append new allowed x.id,
      unseen-append xs new allowed,
      sub x.id (rw known (ground (arith, (nat_beq_iff x.id x.id).1 refl))),
    )
  ]
  | inr strange ↦ ground (
    arith,
    has-append new allowed x.id,
    unseen-grows xs new allowed (λ i e. sub i (rw strange e)) (rw strange at h),
  )
]

unseen-length : (xs : List Suite) (allowed : List ℕ) → unseen xs allowed ≤ length xs
unseen-length [] allowed = ground arith
unseen-length (x ∷ xs) allowed = ground (arith, unseen-length xs allowed)

abbrev Closed : List Suite → List ℕ → Type 0
Closed suites allowed = all (visited_has allowed) (descendants suites allowed) ≡ true

expand-Closed :
    (f : ℕ) (suites : List Suite) (allowed : List ℕ)
    → unseen suites allowed < f
    → Closed suites (expand f suites allowed)
unfolding expand
expand-Closed zero suites allowed room = absurd (ground (arith, room))
expand-Closed (suc f) suites allowed room =
    elim (Bool-cases (all (visited_has allowed) (descendants suites allowed))) [
      | inl closed ↦ rw closed closed
      | inr grows ↦ rw grows (
          expand-Closed f suites (descendants suites allowed ++ allowed) (
            ground (
              arith,
              room,
              unseen-grows suites (descendants suites allowed) allowed (λ i e. e) grows,
            )))
    ]

Closed-child :
    (xs : List Suite) (allowed : List ℕ) (x : Suite) (p : ℕ)
    → Among x xs
    → all (visited_has allowed) (descendants xs allowed) ≡ true
    → x.parent_id ≡ some p
    → visited_has allowed p ≡ true
    → visited_has allowed x.id ≡ true
Closed-child [] allowed x p among closed at has = elim among [ ]
Closed-child (y ∷ ys) allowed x p (inl same) closed at has =
    let known : has_id allowed y.parent_id ≡ true =
      ap (λ (a : Suite). has_id allowed a.parent_id) same ∙ rw at has in
    ap (λ (a : Suite). visited_has allowed a.id) (sym same) ∙ ground (arith, rw known at closed)
Closed-child (y ∷ ys) allowed x p (inr among) closed at has =
    Closed-child ys allowed x p among (ground (arith, closed)) at has

module _ (suites : List Suite) (root : ℕ) where
  only_root : (i : ℕ) → visited_has (root ∷ []) i ≡ true → Descends suites root i
  only_root i h = subst (Descends suites root) ((nat_beq_iff root i).0 (ground (arith, h))) itself

  Closed-has :
      (allowed : List ℕ)
      → Closed suites allowed
      → visited_has allowed root ≡ true
      → (i : ℕ) → Descends suites root i
      → visited_has allowed i ≡ true
  Closed-has allowed closed has i itself = has
  Closed-has allowed closed has i (below x p among at above) =
      Closed-child suites allowed x p among closed at (Closed-has allowed closed has p above)

  -- The scope of a snapshot of a suite with its descendants is exactly the suite itself and every suite from which
  -- the parents lead to it, on any suites, cycles included: the fuel is enough for the loop to reach its fixed
  -- point.
  pub suite_scope_ids-Descends :
      (i : ℕ) → (visited_has (suite_scope_ids root suites true) i ≡ true) ↔ Descends suites root i
  unfolding suite_scope_ids
  suite_scope_ids-Descends i = (
    expand-sound suites (suc (length suites)) root (root ∷ []) only_root i,
    Closed-has (expand (suc (length suites)) suites (root ∷ []))
        (expand-Closed (suc (length suites)) suites (root ∷ [])
          (ground (arith, unseen-length suites (root ∷ []))))
        (expand-keeps suites (suc (length suites)) (root ∷ []) root
          (ground (arith, (nat_beq_iff root root).1 refl)))
        i,
  )
