-- ===== src/Services/Suites/Forest.antt =====
-- The suites of the projects as a forest (backend/app/services/test_suites.py): the invariant, and the
-- writes that keep it.
use qa_platform_learning.Common.Tests.{
  ℕ, zero, suc, ◌≡◌, ◌≢◌, refl, sym, ap, ◌∙◌, ◌⊎◌, inl, inr, false, String, Option, none, some,
  arith, nat_keyed, text_keyed, nat_beq, nat_beq_iff, Bool-cases,
}
use qa_platform_learning.Common.Dict.{Dict, lookup, insert, contains, lookup-insert_self}
use qa_platform_learning.Common.Lookup.{
  found_after, same_value, remove, found_left, left_after, found_insert,
}
use qa_platform_learning.Services.Reads.{Owned, Owned-insert, Owned-remove}
use qa_platform_learning.Services.Models.Records.{Suite}
use qa_platform_learning.Services.Suites.Operations.{same_id}
use mathlib.Core.Path.{subst}

-- From the suite `p` the parents lead to a root in fewer than `n` steps, over stored suites, without the
-- suite `e`.
abbrev pub Climbs : Option ℕ → ℕ → Dict ℕ Suite → Option ℕ → Type 0
Climbs e n d none = Unit
Climbs e zero d (some id) = ⊥
Climbs e (suc n) d (some id) =
    (x : Suite) × (same_id (some id) e ≡ false) × (lookup id d ≡ some x) × Climbs e n d x.parent_id

abbrev pub Rooted : Dict ℕ Suite → Option ℕ → Type 0
Rooted d p = (n : ℕ) × Climbs none n d p

-- A write of the suite `i` does not matter to a climb without it.
pub Climbs-without :
    (i n : ℕ) (x : Suite) (d : Dict ℕ Suite) (p : Option ℕ)
    → Climbs (some i) n d p
    → Climbs none n (insert i x d) p
Climbs-without i n x d none h = tt
Climbs-without i zero x d (some id) h = elim h [ ]
Climbs-without i (suc n) x d (some id) (y, away, found, rest) = (
  y,
  refl,
  found_insert i id x y d (λ e. absurd (cc (sym away ∙ (nat_beq_iff id i).1 (sym e)))) found,
  Climbs-without i n x d y.parent_id rest,
)

pub Climbs-fresh :
    (i n : ℕ) (x : Suite) (d : Dict ℕ Suite) (p : Option ℕ)
    → contains i d ≡ false
    → Climbs none n d p
    → Climbs none n (insert i x d) p
Climbs-fresh i n x d none fresh h = tt
Climbs-fresh i zero x d (some id) fresh h = elim h [ ]
Climbs-fresh i (suc n) x d (some id) fresh (y, _, found, rest) = (
  y,
  refl,
  found_insert i id x y d (λ e. ground (arith, fresh, ap (λ (j : ℕ). lookup j d) e ∙ found)) found,
  Climbs-fresh i n x d y.parent_id fresh rest,
)

-- A new parent of the suite `i` makes a climb through it longer.
pub Rooted-through :
    (i n m : ℕ) (x : Suite) (d : Dict ℕ Suite) (p : Option ℕ)
    → Climbs none m (insert i x d) x.parent_id
    → Climbs none n d p
    → Rooted (insert i x d) p
Rooted-through i n m x d none h c = (n, tt)
Rooted-through i zero m x d (some id) h c = elim c [ ]
Rooted-through i (suc n) m x d (some id) h (y, _, found, rest) = elim (Bool-cases (nat_beq i id)) [
  | inl same ↦ (
    suc m,
    (
      x,
      refl,
      ap (λ (j : ℕ). lookup j (insert i x d)) (sym ((nat_beq_iff i id).0 same))
          ∙ lookup-insert_self i x d,
      h,
    ),
  )
  | inr other ↦
      let (k, c) = Rooted-through i n m x d y.parent_id h rest in
      (
        suc k,
        (
          y,
          refl,
          found_insert i id x y d (λ e. absurd (cc (sym other ∙ (nat_beq_iff i id).1 e))) found,
          c,
        ),
      )
]

-- A write that keeps the parent of the suite `i`.
pub Climbs-kept :
    (i n : ℕ) (x x' : Suite) (d : Dict ℕ Suite) (p : Option ℕ)
    → lookup i d ≡ some x
    → x'.parent_id ≡ x.parent_id
    → Climbs none n d p
    → Climbs none n (insert i x' d) p
Climbs-kept i n x x' d none at same_parent c = tt
Climbs-kept i zero x x' d (some id) at same_parent c = elim c [ ]
Climbs-kept i (suc n) x x' d (some id) at same_parent (y, _, found, rest) =
    let further = Climbs-kept i n x x' d y.parent_id at same_parent rest in
    elim (Bool-cases (nat_beq i id)) [
      | inl same ↦
          let e = (nat_beq_iff i id).0 same in
          (
            x',
            refl,
            ap (λ (j : ℕ). lookup j (insert i x' d)) (sym e) ∙ lookup-insert_self i x' d,
            subst (Climbs none n (insert i x' d))
                (ap (λ (a : Suite). a.parent_id) (sym (same_value i id x y d e at found))
                  ∙ sym same_parent)
                further,
          )
      | inr other ↦ (
        y,
        refl,
        found_insert i id x' y d (λ e. absurd (cc (sym other ∙ (nat_beq_iff i id).1 e))) found,
        further,
      )
    ]

abbrev pub Childless : ℕ → Dict ℕ Suite → Type 0
Childless i d = (k : ℕ) (y : Suite) → lookup k d ≡ some y → y.parent_id ≢ some i

pub Climbs-left :
    (i n : ℕ) (d : Dict ℕ Suite) (p : Option ℕ)
    → Childless i d
    → p ≢ some i
    → Climbs none n d p
    → Climbs none n (remove i d) p
Climbs-left i n d none childless away c = tt
Climbs-left i zero d (some id) childless away c = elim c [ ]
Climbs-left i (suc n) d (some id) childless away (y, _, found, rest) = (
  y,
  refl,
  left_after i id y d (λ e. away (ap some (sym e))) found,
  Climbs-left i n d y.parent_id childless (childless id y found) rest,
)

module _ (casefold : String → String) where
  -- Two suites with the same project, parent and name, whatever the case.
  abbrev pub Alike : Suite → Suite → Type 0
  Alike x y =
      (x.project_id ≡ y.project_id)
      × (x.parent_id ≡ y.parent_id)
      × (casefold x.name ≡ casefold y.name)

  -- Suites stand under their ids; from every suite the parents lead to a root; and no two suites of a project
  -- have the same parent and the same name.
  pub record Forest (d : Dict ℕ Suite) : Type 0 where
    pub own : Owned (λ (x : Suite). x.id) d
    pub rooted : (k : ℕ) (x : Suite) → lookup k d ≡ some x → Rooted d x.parent_id
    pub named :
        (j k : ℕ) (x y : Suite) → lookup j d ≡ some x → lookup k d ≡ some y → Alike x y → j ≡ k

  -- No suite but the one under `i` is like `x`.
  abbrev pub Lone : ℕ → Suite → Dict ℕ Suite → Type 0
  Lone i x d = (k : ℕ) (y : Suite) → lookup k d ≡ some y → i ≢ k → Alike x y → ⊥

  Alike-back : (x y : Suite) → Alike x y → Alike y x
  Alike-back x y (a, b, c) = (sym a, sym b, sym c)

  named-insert :
      (d : Dict ℕ Suite) (f : Forest d) (x : Suite)
      → Lone x.id x d
      → (j k : ℕ) (y z : Suite) → lookup j (insert x.id x d) ≡ some y
      → lookup k (insert x.id x d) ≡ some z
      → Alike y z
      → j ≡ k
  named-insert d f x lone j k y z found other alike = elim (found_after x.id j x y d found) [
    | inl (here, same) ↦ elim (found_after x.id k x z d other) [
      | inl (there, _) ↦ sym here ∙ there
      | inr (apart, before) ↦
          absurd (lone k z before apart (subst (λ (a : Suite). Alike a z) (sym same) alike))
    ]
    | inr (apart, before) ↦ elim (found_after x.id k x z d other) [
      | inl (_, same) ↦ absurd (
          lone j y before apart
            (Alike-back y x (subst (λ (a : Suite). Alike y a) (sym same) alike)))
      | inr (_, behind) ↦ f.named j k y z before behind alike
    ]
  ]

  -- A new suite under a parent that is rooted.
  pub plant :
      (d : Dict ℕ Suite)
      → Forest d
      → (x : Suite) → contains x.id d ≡ false
      → Rooted d x.parent_id
      → Lone x.id x d
      → Forest (insert x.id x d)
  plant d f x fresh (n, c) lone = record {
    own = Owned-insert (λ (x : Suite). x.id) x d f.own;
    rooted = λ k y found. elim (found_after x.id k x y d found) [
      | inl (_, same) ↦
          subst (λ (a : Suite). Rooted (insert x.id x d) a.parent_id) same
            (n, Climbs-fresh x.id n x d x.parent_id fresh c)
      | inr (_, before) ↦
          let (m, b) = f.rooted k y before in (m, Climbs-fresh x.id m x d y.parent_id fresh b)
    ];
    named = named-insert d f x lone;
  }

  -- A write of a stored suite that keeps its parent or moves it under one from which it is not reached.
  pub graft :
      (d : Dict ℕ Suite)
      → Forest d
      → (x x' : Suite) → lookup x'.id d ≡ some x
      → (x'.parent_id ≡ x.parent_id) ⊎ ((n : ℕ) × Climbs (some x'.id) n d x'.parent_id)
      → Lone x'.id x' d
      → Forest (insert x'.id x' d)
  graft d f x x' at move lone = record {
    own = Owned-insert (λ (x : Suite). x.id) x' d f.own;
    rooted = λ k y found. elim (found_after x'.id k x' y d found) [
      | inl (_, same) ↦
          subst (λ (a : Suite). Rooted (insert x'.id x' d) a.parent_id) same (top move)
      | inr (_, before) ↦ let (m, b) = f.rooted k y before in climb_on m y.parent_id move b
    ];
    named = named-insert d f x' lone;
  }
    where
      top :
          (x'.parent_id ≡ x.parent_id) ⊎ ((n : ℕ) × Climbs (some x'.id) n d x'.parent_id)
          → Rooted (insert x'.id x' d) x'.parent_id
      top (inl kept) =
          let (m, b) = f.rooted x'.id x at in
          (
            m,
            Climbs-kept x'.id m x x' d x'.parent_id at kept (subst (Climbs none m d) (sym kept) b),
          )
      top (inr (n, c)) = (n, Climbs-without x'.id n x' d x'.parent_id c)

      climb_on :
          (m : ℕ) (p : Option ℕ)
          → (x'.parent_id ≡ x.parent_id) ⊎ ((n : ℕ) × Climbs (some x'.id) n d x'.parent_id)
          → Climbs none m d p
          → Rooted (insert x'.id x' d) p
      climb_on m p (inl kept) b = (m, Climbs-kept x'.id m x x' d p at kept b)
      climb_on m p (inr (n, c)) b =
          Rooted-through x'.id m n x' d p (Climbs-without x'.id n x' d x'.parent_id c) b

  pub fell : (d : Dict ℕ Suite) → Forest d → (i : ℕ) → Childless i d → Forest (remove i d)
  fell d f i childless = record {
    own = Owned-remove (λ (x : Suite). x.id) i d f.own;
    rooted = λ k x found.
        let before = (found_left i k x d found).1 in
        let (n, c) = f.rooted k x before in
        (n, Climbs-left i n d x.parent_id childless (childless k x before) c);
    named = λ j k x y found other.
        f.named j k x y (found_left i j x d found).1 (found_left i k y d other).1;
  }
