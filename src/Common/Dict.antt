-- ===== src/Common/Dict.antt =====
-- A Python dict: an association list in insertion order, over any keys with an equality test.
use qa_platform_learning.Common.Tests.{
  ◌≡◌, refl, sym, ap, ◌∙◌, ◌≢◌, inl, inr, Bool, false, Option, none, some, List, [], ◌∷◌, arith,
  if◌then◌else◌, is_some, Keyed, ◌==◌, agree_refl, Bool-cases,
}
use qa_platform_learning.Common.Lists.{All}
use mathlib.Core.Path.{subst, subst₂}
use mathlib.Core.Option.{some-injective}

abbrev pub Dict {ℓ κ} : Type ℓ → Type κ → Type (ℓ ⊔ κ)
Dict K V = List (K × V)

module _ {ℓ κ} {K : Type ℓ} {V : Type κ} where
  abbrev pub values : Dict K V → List V
  values [] = []
  values ((_, v) ∷ d) = v ∷ values d

  -- A relation between the key and the value of every entry.
  abbrev pub Every {μ} : (K → V → Type μ) → Dict K V → Type μ
  Every R [] = Unit
  Every R ((k, v) ∷ d) = R k v × Every R d

module _ {ℓ κ} {K : Type ℓ} {V : Type κ} ⦃e : Keyed K⦄ where
  abbrev pub lookup : K → Dict K V → Option V
  lookup k [] = none
  lookup k ((j, v) ∷ d) = let rest = lookup k d in if j == k then some v else rest

  -- `k in d`
  abbrev pub contains : K → Dict K V → Bool
  contains k d = is_some (lookup k d)

  -- `d[k] = v`
  abbrev pub insert : K → V → Dict K V → Dict K V
  insert k v [] = (k, v) ∷ []
  insert k v ((j, w) ∷ d) = let rest = insert k v d in if j == k then (j, v) ∷ d else (j, w) ∷ rest

  pub lookup-insert :
      (k j : K) (v : V) (d : Dict K V)
      → lookup j (insert k v d) ≡ (if k == j then some v else lookup j d)
  lookup-insert k j v [] = ground arith
  lookup-insert k j v ((i, w) ∷ d) =
      ground (arith, lookup-insert k j v d, e.agree_iff i k, e.agree_iff i j, e.agree_iff k j)

  pub lookup-insert_self : (k : K) (v : V) (d : Dict K V) → lookup k (insert k v d) ≡ some v
  lookup-insert_self k v d = ground (arith, lookup-insert k k v d, agree_refl k)

  pub lookup-insert_ne :
      (k j : K) (v : V) (d : Dict K V) → k ≢ j → lookup j (insert k v d) ≡ lookup j d
  lookup-insert_ne k j v d h = ground (arith, lookup-insert k j v d, e.agree_iff k j)

  pub Every-lookup {μ} :
      (R : K → V → Type μ) (k : K) (v : V) (d : Dict K V) → Every R d → lookup k d ≡ some v → R k v
  Every-lookup R k v [] h found = absurd (cc)
  Every-lookup R k v ((j, w) ∷ d) h found = elim (Bool-cases (j == k)) [
    | inl same ↦ subst₂ R ((e.agree_iff j k).0 same) (some-injective _ _ (rw same at found)) h.0
    | inr other ↦ Every-lookup R k v d h.1 (rw other at found)
  ]

  pub Every-insert {μ} :
      (R : K → V → Type μ) (k : K) (v : V) (d : Dict K V)
      → Every R d
      → R k v
      → Every R (insert k v d)
  Every-insert R k v [] h r = (r, tt)
  Every-insert R k v ((j, w) ∷ d) h r = elim (Bool-cases (j == k)) [
    | inl same ↦ rw same (subst (λ i. R i v) (sym ((e.agree_iff j k).0 same)) r, h.1)
    | inr other ↦ rw other (h.0, Every-insert R k v d h.1 r)
  ]

pub Every-values {ℓ κ μ ν} :
    {K : Type ℓ} {V : Type κ} (R : K → V → Type μ) (Q : V → Type ν)
    → ((k : K) (v : V) → R k v → Q v)
    → (d : Dict K V) → Every R d
    → All Q (values d)
Every-values R Q f [] h = tt
Every-values R Q f ((k, v) ∷ d) h = (f k v h.0, Every-values R Q f d h.1)

pub Every-map {ℓ κ μ ν} :
    {K : Type ℓ} {V : Type κ} (R : K → V → Type μ) (S : K → V → Type ν)
    → ((k : K) (v : V) → R k v → S k v)
    → (d : Dict K V) → Every R d
    → Every S d
Every-map R S f [] h = tt
Every-map R S f ((k, v) ∷ d) h = (f k v h.0, Every-map R S f d h.1)

pub Every-both {ℓ κ μ ν} :
    {K : Type ℓ} {V : Type κ} (R : K → V → Type μ) (S : K → V → Type ν) (d : Dict K V)
    → Every R d
    → Every S d
    → Every (λ k v. R k v × S k v) d
Every-both R S [] h g = tt
Every-both R S ((k, v) ∷ d) h g = ((h.0, g.0), Every-both R S d h.1 g.1)

module _ {ℓ κ} {K : Type ℓ} {V : Type κ} ⦃e : Keyed K⦄ where
  -- No key stands twice.
  abbrev pub Distinct : Dict K V → Type κ
  Distinct [] = Unit
  Distinct ((k, v) ∷ d) = (lookup k d ≡ none) × Distinct d

  pub Distinct-insert : (k : K) (v : V) (d : Dict K V) → Distinct d → Distinct (insert k v d)
  Distinct-insert k v [] h = (refl, tt)
  Distinct-insert k v ((j, w) ∷ d) h = elim (Bool-cases (j == k)) [
    | inl same ↦ rw same (h.0, h.1)
    | inr other ↦ rw other (elsewhere other, Distinct-insert k v d h.1)
  ]
    where
      elsewhere : (j == k) ≡ false → lookup j (insert k v d) ≡ none
      elsewhere other = ground (arith, lookup-insert k j v d, e.agree_iff k j, e.agree_iff j k)

  -- Every entry of such a dictionary is the one found under its key.
  pub Distinct-lookup : (d : Dict K V) → Distinct d → Every (λ k v. lookup k d ≡ some v) d
  Distinct-lookup [] h = tt
  Distinct-lookup ((k, v) ∷ d) h =
      (ground (arith, agree_refl k), Every-map _ _ further d (Distinct-lookup d h.1))
    where
      further : (j : K) (w : V) → lookup j d ≡ some w → lookup j ((k, v) ∷ d) ≡ some w
      further j w found = elim (Bool-cases (k == j)) [
        | inl same ↦
            absurd (cc (sym (h.0) ∙ ap (λ i. lookup i d) ((e.agree_iff k j).0 same) ∙ found))
        | inr other ↦ rw other found
      ]
