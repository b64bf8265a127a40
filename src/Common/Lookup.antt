-- ===== src/Common/Lookup.antt =====
-- What is found in a dictionary over numbers after a write or a removal.
use qa_platform_learning.Common.Tests.{
  ℕ, ◌<◌, ◌≤◌, true, ◌≡◌, refl, sym, ap, ◌∙◌, ◌≢◌, ◌⊎◌, inl, inr, none, some, [], ◌∷◌, arith,
  nat_keyed, nat_beq, nat_beq_iff, if◌then◌else◌, Bool-cases,
}
use qa_platform_learning.Common.Lists.{length}
use qa_platform_learning.Common.Dict.{Dict, lookup, insert, contains, lookup-insert}
use mathlib.Core.Option.{some-injective}

-- What is found in a dictionary after a write: the new value, or what was there.
pub found_after :
    {V : Type 0} (k j : ℕ) (v w : V) (d : Dict ℕ V)
    → lookup j (insert k v d) ≡ some w
    → ((k ≡ j) × (v ≡ w)) ⊎ ((k ≢ j) × (lookup j d ≡ some w))
found_after k j v w d h = elim (Bool-cases (nat_beq k j)) [
  | inl same ↦
      inl ((nat_beq_iff k j).0 same, some-injective _ _ (rw same at (rw lookup-insert at h)))
  | inr other ↦
      inr (λ e. cc (sym other ∙ (nat_beq_iff k j).1 e), rw other at (rw lookup-insert at h))
]

-- What is found stays found after a write.
pub present_after :
    {V : Type 0} (k j : ℕ) (v : V) (d : Dict ℕ V)
    → (w : V) × (lookup j d ≡ some w)
    → (w : V) × (lookup j (insert k v d) ≡ some w)
present_after k j v d (w, h) = elim (Bool-cases (nat_beq k j)) [
  | inl same ↦ (v, rw (lookup-insert k j v d) (rw same refl))
  | inr other ↦ (w, rw (lookup-insert k j v d) (rw other h))
]

pub same_value :
    {V : Type 0} (k j : ℕ) (v w : V) (d : Dict ℕ V)
    → k ≡ j
    → lookup k d ≡ some v
    → lookup j d ≡ some w
    → v ≡ w
same_value k j v w d e h g = some-injective _ _ (sym h ∙ ap (λ (i : ℕ). lookup i d) e ∙ g)

-- `d.pop(k, None)`
abbrev pub remove : {V : Type 0} → ℕ → Dict ℕ V → Dict ℕ V
remove k [] = []
remove k ((j, v) ∷ d) = let rest = remove k d in if nat_beq j k then rest else (j, v) ∷ rest

pub lookup-remove :
    {V : Type 0} (k j : ℕ) (d : Dict ℕ V)
    → lookup j (remove k d) ≡ (if nat_beq k j then none else lookup j d)
lookup-remove k j [] = ground arith
lookup-remove k j ((i, v) ∷ d) = ground (arith, lookup-remove k j d)

-- What is found after a removal was there before, under another key.
pub found_left :
    {V : Type 0} (k j : ℕ) (w : V) (d : Dict ℕ V)
    → lookup j (remove k d) ≡ some w
    → (k ≢ j) × (lookup j d ≡ some w)
found_left k j w d h = elim (Bool-cases (nat_beq k j)) [
  | inl same ↦ absurd (cc (rw same at (rw lookup-remove at h)))
  | inr other ↦ (λ e. cc (sym other ∙ (nat_beq_iff k j).1 e), rw other at (rw lookup-remove at h))
]

pub left_after :
    {V : Type 0} (k j : ℕ) (w : V) (d : Dict ℕ V)
    → k ≢ j
    → lookup j d ≡ some w
    → lookup j (remove k d) ≡ some w
left_after k j w d ne h = elim (Bool-cases (nat_beq k j)) [
  | inl same ↦ absurd (ne ((nat_beq_iff k j).0 same))
  | inr other ↦ rw (lookup-remove k j d) (rw other h)
]

pub found_insert :
    {V : Type 0} (k j : ℕ) (v w : V) (d : Dict ℕ V)
    → k ≢ j
    → lookup j d ≡ some w
    → lookup j (insert k v d) ≡ some w
found_insert k j v w d ne h = elim (Bool-cases (nat_beq k j)) [
  | inl same ↦ absurd (ne ((nat_beq_iff k j).0 same))
  | inr other ↦ rw (lookup-insert k j v d) (rw other h)
]

-- A write of what is there changes nothing.
pub insert-same :
    {V : Type 0} (k : ℕ) (v : V) (d : Dict ℕ V) → lookup k d ≡ some v → insert k v d ≡ d
insert-same k v [] h = absurd (cc)
insert-same k v ((j, w) ∷ d) h = elim (Bool-cases (nat_beq j k)) [
  | inl same ↦ rw same (ap (λ u. (j, u) ∷ d) (sym (some-injective _ _ (rw same at h))))
  | inr other ↦ rw other (ap (λ e. (j, w) ∷ e) (insert-same k v d (rw other at h)))
]

pub length-remove : {V : Type 0} (k : ℕ) (d : Dict ℕ V) → length (remove k d) ≤ length d
length-remove k [] = ground arith
length-remove k ((j, v) ∷ d) = ground (arith, length-remove k d)

-- A removal of what is there makes a dictionary shorter.
pub length-remove_there :
    {V : Type 0} (k : ℕ) (d : Dict ℕ V) → contains k d ≡ true → length (remove k d) < length d
length-remove_there k [] h = absurd (cc)
length-remove_there k ((j, v) ∷ d) h = elim (Bool-cases (nat_beq j k)) [
  | inl same ↦ rw same (ground (arith, length-remove k d))
  | inr other ↦ rw other (ground (arith, length-remove_there k d (rw other at h)))
]
