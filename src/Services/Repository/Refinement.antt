-- ===== src/Services/Repository/Refinement.antt =====
-- The repository of backend/app/repositories/memory.py against a map from ids to items.
use qa_platform_learning.Common.Tests.{
  ℕ, ◌≡◌, ◌≢◌, refl, sym, ap, ◌∙◌, ◌⊎◌, inl, inr, Bool, true, false, Option, none, some, [], ◌∷◌,
  arith, nat_keyed, nat_beq, nat_beq_iff, Bool-cases, if◌then◌else◌, is_some, true_of_not,
}
use qa_platform_learning.Common.Lists.{any}
use qa_platform_learning.Common.Dict.{
  Dict, values, lookup, insert, lookup-insert, Distinct, Distinct-insert,
}
use qa_platform_learning.Common.Lookup.{remove, lookup-remove, found_left, left_after}
use qa_platform_learning.Common.Result.{Result, ok, err}
use qa_platform_learning.Common.Holds.{Holds, Holds-modify, bind-gets, bind-raise_if}
use qa_platform_learning.Services.Errors.{ServiceError, missing, conflict}
use qa_platform_learning.Services.Repository.{
  Repository, values_but, put, create_item, update_item, delete_item,
}
use qa_platform_learning.Services.Reads.{any-lookup}
use mathlib.Core.Path.{subst}

module _ {A : Type 0} where
  pub Distinct-remove : (i : ℕ) (d : Dict ℕ A) → Distinct d → Distinct (remove i d)
  Distinct-remove i [] h = tt
  Distinct-remove i ((j, a) ∷ d) h = elim (Bool-cases (nat_beq j i)) [
    | inl same ↦ rw same (Distinct-remove i d h.1)
    | inr other ↦ rw other (ground (arith, lookup-remove i j d, h), Distinct-remove i d h.1)
  ]

  values_but-remove : (i : ℕ) (d : Dict ℕ A) → values_but i d ≡ values (remove i d)
  values_but-remove i [] = refl
  values_but-remove i ((j, a) ∷ d) = elim (Bool-cases (nat_beq j i)) [
    | inl same ↦ rw same (values_but-remove i d)
    | inr other ↦ rw other (ap (λ bs. a ∷ bs) (values_but-remove i d))
  ]

  any-found :
      (f : A → Bool) (d : Dict ℕ A)
      → Distinct d
      → any f (values d) ≡ true
      → (k : ℕ) × (b : A) × (lookup k d ≡ some b) × (f b ≡ true)
  any-found f [] h some_has = absurd (cc)
  any-found f ((j, a) ∷ d) h some_has = elim (Bool-cases (f a)) [
    | inl has ↦ (j, a, rw ((nat_beq_iff j j).1 refl) refl, has)
    | inr lacks ↦
        let (k, b, found, has) = any-found f d h.1 (rw lacks at some_has) in
        (
          k,
          b,
          elim (Bool-cases (nat_beq j k)) [
            | inl same ↦
                absurd
                  (cc (sym (h.0) ∙ ap (λ (i : ℕ). lookup i d) ((nat_beq_iff j k).0 same) ∙ found))
            | inr other ↦ rw other found
          ],
          has,
        )
  ]

module _ {S A : Type 0} (r : Repository S A) where
  -- What a repository must be: what is kept is what is read.
  abbrev pub IsLens : Type 0
  IsLens = (d : Dict ℕ A) (s : S) → r.items (r.keep d s) ≡ d

  -- The map that a repository stands for.
  abbrev pub map_of : S → ℕ → Option A
  map_of s k = lookup k (r.items s)

  -- Another item than the one under `i` has a unique field of `a`.
  abbrev pub Clash : (A → A → Bool) → A → ℕ → S → Type 0
  Clash clash a i s = (k : ℕ) × (b : A) × (map_of s k ≡ some b) × (i ≢ k) × (clash a b ≡ true)

  abbrev pub NoClash : (A → A → Bool) → A → ℕ → S → Type 0
  NoClash clash a i s = (k : ℕ) (b : A) → map_of s k ≡ some b → i ≢ k → clash a b ≡ false

  -- The item `a` is in the map under its id, and nothing else has changed.
  abbrev pub Set : A → S → S → Type 0
  Set a s s' =
      Distinct (r.items s')
      × ((k : ℕ) → map_of s' k ≡ (if nat_beq (r.id_of a) k then some a else map_of s k))

  abbrev pub Creates : (A → A → Bool) → A → S → Result ServiceError (Unit {0}) → S → Type 0
  Creates clash a s (ok _) s' =
      (map_of s (r.id_of a) ≡ none) × NoClash clash a (r.id_of a) s × Set a s s'
  Creates clash a s (err e) s' =
      (s' ≡ s)
      × (e ≡ conflict)
      × (((b : A) × (map_of s (r.id_of a) ≡ some b)) ⊎ Clash clash a (r.id_of a) s)

  abbrev pub Updates : (A → A → Bool) → A → S → Result ServiceError (Unit {0}) → S → Type 0
  Updates clash a s (ok _) s' =
      ((b : A) × (map_of s (r.id_of a) ≡ some b)) × NoClash clash a (r.id_of a) s × Set a s s'
  Updates clash a s (err e) s' =
      (s' ≡ s)
      × (((e ≡ missing) × (map_of s (r.id_of a) ≡ none))
          ⊎ ((e ≡ conflict) × Clash clash a (r.id_of a) s))

  abbrev pub Deletes : ℕ → S → Result ServiceError (Unit {0}) → S → Type 0
  Deletes i s (ok _) s' =
      Distinct (r.items s') × ((k : ℕ) → map_of s' k ≡ (if nat_beq i k then none else map_of s k))
  Deletes i s (err e) s' = ⊥

  module _ (lens : IsLens) where
    put-Set : (a : A) (s : S) → Distinct (r.items s) → Set a s (put r a s)
    put-Set a s h =
        subst
          (λ (d : Dict ℕ A).
            Distinct d
            × ((k : ℕ) → lookup k d ≡ (if nat_beq (r.id_of a) k then some a else map_of s k)))
          (sym (lens (insert (r.id_of a) a (r.items s)) s))
          (
            Distinct-insert (r.id_of a) a (r.items s) h,
            λ k. lookup-insert (r.id_of a) k a (r.items s),
          )

    absent : (o : Option A) → is_some o ≡ false → o ≡ none
    absent none h = refl
    absent (some a) h = absurd (cc)

    present : (o : Option A) → is_some o ≡ true → (a : A) × (o ≡ some a)
    present none h = absurd (cc)
    present (some a) h = (a, refl)

    apart_from : (i k : ℕ) (b : A) (s : S) → map_of s i ≡ none → map_of s k ≡ some b → i ≢ k
    apart_from i k b s gone found e = absurd (cc (sym gone ∙ ap (map_of s) e ∙ found))

    create-Creates :
        (clash : A → A → Bool) (a : A) (s : S)
        → Distinct (r.items s)
        → Holds (Creates clash a s) (create_item r clash a) s
    unfolding create_item
    create-Creates clash a s h = bind-gets _ _ s (
        bind-raise_if _ _ _ s (λ known. (refl, refl, inl (present (map_of s (r.id_of a)) known)))
          λ fresh.
            let gone = absent (map_of s (r.id_of a)) fresh in
            bind-gets _ _ s (
              bind-raise_if _ _ _ s
                (λ twice.
                  let (k, b, found, same) = any-found (clash a) (r.items s) h twice in
                  (refl, refl, inr (k, b, found, apart_from (r.id_of a) k b s gone found, same)))
                λ unique. Holds-modify _ s (
                  gone,
                  (λ k b found _. any-lookup (clash a) k b (r.items s) unique found),
                  put-Set a s h,
                )))

    update-Updates :
        (clash : A → A → Bool) (a : A) (s : S)
        → Distinct (r.items s)
        → Holds (Updates clash a s) (update_item r clash a) s
    unfolding update_item
    update-Updates clash a s h = bind-gets _ _ s (
        bind-raise_if _ _ _ s
          (λ gone. (refl, inl (refl, absent (map_of s (r.id_of a)) (ground (arith, gone)))))
          λ known. bind-gets _ _ s (
            bind-raise_if _ _ _ s
              (λ twice.
                let (k, b, found, same) =
                  any-found (clash a) (remove (r.id_of a) (r.items s))
                    (Distinct-remove (r.id_of a) (r.items s) h)
                    (ap (any (clash a)) (sym (values_but-remove (r.id_of a) (r.items s)))
                      ∙ twice) in
                let (apart, before) = found_left (r.id_of a) k b (r.items s) found in
                (refl, inr (refl, (k, b, before, apart, same))))
              λ unique. Holds-modify _ s (
                present (map_of s (r.id_of a)) (true_of_not _ known),
                (λ k b found apart.
                    any-lookup (clash a) k b (remove (r.id_of a) (r.items s))
                      (ap (any (clash a)) (sym (values_but-remove (r.id_of a) (r.items s)))
                        ∙ unique)
                      (left_after (r.id_of a) k b (r.items s) apart found)),
                put-Set a s h,
              )))

    delete-Deletes :
        (i : ℕ) (s : S) → Distinct (r.items s) → Holds (Deletes i s) (delete_item r i) s
    unfolding delete_item
    delete-Deletes i s h = Holds-modify _ s (
        subst
          (λ (d : Dict ℕ A).
            Distinct d × ((k : ℕ) → lookup k d ≡ (if nat_beq i k then none else map_of s k)))
          (sym (lens (remove i (r.items s)) s))
          (Distinct-remove i (r.items s) h, λ k. lookup-remove i k (r.items s)))

    -- A repository whose ids are distinct implements a map from ids to items. A creation raises a conflict and
    -- changes nothing if the id is taken or another item has a unique field of the new one; otherwise it sets
    -- the item under its id and changes nothing else. An update raises a miss if the id is not there, a conflict
    -- if another item has a unique field of the new one, and otherwise sets the item. A deletion removes what is
    -- under the id, if anything, and nothing else. All three keep the ids distinct.
    pub calls-refine :
        (clash : A → A → Bool) (a : A) (i : ℕ) (s : S)
        → Distinct (r.items s)
        → Creates clash a s (create_item r clash a s).0 (create_item r clash a s).1
          × Updates clash a s (update_item r clash a s).0 (update_item r clash a s).1
          × Deletes i s (delete_item r i s).0 (delete_item r i s).1
    calls-refine clash a i s h = (
      (create-Creates clash a s h).at,
      (update-Updates clash a s h).at,
      (delete-Deletes i s h).at,
    )
