-- ===== src/Services/Reads.antt =====
-- Calls that read the store and do not change it, and what a write leaves in a repository.
use qa_platform_learning.Common.Tests.{
  ℕ, ◌≡◌, refl, sym, ap, ◌∙◌, inl, inr, Bool, true, false, some, List, [], ◌∷◌, arith, nat_keyed,
  nat_beq, Bool-cases,
}
use qa_platform_learning.Common.Lists.{any}
use qa_platform_learning.Common.Dict.{Dict, values, lookup, insert, contains}
use qa_platform_learning.Common.Lookup.{found_after, remove, found_left}
use qa_platform_learning.Common.Result.{Result, ok, err, Action, ◌>>=◌}
use qa_platform_learning.Common.Holds.{
  Holds, Then, bind-any, bind-gets, bind-raise_if, Holds-modify,
}
use qa_platform_learning.Services.Errors.{ServiceError}
use qa_platform_learning.Services.Repository.{Repository, put, update_item, values_but, no_clash}
use mathlib.Core.Path.{subst}

any-never : {A : Type 0} (xs : List A) → any (λ (_ : A). false) xs ≡ false
any-never [] = refl
any-never (x ∷ xs) = any-never xs

module _ {S : Type 0} where
  -- It ends in the state it starts in.
  abbrev pub Still : S → {A : Type 0} → Result ServiceError A → S → Type 0
  Still s r t = t ≡ s

  module _ {A B : Type 0} {Post : Result ServiceError B → S → Type 0} where
    reads_case :
        (m : Action S ServiceError A) (f : A → Action S ServiceError B) (s : S)
        (r : Result ServiceError A)
        → m s ≡ (r, s)
        → ((e : ServiceError) → Post (err e) s)
        → ((a : A) → m s ≡ (ok a, s) → Holds Post (f a) s)
        → Then Post f r s
    reads_case m f s (ok a) h bad good = good a h
    reads_case m f s (err e) h bad good = bad e

    -- A call that only reads, before the rest of a block.
    pub reads-Then :
        (m : Action S ServiceError A) (f : A → Action S ServiceError B) (s : S)
        → Holds (Still s) m s
        → ((e : ServiceError) → Post (err e) s)
        → ((a : A) → m s ≡ (ok a, s) → Holds Post (f a) s)
        → Holds (Then Post f) m s
    reads-Then m f s h bad good =
        let e : m s ≡ ((m s).0, s) = ap (λ t. ((m s).0, t)) h.at in
        record {
          at =
              subst (λ (o : Result ServiceError A × S). Then Post f o.0 o.1) (sym e)
                (reads_case m f s (m s).0 e bad good);
        }

    pub bind-reads :
        (m : Action S ServiceError A) (f : A → Action S ServiceError B) (s : S)
        → Holds (Still s) m s
        → ((e : ServiceError) → Post (err e) s)
        → ((a : A) → m s ≡ (ok a, s) → Holds Post (f a) s)
        → Holds Post (m >>= f) s
    bind-reads m f s h bad good = bind-any m f s (reads-Then m f s h bad good)

  module _ {A B : Type 0} (r : Repository S A) {Post : Result ServiceError B → S → Type 0} where
    -- An update of an item that is there writes it.
    pub bind-update_there :
        (a : A) (f : Unit {0} → Action S ServiceError B) (s : S)
        → contains (r.id_of a) (r.items s) ≡ true
        → Holds Post (f tt) (put r a s)
        → Holds Post (update_item r no_clash a >>= f) s
    unfolding update_item
    bind-update_there a f s there h = bind-any _ f s (
        bind-gets _ _ s (
          bind-raise_if _ _ _ s (λ gone. absurd (ground (arith, gone, there)))
            λ _. bind-gets _ _ s (
              bind-raise_if _ _ _ s
                (λ clash. absurd (cc (sym clash ∙ any-never (values_but (r.id_of a) (r.items s)))))
                λ _. Holds-modify _ s h)))

module _ {A : Type 0} (id_of : A → ℕ) where
  -- Every item stands under its own id.
  abbrev pub Owned : Dict ℕ A → Type 0
  Owned d = (k : ℕ) (a : A) → lookup k d ≡ some a → id_of a ≡ k

  pub Owned-insert : (a : A) (d : Dict ℕ A) → Owned d → Owned (insert (id_of a) a d)
  Owned-insert a d own k b found = elim (found_after (id_of a) k a b d found) [
    | inl (here, same) ↦ sym (ap id_of same) ∙ here
    | inr (other, before) ↦ own k b before
  ]

  pub Owned-remove : (i : ℕ) (d : Dict ℕ A) → Owned d → Owned (remove i d)
  Owned-remove i d own k a found = own k a (found_left i k a d found).1

-- What no value of a dictionary has, no value found in it has.
pub any-lookup :
    {A : Type 0} (f : A → Bool) (k : ℕ) (a : A) (d : Dict ℕ A)
    → any f (values d) ≡ false
    → lookup k d ≡ some a
    → f a ≡ false
any-lookup f k a [] h found = absurd (cc)
any-lookup f k a ((j, b) ∷ d) h found = elim (Bool-cases (nat_beq j k)) [
  | inl same ↦ ground (arith, found, same, h)
  | inr other ↦ any-lookup f k a d (ground (arith, h)) (rw other at found)
]
