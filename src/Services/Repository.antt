-- ===== src/Services/Repository.antt =====
-- `InMemoryRepository`, backend/app/repositories/memory.py: the items of one kind in a state that holds
-- several such repositories.
pub mod Refinement
mod Tests
use qa_platform_learning.Common.Tests.{
  ℕ, ◌≡◌, Bool, false, not, List, [], ◌∷◌, nat_beq, nat_keyed, if◌then◌else◌,
}
use qa_platform_learning.Common.Lists.{any}
use qa_platform_learning.Common.Dict.{Dict, values, lookup, insert, contains}
use qa_platform_learning.Common.Lookup.{remove}
use qa_platform_learning.Common.Result.{
  Result, err, Action, gets, find, raise_if, modify, ◌>>=◌, ◌>>◌,
}
use qa_platform_learning.Common.Holds.{Holds, Holds-modify, bind-any, bind-gets, bind-raise_if}
use qa_platform_learning.Services.Errors.{ServiceError, missing, conflict}

pub record Repository (S A : Type 0) : Type 0 where
  pub items : S → Dict ℕ A
  pub keep : Dict ℕ A → S → S
  pub id_of : A → ℕ

-- The items under other keys than `k`.
abbrev pub values_but : {A : Type 0} → ℕ → Dict ℕ A → List A
values_but k [] = []
values_but k ((j, a) ∷ d) = let rest = values_but k d in if nat_beq j k then rest else a ∷ rest

module _ {S A : Type 0} (r : Repository S A) where
  -- `list`
  abbrev pub all_items : S → List A
  all_items s = values (r.items s)

  abbrev pub put : A → S → S
  put a s = r.keep (insert (r.id_of a) a (r.items s)) s

  abbrev pub drop_item : ℕ → S → S
  drop_item id s = r.keep (remove id (r.items s)) s

  -- A `get` whose None raises.
  abbrev pub require_item : ℕ → Action S ServiceError A
  require_item id = find (λ s. lookup id (r.items s)) missing

  -- `create`; `clash` compares the unique fields.
  unfoldable pub create_item : (A → A → Bool) → A → Action S ServiceError Unit
  create_item clash a = do
    known ← gets (λ s. contains (r.id_of a) (r.items s))
    raise_if known conflict
    twice ← gets (λ s. any (clash a) (all_items s))
    raise_if twice conflict
    modify (put a)

  -- `update`
  unfoldable pub update_item : (A → A → Bool) → A → Action S ServiceError Unit
  update_item clash a = do
    known ← gets (λ s. contains (r.id_of a) (r.items s))
    raise_if (not known) missing
    twice ← gets (λ s. any (clash a) (values_but (r.id_of a) (r.items s)))
    raise_if twice conflict
    modify (put a)

  -- `delete`
  unfoldable pub delete_item : ℕ → Action S ServiceError Unit
  delete_item id = modify (drop_item id)

  module _ {B : Type 0} {Post : Result ServiceError B → S → Type 0} where
    -- What follows a write that raises or writes.
    pub bind-create :
        (clash : A → A → Bool) (a : A) (f : Unit {0} → Action S ServiceError B) (s : S)
        → ((e : ServiceError) → Post (err e) s)
        → (contains (r.id_of a) (r.items s) ≡ false
            → any (clash a) (all_items s) ≡ false
            → Holds Post (f tt) (put a s))
        → Holds Post (create_item clash a >>= f) s
    unfolding create_item
    bind-create clash a f s bad good = bind-any _ f s (
        bind-gets _ _ s (
          bind-raise_if _ _ _ s (λ _. bad conflict)
            λ fresh. bind-gets _ _ s (
              bind-raise_if _ _ _ s (λ _. bad conflict)
                λ unique. Holds-modify _ s (good fresh unique))))

    pub bind-update :
        (clash : A → A → Bool) (a : A) (f : Unit {0} → Action S ServiceError B) (s : S)
        → ((e : ServiceError) → Post (err e) s)
        → (any (clash a) (values_but (r.id_of a) (r.items s)) ≡ false → Holds Post (f tt) (put a s))
        → Holds Post (update_item clash a >>= f) s
    unfolding update_item
    bind-update clash a f s bad good = bind-any _ f s (
        bind-gets _ _ s (
          bind-raise_if _ _ _ s (λ _. bad missing)
            λ known.
              bind-gets _ _ s (
                bind-raise_if _ _ _ s (λ _. bad conflict)
                  λ unique. Holds-modify _ s (good unique))))

    pub bind-delete :
        (id : ℕ) (f : Unit {0} → Action S ServiceError B) (s : S)
        → Holds Post (f tt) (drop_item id s)
        → Holds Post (delete_item id >>= f) s
    unfolding delete_item
    bind-delete id f s h = bind-any _ f s (Holds-modify _ s h)

-- No field is unique.
abbrev pub no_clash : {A : Type 0} → A → A → Bool
no_clash a b = false
