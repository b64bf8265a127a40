-- ===== src/Common/Holds.antt =====
-- What holds of an action's outcome when it starts in a given state, one rule for each way to
-- build an action.
use qa_platform_learning.Common.Tests.{◌≡◌, refl, Bool, true, false, Option, none, some}
use qa_platform_learning.Common.Result.{
  Result, ok, err, Action, pure, raise, gets, lift, find, raise_if, modify, continue, ◌>>=◌,
}

pub record Holds {S E A : Type 0} (Post : Result E A → S → Type 0) (m : Action S E A) (s : S)
    : Type 0 where
  pub at : Post (m s).0 (m s).1

module _ {S E A : Type 0} {Post : Result E A → S → Type 0} where
  pub Holds-pure : (a : A) (s : S) → Post (ok a) s → Holds Post (pure a) s
  unfolding pure
  Holds-pure a s h = record { at = h }

  pub Holds-raise : (e : E) (s : S) → Post (err e) s → Holds Post (raise e) s
  unfolding raise
  Holds-raise e s h = record { at = h }

  pub Holds-gets : (f : S → A) (s : S) → Post (ok (f s)) s → Holds Post (gets f) s
  unfolding gets
  Holds-gets f s h = record { at = h }

-- The rest of a block, after a first action with the outcome `r` and `s`.
abbrev pub Then :
    {S E A B : Type 0} (Post : Result E B → S → Type 0)
    → (A → Action S E B)
    → Result E A
    → S
    → Type 0
Then Post f (ok a) s = Holds Post (f a) s
Then Post f (err e) s = Post (err e) s

module _ {S E A B : Type 0} {Post : Result E B → S → Type 0} where
  pub bind-pure :
      (a : A) (f : A → Action S E B) (s : S) → Holds Post (f a) s → Holds Post (pure a >>= f) s
  unfolding ◌>>=◌
  bind-pure a f s h = record { at = h.at }

  pub bind-gets :
      (g : S → A) (f : A → Action S E B) (s : S)
      → Holds Post (f (g s)) s
      → Holds Post (gets g >>= f) s
  unfolding ◌>>=◌
  bind-gets g f s h = record { at = h.at }

  pub bind-lift :
      (r : Result E A) (f : A → Action S E B) (s : S)
      → ((e : E) → r ≡ err e → Post (err e) s)
      → ((a : A) → r ≡ ok a → Holds Post (f a) s)
      → Holds Post (lift r >>= f) s
  unfolding ◌>>=◌
  bind-lift (ok a) f s bad good = record { at = (good a refl).at }
  bind-lift (err e) f s bad good = record { at = bad e refl }

  find_case :
      (look : S → Option A) (e : E) (f : A → Action S E B) (s : S) (o : Option A)
      → look s ≡ o
      → (look s ≡ none → Post (err e) s)
      → ((a : A) → look s ≡ some a → Holds Post (f a) s)
      → Holds Post (find look e >>= f) s
  unfolding ◌>>=◌
  find_case look e f s none eq bad good = record { at = rw (eq, ◌>>=◌, find) (bad eq) }
  find_case look e f s (some a) eq bad good = record { at = rw (eq, ◌>>=◌, find) (good a eq).at }

  pub bind-find :
      (look : S → Option A) (e : E) (f : A → Action S E B) (s : S)
      → (look s ≡ none → Post (err e) s)
      → ((a : A) → look s ≡ some a → Holds Post (f a) s)
      → Holds Post (find look e >>= f) s
  bind-find look e f s = find_case look e f s (look s) refl

  continue-Holds :
      (r : Result E A) (f : A → Action S E B) (s : S)
      → Then Post f r s
      → Holds Post (continue r f) s
  continue-Holds (ok a) f s h = record { at = h.at }
  continue-Holds (err e) f s h = record { at = h }

  -- Any first action, by what holds of its outcome.
  pub bind-any :
      (m : Action S E A) (f : A → Action S E B) (s : S)
      → Holds (Then Post f) m s
      → Holds Post (m >>= f) s
  unfolding ◌>>=◌
  bind-any m f s h = record { at = (continue-Holds (m s).0 f (m s).1 h.at).at }

module _ {S E B : Type 0} {Post : Result E B → S → Type 0} where
  pub bind-raise_if :
      (b : Bool) (e : E) (f : Unit {0} → Action S E B) (s : S)
      → (b ≡ true → Post (err e) s)
      → (b ≡ false → Holds Post (f tt) s)
      → Holds Post (raise_if b e >>= f) s
  unfolding ◌>>=◌
  bind-raise_if true e f s bad good = record { at = bad refl }
  bind-raise_if false e f s bad good = record { at = (good refl).at }

  pub bind-modify :
      (g : S → S) (f : Unit {0} → Action S E B) (s : S)
      → Holds Post (f tt) (g s)
      → Holds Post (modify g >>= f) s
  unfolding ◌>>=◌
  bind-modify g f s h = record { at = h.at }

pub Then-both :
    {S E A B : Type 0} {Post : Result E B → S → Type 0} (f : A → Action S E B) (r : Result E A)
    (s : S)
    → ((e : E) → Post (err e) s)
    → ((a : A) → Holds Post (f a) s)
    → Then Post f r s
Then-both f (ok a) s bad good = good a
Then-both f (err e) s bad good = bad e

-- A property of the state alone, whatever the outcome.
abbrev pub Stays : {S : Type 0} → (S → Type 0) → {E B : Type 0} → Result E B → S → Type 0
Stays P r s = P s

-- It stays through a sequence when both parts keep it.
pub bind-Stays :
    {S E A B : Type 0} {P : S → Type 0} (m : Action S E A) (f : A → Action S E B) (s : S)
    → Holds (Stays P) m s
    → ((a : A) (t : S) → P t → Holds (Stays P) (f a) t)
    → Holds (Stays P) (m >>= f) s
bind-Stays {P} m f s h g =
    bind-any m f s (record {
      at = Then-both {Post = Stays P} f (m s).0 (m s).1 (λ _. h.at) λ a. g a (m s).1 h.at;
    })

-- A first action of which only the second matters.
pub bind-whatever :
    {S E A B : Type 0} {Post : Result E B → S → Type 0} (m : Action S E A) (f : A → Action S E B)
    (s : S)
    → ((e : E) (t : S) → Post (err e) t)
    → ((a : A) (t : S) → Holds Post (f a) t)
    → Holds Post (m >>= f) s
bind-whatever {Post} m f s bad good = bind-any m f s (record {
  at = Then-both {Post = Post} f (m s).0 (m s).1 (λ e. bad e (m s).1) λ a. good a (m s).1;
})

pub Holds-modify :
    {S E : Type 0} {Post : Result E (Unit {0}) → S → Type 0} (g : S → S) (s : S)
    → Post (ok tt) (g s)
    → Holds Post (modify g) s
unfolding modify
Holds-modify g s h = record { at = h }
