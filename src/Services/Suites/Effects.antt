-- ===== src/Services/Suites/Effects.antt =====
-- What each call of the suite service does to the store: nothing, or one write of a suite with its audit
-- event, under the guards that the call has passed.
use qa_platform_learning.Common.Tests.{
  ℕ, ◌≡◌, refl, inl, inr, false, String, Option, none, some, List, nat_keyed, Bool-cases, ◌==◌,
}
use qa_platform_learning.Common.Lists.{any, is_empty}
use qa_platform_learning.Common.Dict.{lookup, contains}
use qa_platform_learning.Common.Result.{ok, ◌>>=◌}
use qa_platform_learning.Common.Holds.{
  Holds, Holds-pure, Stays, bind-any, bind-find, bind-gets, bind-raise_if, bind-modify,
}
use qa_platform_learning.Services.Repository.{
  put, drop_item, all_items, no_clash, bind-create, bind-update, bind-delete,
}
use qa_platform_learning.Services.Reads.{Still, bind-reads}
use qa_platform_learning.Services.Models.Status.{SuiteStatus, suite_status_keyed}
use qa_platform_learning.Services.Models.Records.{Suite, Case}
use qa_platform_learning.Services.Models.Audit.{AuditEvent}
use qa_platform_learning.Services.Store.{Store, Call, suites_repo, cases_repo, bind-active}
use qa_platform_learning.Services.Suites.Operations.{
  same_id, validate_parent, NewSuite, SuiteEdit, new_suite, suite_changes, edited_suite,
  touched_suite, with_suite_status, takes_name, ensure_unique_name, create_suite,
  validate_new_parent, update_suite, check_activation, move_suite, transition_suite, delete_suite,
}

validate_parent-Still :
    (project_id : ℕ) (suite_id parent_id : Option ℕ) (s : Store)
    → Holds (Still s) (validate_parent project_id suite_id parent_id) s
unfolding validate_parent
validate_parent-Still project_id suite_id parent_id s = record { at = refl }

validate_new_parent-Still :
    (casefold : String → String) (x : Suite) (parent : Option (Option ℕ)) (s : Store)
    → Holds (Still s) (validate_new_parent casefold x parent) s
validate_new_parent-Still casefold x none s = Holds-pure _ s refl
validate_new_parent-Still casefold x (some parent) s =
    validate_parent-Still x.project_id (some x.id) parent s

check_activation-Still :
    (x : Suite) (target : SuiteStatus) (s : Store) → Holds (Still s) (check_activation x target) s
check_activation-Still x SuiteStatus.active s =
    validate_parent-Still x.project_id (some x.id) x.parent_id s
check_activation-Still x SuiteStatus.archived s = Holds-pure _ s refl

abbrev pub Written : (Store → Type 0) → Suite → Store → Type 0
Written P x s = (audits : List AuditEvent) → P (record (put suites_repo x s) { audits = audits })

module _ (casefold : String → String) where
  -- No other suite of the same project and parent has the name of `x`.
  abbrev pub OnlyName : Option ℕ → Suite → Store → Type 0
  OnlyName exclude_id x s =
      any (takes_name casefold x.project_id x.parent_id x.name exclude_id) (all_items suites_repo s)
      ≡ false

module _ (P : Store → Type 0) (casefold : String → String) where
  bind_unique :
      {B : Type 0} (project_id : ℕ) (parent_id : Option ℕ) (name : String) (exclude_id : Option ℕ)
      (f : Unit {0} → Call B) (s : Store)
      → P s
      → (any (takes_name casefold project_id parent_id name exclude_id) (all_items suites_repo s)
            ≡ false
          → Holds (Stays P) (f tt) s)
      → Holds (Stays P) (ensure_unique_name casefold project_id parent_id name exclude_id >>= f) s
  unfolding ensure_unique_name
  bind_unique project_id parent_id name exclude_id f s h rest =
      bind-any _ f s
        (bind-gets _ _ s (bind-raise_if _ _ _ s (λ _. h) λ only. Holds-pure _ s (rest only)))

  pub create_suite-effect :
      (p : NewSuite) (now fresh_id : ℕ) (s : Store)
      → P s
      → (validate_parent p.project_id none p.parent_id s ≡ (ok tt, s)
          → contains fresh_id s.suites ≡ false
          → OnlyName casefold none (new_suite p now fresh_id) s
          → Written P (new_suite p now fresh_id) s)
      → Holds (Stays P) (create_suite casefold p now fresh_id) s
  unfolding create_suite
  create_suite-effect p now fresh_id s h write =
      bind-active _ _ s (λ _. h)
        λ _ _ _.
          bind-reads _ _ s (validate_parent-Still p.project_id none p.parent_id s) (λ _. h)
            λ _ fits. bind_unique p.project_id p.parent_id p.name none _ s h λ only.
              bind-create suites_repo no_clash _ _ s (λ _. h)
                λ fresh _. bind-modify _ _ _ (Holds-pure _ _ (write fits fresh only _))

  pub update_suite-effect :
      (id : ℕ) (e : SuiteEdit) (now : ℕ) (s : Store)
      → P s
      → ((x : Suite)
          → lookup id s.suites ≡ some x
          → validate_new_parent casefold x e.parent_id s ≡ (ok tt, s)
          → OnlyName casefold (some x.id) (edited_suite e x) s
          → Written P (touched_suite now (edited_suite e x)) s)
      → Holds (Stays P) (update_suite casefold id e now) s
  unfolding update_suite
  update_suite-effect id e now s h write =
      bind-find _ _ _ s (λ _. h)
        λ x found.
          bind-active _ _ s (λ _. h)
            λ _ _ _.
              bind-raise_if _ _ _ s (λ _. h)
                λ _.
                  bind-reads _ _ s (validate_new_parent-Still casefold x e.parent_id s) (λ _. h)
                    λ _ fits.
                      bind_unique x.project_id (edited_suite e x).parent_id (edited_suite e x).name
                        (some x.id) _ s h
                        λ only. elim (Bool-cases (is_empty (suite_changes x (edited_suite e x)))) [
                          | inl same ↦ rw same (Holds-pure x s h)
                          | inr away ↦ rw away (
                              bind-update suites_repo no_clash _ _ s (λ _. h)
                                λ _. bind-modify _ _ _ (Holds-pure _ _ (write x found fits only _)))
                        ]

module _ (P : Store → Type 0) where
  move_suite-effect :
      (x : Suite) (target : SuiteStatus) (now : ℕ) (s : Store)
      → P s
      → Written P (with_suite_status target now x) s
      → Holds (Stays P) (move_suite x target now) s
  unfolding move_suite
  move_suite-effect x target now s h write =
      bind-active _ _ s (λ _. h)
        λ _ _ _.
          bind-reads _ _ s (check_activation-Still x target s) (λ _. h)
            λ _ _.
              bind-update suites_repo no_clash _ _ s (λ _. h)
                λ _. bind-modify _ _ _ (Holds-pure _ _ (write _))

  pub transition_suite-effect :
      (id : ℕ) (target : SuiteStatus) (now : ℕ) (s : Store)
      → P s
      → ((x : Suite) → lookup id s.suites ≡ some x → Written P (with_suite_status target now x) s)
      → Holds (Stays P) (transition_suite id target now) s
  unfolding transition_suite
  transition_suite-effect id target now s h write =
      bind-find _ _ _ s (λ _. h)
        λ x found. elim (Bool-cases (x.status == target)) [
          | inl same ↦ rw same (Holds-pure x s h)
          | inr away ↦ rw away (move_suite-effect x target now s h (write x found))
        ]

  pub delete_suite-effect :
      (id : ℕ) (s : Store)
      → P s
      → ((x : Suite)
          → lookup id s.suites ≡ some x
          → any (λ (y : Suite). same_id y.parent_id (some x.id)) (all_items suites_repo s) ≡ false
          → any (λ (c : Case). same_id c.suite_id (some x.id)) (all_items cases_repo s) ≡ false
          → (audits : List AuditEvent)
          → P (record (drop_item suites_repo x.id s) { audits = audits }))
      → Holds (Stays P) (delete_suite id) s
  unfolding delete_suite
  delete_suite-effect id s h write =
      bind-find _ _ _ s (λ _. h)
        λ x found.
          bind-active _ _ s (λ _. h)
            λ _ _ _. bind-gets _ _ s (
              bind-raise_if _ _ _ s (λ _. h)
                λ childless. bind-gets _ _ s (
                  bind-raise_if _ _ _ s (λ _. h)
                    λ unused.
                      bind-delete suites_repo _ _ s
                        (bind-modify _ _ _ (Holds-pure _ _ (write x found childless unused _)))))
