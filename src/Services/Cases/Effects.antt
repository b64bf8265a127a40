-- ===== src/Services/Cases/Effects.antt =====
-- What each call of the test case service does to the store: nothing, or one write of a case under the
-- guards that the call has passed.
use qa_platform_learning.Common.Tests.{
  ℕ, ◌≡◌, refl, inl, inr, true, false, ◌&&◌, String, Option, none, some, nat_keyed, nat_beq,
  Bool-cases, true_of_not, ◌==◌,
}
use qa_platform_learning.Common.Lists.{any, is_empty}
use qa_platform_learning.Common.Dict.{lookup, contains}
use qa_platform_learning.Common.Result.{ok}
use qa_platform_learning.Common.Holds.{
  Holds, Holds-pure, Stays, bind-find, bind-gets, bind-raise_if,
}
use qa_platform_learning.Services.Repository.{
  put, drop_item, all_items, no_clash, bind-create, bind-update, bind-delete,
}
use qa_platform_learning.Services.Reads.{Still, bind-reads}
use qa_platform_learning.Services.Models.Status.{CaseStatus, case_status_keyed}
use qa_platform_learning.Services.Models.Records.{Case, Plan}
use qa_platform_learning.Services.Store.{Store, cases_repo, plans_repo, bind-active}
use qa_platform_learning.Services.Cases.Operations.{
  case_may, climb_all, require_active_suite, check_suite, NewCase, CaseEdit, new_case, create_case,
  edited_case, check_new_suite, update_case, check_enabling, with_case_status, move_case,
  transition_case, delete_case,
}

require_active_suite-Still :
    (project_id suite_id : ℕ) (s : Store)
    → Holds (Still s) (require_active_suite project_id suite_id) s
unfolding require_active_suite
require_active_suite-Still project_id suite_id s =
    bind-find _ _ _ s (λ _. refl)
      λ x _.
        bind-raise_if _ _ _ s (λ _. refl)
          λ _.
            bind-reads (climb_all x) _ s (record { at = refl }) (λ _. refl)
              λ _ _. Holds-pure _ s refl

check_suite-Still :
    (project_id : ℕ) (id : Option ℕ) (s : Store) → Holds (Still s) (check_suite project_id id) s
unfolding check_suite
check_suite-Still project_id none s = Holds-pure _ s refl
check_suite-Still project_id (some id) s =
    bind-reads _ _ s (require_active_suite-Still project_id id s) (λ _. refl)
      λ _ _. Holds-pure _ s refl

check_enabling-Still :
    (c : Case) (target : CaseStatus) (s : Store) → Holds (Still s) (check_enabling c target) s
check_enabling-Still c CaseStatus.active s =
    bind-active _ _ s (λ _. refl)
      λ _ _ _. bind-raise_if _ _ _ s (λ _. refl) λ _. Holds-pure _ s refl
check_enabling-Still c CaseStatus.draft s = Holds-pure _ s refl
check_enabling-Still c CaseStatus.disabled s = Holds-pure _ s refl

module _ (strip lower : String → String) where
  check_new_suite-Still :
      (project_id : ℕ) (id : Option (Option ℕ)) (s : Store)
      → Holds (Still s) (check_new_suite strip lower project_id id) s
  unfolding check_new_suite
  check_new_suite-Still project_id none s = Holds-pure _ s refl
  check_new_suite-Still project_id (some id) s = check_suite-Still project_id id s

module _ (P : Store → Type 0) (strip lower : String → String) where
  pub create_case-effect :
      (p : NewCase) (now fresh_id : ℕ) (s : Store)
      → P s
      → (contains fresh_id s.cases ≡ false
          → P (put cases_repo (new_case strip lower p now fresh_id) s))
      → Holds (Stays P) (create_case strip lower p now fresh_id) s
  unfolding create_case
  create_case-effect p now fresh_id s h write =
      bind-active _ _ s (λ _. h)
        λ _ _ _.
          bind-reads _ _ s (check_suite-Still p.project_id p.suite_id s) (λ _. h)
            λ _ _.
              bind-create cases_repo no_clash _ _ s (λ _. h) λ fresh _. Holds-pure _ _ (write fresh)

  pub update_case-effect :
      (id : ℕ) (e : CaseEdit) (now : ℕ) (s : Store)
      → P s
      → ((c : Case)
          → lookup id s.cases ≡ some c
          → ((edited_case strip lower e now c).status == CaseStatus.active
              && is_empty (edited_case strip lower e now c).steps)
            ≡ false
          → P (put cases_repo (edited_case strip lower e now c) s))
      → Holds (Stays P) (update_case strip lower id e now) s
  unfolding update_case
  update_case-effect id e now s h write =
      bind-find _ _ _ s (λ _. h)
        λ c found.
          bind-reads _ _ s (check_new_suite-Still strip lower c.project_id e.suite_id s) (λ _. h)
            λ _ _.
              bind-raise_if _ _ _ s (λ _. h)
                λ stepped.
                  bind-update cases_repo no_clash _ _ s (λ _. h)
                    λ _. Holds-pure _ _ (write c found stepped)

module _ (P : Store → Type 0) where
  pub transition_case-effect :
      (id : ℕ) (target : CaseStatus) (now : ℕ) (s : Store)
      → P s
      → ((c : Case)
          → lookup id s.cases ≡ some c
          → case_may c.status target ≡ true
          → check_enabling c target s ≡ (ok tt, s)
          → P (put cases_repo (with_case_status target now c) s))
      → Holds (Stays P) (transition_case id target now) s
  unfolding transition_case move_case
  transition_case-effect id target now s h write =
      bind-find _ _ _ s (λ _. h)
        λ c found. elim (Bool-cases (c.status == target)) [
          | inl same ↦ rw same (Holds-pure c s h)
          | inr away ↦ rw away (
              bind-raise_if _ _ _ s (λ _. h)
                λ may.
                  bind-reads _ _ s (check_enabling-Still c target s) (λ _. h)
                    λ _ enabled.
                      bind-update cases_repo no_clash _ _ s (λ _. h)
                        λ _. Holds-pure _ _ (write c found (true_of_not _ may) enabled))
        ]

  pub delete_case-effect :
      (id : ℕ) (s : Store)
      → P s
      → ((c : Case)
          → lookup id s.cases ≡ some c
          → any (λ (p : Plan). any (λ x. nat_beq x c.id) p.case_ids) (all_items plans_repo s)
            ≡ false
          → P (drop_item cases_repo c.id s))
      → Holds (Stays P) (delete_case id) s
  unfolding delete_case
  delete_case-effect id s h write =
      bind-find _ _ _ s (λ _. h)
        λ c found. bind-gets _ _ s (
          bind-raise_if _ _ _ s (λ _. h)
            λ unplanned. bind-gets _ _ s (
              bind-raise_if _ _ _ s (λ _. h)
                λ _. bind-delete cases_repo _ _ s (Holds-pure _ _ (write c found unplanned))))
