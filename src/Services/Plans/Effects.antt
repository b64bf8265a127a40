-- ===== src/Services/Plans/Effects.antt =====
-- What each call of the test plan service does to the store: nothing, or one write of a plan under the
-- guards that the call has passed.
use qa_platform_learning.Common.Tests.{
  ℕ, ◌≡◌, refl, sym, ◌⊎◌, inl, inr, Bool, true, false, Option, none, some, List, [], ◌∷◌, arith,
  nat_keyed, Bool-cases, true_of_not, ◌==◌,
}
use qa_platform_learning.Common.Dict.{lookup, contains}
use qa_platform_learning.Common.Result.{◌>>=◌}
use qa_platform_learning.Common.Holds.{
  Holds, Holds-pure, Stays, bind-any, bind-find, bind-gets, bind-raise_if,
}
use qa_platform_learning.Services.Repository.{
  put, drop_item, no_clash, bind-create, bind-update, bind-delete,
}
use qa_platform_learning.Services.Reads.{Still, bind-reads, reads-Then}
use qa_platform_learning.Services.Models.Status.{PlanStatus, ProjectStatus, plan_status_keyed}
use qa_platform_learning.Services.Models.Records.{Project, Plan}
use qa_platform_learning.Services.Store.{Store, plans_repo, bind-active}
use qa_platform_learning.Services.Plans.Operations.{
  user_may, check_cases, validate_cases, validate_given, NewPlan, PlanEdit, new_plan, create_plan,
  edited_plan, update_plan, with_status, set_status, is_executed, check_target, transition_plan,
  delete_plan,
}
use mathlib.Core.Path.{subst}

-- The project is there and active.
abbrev pub ActiveProject : ℕ → Store → Type 0
ActiveProject id s =
    (p : Project) × (lookup id s.projects ≡ some p) × (p.status ≡ ProjectStatus.active)

check_cases-Still :
    (project_id : ℕ) (ids : List ℕ) (require_active : Bool) (s : Store)
    → Holds (Still s) (check_cases project_id ids require_active) s
unfolding check_cases
check_cases-Still project_id [] require_active s = Holds-pure tt s refl
check_cases-Still project_id (id ∷ ids) require_active s =
    bind-find _ _ _ s (λ _. refl)
      λ c _. bind-any _ _ s (
        bind-raise_if _ _ _ s (λ _. refl)
          λ _.
            bind-raise_if _ _ _ s (λ _. refl)
              λ _. Holds-pure tt s (check_cases-Still project_id ids require_active s))

pub validate_cases-Still :
    (project_id : ℕ) (ids : List ℕ) (require_active : Bool) (s : Store)
    → Holds (Still s) (validate_cases project_id ids require_active) s
unfolding validate_cases
validate_cases-Still project_id ids require_active s =
    bind-raise_if _ _ _ s (λ _. refl) λ _. check_cases-Still project_id ids require_active s

validate_given-Still :
    (project_id : ℕ) (ids : Option (List ℕ)) (s : Store)
    → Holds (Still s) (validate_given project_id ids) s
validate_given-Still project_id none s = Holds-pure tt s refl
validate_given-Still project_id (some ids) s = validate_cases-Still project_id ids false s

-- The moves that a user may make of the plan `p`, and what the code checks for them.
abbrev pub UserMove : Plan → PlanStatus → Store → Type 0
UserMove p target s =
    ((p.status ≡ PlanStatus.draft) × (target ≡ PlanStatus.ready) × ActiveProject p.project_id s)
    ⊎ ((p.status ≡ PlanStatus.ready) × (target ≡ PlanStatus.draft) × (is_executed p.id s ≡ false))

abbrev UserGoal : Plan → PlanStatus → Type 0
UserGoal p target =
    ((p.status ≡ PlanStatus.draft) × (target ≡ PlanStatus.ready))
    ⊎ ((p.status ≡ PlanStatus.ready) × (target ≡ PlanStatus.draft))

user_may-cases :
    (a b : PlanStatus)
    → user_may a b ≡ true
    → ((a ≡ PlanStatus.draft) × (b ≡ PlanStatus.ready))
      ⊎ ((a ≡ PlanStatus.ready) × (b ≡ PlanStatus.draft))
user_may-cases PlanStatus.draft PlanStatus.ready h = inl (refl, refl)
user_may-cases PlanStatus.ready PlanStatus.draft h = inr (refl, refl)
user_may-cases a b h = ground arith

module _ (P : Store → Type 0) where
  pub create_plan-effect :
      (p : NewPlan) (now fresh_id : ℕ) (s : Store)
      → P s
      → (ActiveProject p.project_id s
          → contains fresh_id s.plans ≡ false
          → P (put plans_repo (new_plan p now fresh_id) s))
      → Holds (Stays P) (create_plan p now fresh_id) s
  unfolding create_plan
  create_plan-effect p now fresh_id s h write =
      bind-active _ _ s (λ _. h)
        λ project found runs.
          bind-reads _ _ s (validate_cases-Still p.project_id p.case_ids false s) (λ _. h)
            λ _ _.
              bind-create plans_repo no_clash _ _ s (λ _. h)
                λ fresh _. Holds-pure _ _ (write (project, found, runs) fresh)

  pub update_plan-effect :
      (id : ℕ) (e : PlanEdit) (now : ℕ) (s : Store)
      → P s
      → ((p : Plan)
          → lookup id s.plans ≡ some p
          → p.status ≡ PlanStatus.draft
          → P (put plans_repo (edited_plan e now p) s))
      → Holds (Stays P) (update_plan id e now) s
  unfolding update_plan
  update_plan-effect id e now s h write =
      bind-find _ _ _ s (λ _. h)
        λ p found.
          bind-raise_if _ _ _ s (λ _. h)
            λ drafts.
              bind-reads _ _ s (validate_given-Still p.project_id e.case_ids s) (λ _. h)
                λ _ _.
                  bind-update plans_repo no_clash _ _ s (λ _. h)
                    λ _. Holds-pure _ _ (
                      write p found (
                        (plan_status_keyed.agree_iff p.status PlanStatus.draft).0
                          (true_of_not _ drafts)))

  set_status-effect :
      (id : ℕ) (target : PlanStatus) (now : ℕ) (s : Store)
      → P s
      → ((p : Plan) → lookup id s.plans ≡ some p → P (put plans_repo (with_status target now p) s))
      → Holds (Stays P) (set_status id target now) s
  unfolding set_status
  set_status-effect id target now s h write =
      bind-find _ _ _ s (λ _. h)
        λ p found.
          bind-update plans_repo no_clash _ _ s (λ _. h) λ _. Holds-pure _ _ (write p found)

  abbrev Moves : Plan → (now : ℕ) → Store → PlanStatus → Type 0
  unfolding check_target
  Moves p now s target =
      (UserMove p target s → Holds (Stays P) (set_status p.id target now) s)
      → Holds (Stays P) (check_target p target >>= λ _. set_status p.id target now) s

  move_ready :
      (p : Plan) (now : ℕ) (s : Store)
      → p.status ≡ PlanStatus.draft
      → P s
      → Moves p now s PlanStatus.ready
  unfolding check_target
  move_ready p now s drafts h rest = bind-any _ _ s (
      bind-active _ _ s (λ _. h)
        λ project found runs.
          bind-raise_if _ _ _ s (λ _. h)
            λ _.
              reads-Then {Post = Stays P} _ _ s
                (validate_cases-Still p.project_id p.case_ids true s) (λ _. h)
                λ _ _. rest (inl (drafts, refl, (project, found, runs))))

  move_draft :
      (p : Plan) (now : ℕ) (s : Store)
      → p.status ≡ PlanStatus.ready
      → P s
      → Moves p now s PlanStatus.draft
  unfolding check_target
  move_draft p now s stands h rest = bind-any _ _ s (
      bind-gets _ _ s (
        bind-raise_if _ _ _ s (λ _. h)
          λ unused. Holds-pure tt s (rest (inr (stands, refl, unused)))))

  move-effect :
      (p : Plan) (target : PlanStatus) (now : ℕ) (s : Store)
      → UserGoal p target
      → P s
      → Moves p now s target
  move-effect p target now s (inl (drafts, goal)) h =
      subst (Moves p now s) (sym goal) (move_ready p now s drafts h)
  move-effect p target now s (inr (stands, goal)) h =
      subst (Moves p now s) (sym goal) (move_draft p now s stands h)

  pub transition_plan-effect :
      (id : ℕ) (target : PlanStatus) (now : ℕ) (s : Store)
      → P s
      → ((p q : Plan)
          → lookup id s.plans ≡ some p
          → UserMove p target s
          → lookup p.id s.plans ≡ some q
          → P (put plans_repo (with_status target now q) s))
      → Holds (Stays P) (transition_plan id target now) s
  unfolding transition_plan
  transition_plan-effect id target now s h write =
      bind-find _ _ _ s (λ _. h)
        λ p found. elim (Bool-cases (p.status == target)) [
          | inl there ↦ rw there (Holds-pure p s h)
          | inr away ↦ rw away (
              bind-raise_if _ _ _ s (λ _. h)
                λ may.
                  move-effect p target now s (user_may-cases p.status target (true_of_not _ may)) h
                    λ goal.
                      set_status-effect p.id target now s h λ q there. write p q found goal there)
        ]

  pub delete_plan-effect :
      (id : ℕ) (s : Store)
      → P s
      → ((p : Plan)
          → lookup id s.plans ≡ some p
          → is_executed p.id s ≡ false
          → P (drop_item plans_repo p.id s))
      → Holds (Stays P) (delete_plan id) s
  unfolding delete_plan
  delete_plan-effect id s h write =
      bind-find _ _ _ s (λ _. h)
        λ p found.
          bind-raise_if _ _ _ s (λ _. h)
            λ _. bind-gets _ _ s (
              bind-raise_if _ _ _ s (λ _. h)
                λ unused. bind-delete plans_repo _ _ s (Holds-pure _ _ (write p found unused)))
