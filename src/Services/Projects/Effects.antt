-- ===== src/Services/Projects/Effects.antt =====
-- What each call of the project service does to the store: nothing, or one write of a project under the
-- guards that the call has passed.
use qa_platform_learning.Common.Tests.{
  ℕ, ◌≡◌, inl, inr, false, String, some, nat_keyed, nat_beq, Bool-cases, ◌==◌,
}
use qa_platform_learning.Common.Lists.{any}
use qa_platform_learning.Common.Dict.{lookup, contains}
use qa_platform_learning.Common.Holds.{
  Holds, Holds-pure, Stays, bind-any, bind-find, bind-gets, bind-raise_if, bind-pure,
}
use qa_platform_learning.Services.Repository.{
  put, drop_item, all_items, bind-create, bind-update, bind-delete,
}
use qa_platform_learning.Services.Models.Status.{ProjectStatus, project_status_keyed}
use qa_platform_learning.Services.Models.Records.{Project, Plan}
use qa_platform_learning.Services.Defects.Model.{Defect}
use qa_platform_learning.Services.Store.{Store, projects_repo, plans_repo, defects_repo}
use qa_platform_learning.Services.Projects.Operations.{
  ProjectEdit, same_key, new_project, create_project, edited_project, update_project, open_plan,
  open_defect, ensure_no_active_work, with_project_status, move_project, transition_project,
  delete_project,
}

-- A project may be archived: no plan of it is open, and every defect of it is closed.
abbrev pub Idle : Project → ProjectStatus → Store → Type 0
Idle p ProjectStatus.active s = Unit
Idle p ProjectStatus.archived s =
    (any (open_plan p.id) (all_items plans_repo s) ≡ false)
    × (any (open_defect p.id) (all_items defects_repo s) ≡ false)

module _ (P : Store → Type 0) where
  pub create_project-effect :
      (upper : String → String) (key name description : String) (now fresh_id : ℕ) (s : Store)
      → P s
      → (contains fresh_id s.projects ≡ false
          → P (put projects_repo (new_project (upper key) name description now fresh_id) s))
      → Holds (Stays P) (create_project upper key name description now fresh_id) s
  unfolding create_project
  create_project-effect upper key name description now fresh_id s h write =
      bind-create projects_repo same_key _ _ s (λ _. h) λ fresh _. Holds-pure _ _ (write fresh)

  pub update_project-effect :
      (id : ℕ) (e : ProjectEdit) (now : ℕ) (s : Store)
      → P s
      → ((p : Project)
          → lookup id s.projects ≡ some p
          → P (put projects_repo (edited_project e now p) s))
      → Holds (Stays P) (update_project id e now) s
  unfolding update_project
  update_project-effect id e now s h write =
      bind-find _ _ _ s (λ _. h)
        λ p found.
          bind-update projects_repo same_key _ _ s (λ _. h) λ _. Holds-pure _ _ (write p found)

  move_project-effect :
      (p : Project) (target : ProjectStatus) (now : ℕ) (s : Store)
      → P s
      → (Idle p target s → P (put projects_repo (with_project_status target now p) s))
      → Holds (Stays P) (move_project p target now) s
  unfolding move_project ensure_no_active_work
  move_project-effect p ProjectStatus.active now s h write =
      bind-pure _ _ s
        (bind-update projects_repo same_key _ _ s (λ _. h) λ _. Holds-pure _ _ (write tt))
  move_project-effect p ProjectStatus.archived now s h write = bind-any _ _ s (
      bind-gets _ _ s (
        bind-raise_if _ _ _ s (λ _. h)
          λ planned. bind-gets _ _ s (
            bind-raise_if _ _ _ s (λ _. h)
              λ executing. bind-gets _ _ s (
                bind-raise_if _ _ _ s (λ _. h)
                  λ broken. Holds-pure tt s (
                    bind-update projects_repo same_key _ _ s (λ _. h)
                      λ _. Holds-pure _ _ (write (planned, broken)))))))

  pub transition_project-effect :
      (id : ℕ) (target : ProjectStatus) (now : ℕ) (s : Store)
      → P s
      → ((p : Project)
          → lookup id s.projects ≡ some p
          → Idle p target s
          → P (put projects_repo (with_project_status target now p) s))
      → Holds (Stays P) (transition_project id target now) s
  unfolding transition_project
  transition_project-effect id target now s h write =
      bind-find _ _ _ s (λ _. h)
        λ p found. elim (Bool-cases (p.status == target)) [
          | inl same ↦ rw same (Holds-pure p s h)
          | inr away ↦ rw away (move_project-effect p target now s h (write p found))
        ]

  pub delete_project-effect :
      (id : ℕ) (s : Store)
      → P s
      → ((p : Project)
          → lookup id s.projects ≡ some p
          → any (λ (x : Plan). nat_beq x.project_id p.id) (all_items plans_repo s) ≡ false
          → any (λ (d : Defect). nat_beq d.project_id p.id) (all_items defects_repo s) ≡ false
          → P (drop_item projects_repo p.id s))
      → Holds (Stays P) (delete_project id) s
  unfolding delete_project
  delete_project-effect id s h write =
      bind-find _ _ _ s (λ _. h)
        λ p found. bind-gets _ _ s (
          bind-raise_if _ _ _ s (λ _. h)
            λ _. bind-gets _ _ s (
              bind-raise_if _ _ _ s (λ _. h)
                λ unplanned. bind-gets _ _ s (
                  bind-raise_if _ _ _ s (λ _. h)
                    λ sound. bind-gets _ _ s (
                      bind-raise_if _ _ _ s (λ _. h)
                        λ _. bind-gets _ _ s (
                          bind-raise_if _ _ _ s (λ _. h)
                            λ _.
                              bind-delete projects_repo _ _ s
                                (Holds-pure _ _ (write p found unplanned sound)))))))
