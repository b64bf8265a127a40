-- ===== src/Services/Defects/Effects.antt =====
-- What each call of the defect service does to the store: nothing, or one write of a defect with its audit
-- event, under the guards that the call has passed.
use qa_platform_learning.Common.Tests.{
  ℕ, ◌≡◌, refl, inl, inr, String, Option, none, some, List, nat_keyed, Bool-cases,
}
use qa_platform_learning.Common.Lists.{is_empty}
use qa_platform_learning.Common.Dict.{lookup}
use qa_platform_learning.Common.Holds.{
  Holds, Holds-pure, Stays, bind-find, bind-raise_if, bind-modify,
}
use qa_platform_learning.Services.Repository.{put, no_clash, bind-create, bind-update}
use qa_platform_learning.Services.Reads.{Still, bind-reads}
use qa_platform_learning.Services.Models.Audit.{AuditEvent}
use qa_platform_learning.Services.Store.{Store, defects_repo, bind-active}
use qa_platform_learning.Services.Plans.Effects.{ActiveProject}
use qa_platform_learning.Services.Defects.Model.{Defect, NewDefect, Transition, Edit, same_status}
use qa_platform_learning.Services.Defects.Operations.{moved, move, move_unless_there, transition}
use qa_platform_learning.Services.Defects.Edits.{edited, edit_changes, save, save_changed, update}
use qa_platform_learning.Services.Defects.Creation.{
  require_case, require_execution, validate_associations, new_defect, create_defect,
}

require_case-Still :
    (project_id : ℕ) (id : Option ℕ) (s : Store) → Holds (Still s) (require_case project_id id) s
require_case-Still project_id none s = Holds-pure _ s refl
require_case-Still project_id (some id) s =
    bind-find _ _ _ s (λ _. refl) λ c _. bind-raise_if _ _ _ s (λ _. refl) λ _. Holds-pure _ s refl

require_execution-Still :
    (project_id : ℕ) (id : Option ℕ) (s : Store)
    → Holds (Still s) (require_execution project_id id) s
require_execution-Still project_id none s = Holds-pure _ s refl
require_execution-Still project_id (some id) s =
    bind-find _ _ _ s (λ _. refl)
      λ x _.
        bind-raise_if _ _ _ s (λ _. refl)
          λ _. bind-raise_if _ _ _ s (λ _. refl) λ _. Holds-pure _ s refl

validate_associations-Still :
    (project_id : ℕ) (case_id execution_id : Option ℕ) (s : Store)
    → Holds (Still s) (validate_associations project_id case_id execution_id) s
unfolding validate_associations
validate_associations-Still project_id case_id execution_id s =
    bind-reads _ _ s (require_case-Still project_id case_id s) (λ _. refl)
      λ c _.
        bind-reads _ _ s (require_execution-Still project_id execution_id s) (λ _. refl)
          λ x _. bind-raise_if _ _ _ s (λ _. refl) λ _. Holds-pure _ s refl

-- The store after a defect is written and its event appended.
abbrev pub Written : (Store → Type 0) → Defect → Store → Type 0
Written P d s = (audits : List AuditEvent) → P (record (put defects_repo d s) { audits = audits })

module _ (P : Store → Type 0) where
  pub create_defect-effect :
      (p : NewDefect) (actor : Option String) (now fresh_id : ℕ) (s : Store)
      → P s
      → (ActiveProject p.project_id s → Written P (new_defect p actor now fresh_id) s)
      → Holds (Stays P) (create_defect p actor now fresh_id) s
  unfolding create_defect
  create_defect-effect p actor now fresh_id s h write =
      bind-active _ _ s (λ _. h)
        λ project found runs.
          bind-reads _ _ s (validate_associations-Still p.project_id p.case_id p.execution_id s)
            (λ _. h)
            λ _ _.
              bind-create defects_repo no_clash _ _ s (λ _. h)
                λ _ _. bind-modify _ _ _ (Holds-pure _ _ (write (project, found, runs) _))

  module _ (strip : String → String) where
    move_defect-effect :
        (d : Defect) (p : Transition) (now : ℕ) (s : Store)
        → P s
        → (ActiveProject d.project_id s → Written P (moved strip now p d) s)
        → Holds (Stays P) (move strip d p now) s
    unfolding move
    move_defect-effect d p now s h write =
        bind-raise_if _ _ _ s (λ _. h)
          λ _.
            bind-active _ _ s (λ _. h)
              λ project found runs.
                bind-raise_if _ _ _ s (λ _. h)
                  λ _.
                    bind-update defects_repo no_clash _ _ s (λ _. h)
                      λ _. bind-modify _ _ _ (Holds-pure _ _ (write (project, found, runs) _))

    pub transition_defect-effect :
        (id : ℕ) (p : Transition) (now : ℕ) (s : Store)
        → P s
        → ((d : Defect)
            → lookup id s.defects ≡ some d
            → ActiveProject d.project_id s
            → Written P (moved strip now p d) s)
        → Holds (Stays P) (transition strip id p now) s
    unfolding transition move_unless_there
    transition_defect-effect id p now s h write =
        bind-find _ _ _ s (λ _. h)
          λ d found. elim (Bool-cases (same_status d.status p.status)) [
            | inl same ↦ rw same (Holds-pure d s h)
            | inr away ↦ rw away (move_defect-effect d p now s h (write d found))
          ]

    save_defect-effect :
        (d : Defect) (p : Edit) (now : ℕ) (s : Store)
        → P s
        → Written P (edited now p d) s
        → Holds (Stays P) (save strip d p now) s
    unfolding save
    save_defect-effect d p now s h write =
        bind-raise_if _ _ _ s (λ _. h)
          λ _.
            bind-update defects_repo no_clash _ _ s (λ _. h)
              λ _. bind-modify _ _ _ (Holds-pure _ _ (write _))

    pub update_defect-effect :
        (id : ℕ) (p : Edit) (now : ℕ) (s : Store)
        → P s
        → ((d : Defect) → lookup id s.defects ≡ some d → Written P (edited now p d) s)
        → Holds (Stays P) (update strip id p now) s
    unfolding update save_changed
    update_defect-effect id p now s h write =
        bind-find _ _ _ s (λ _. h)
          λ d found.
            bind-raise_if _ _ _ s (λ _. h)
              λ _. elim (Bool-cases (is_empty (edit_changes p d))) [
                | inl same ↦ rw same (Holds-pure d s h)
                | inr away ↦ rw away (save_defect-effect d p now s h (write d found))
              ]
