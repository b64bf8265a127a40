-- ===== src/Services/Defects/Lifecycle.antt =====
-- The life of a defect (backend/app/services/defects.py).
use qa_platform_learning.Common.Tests.{
  ℕ, ◌≡◌, refl, ◌⊎◌, inl, inr, Bool, true, false, String, Option, none, some, [], ◌∷◌, ◌++◌,
  is_blank, is_some, arith, nat_keyed, Bool-cases, true_of_not,
}
use qa_platform_learning.Common.Dict.{lookup, lookup-insert_self, Every, Every-insert, Every-lookup}
use qa_platform_learning.Common.Result.{Result, ok, err}
use qa_platform_learning.Common.Holds.{Holds, Holds-pure, bind-find, bind-raise_if, bind-modify}
use qa_platform_learning.Services.Errors.{ServiceError}
use qa_platform_learning.Services.Repository.{bind-update, no_clash}
use qa_platform_learning.Services.Models.Status.{ProjectStatus}
use qa_platform_learning.Services.Models.Records.{Project}
use qa_platform_learning.Services.Models.Audit.{AuditEvent}
use qa_platform_learning.Services.Store.{Store, defects_repo, bind-active}
use qa_platform_learning.Services.Defects.Model.{
  DefectStatus, open_, in_progress, resolved, verified, closed, reopened, same_status, allowed,
  Defect, Transition,
}
use qa_platform_learning.Services.Defects.Operations.{
  refused, moved, move, move_unless_there, transition,
}
use mathlib.Core.Path.{subst}

-- What the fields of a defect say in each status: before it is resolved it has no resolution and no
-- times of an end, and someone is in charge while it is in progress; from then on it has a
-- resolution that is not empty and its time, and a closing time exactly when it is closed.
abbrev pub Fields : DefectStatus → (assignee : Bool) → String → Option ℕ → Option ℕ → Type 0
Fields open_ idle r at end = (r ≡ "") × (at ≡ none) × (end ≡ none)
Fields in_progress idle r at end = (idle ≡ false) × (r ≡ "") × (at ≡ none) × (end ≡ none)
Fields reopened idle r at end = (r ≡ "") × (at ≡ none) × (end ≡ none)
Fields resolved idle r at end = (is_blank r ≡ false) × (is_some at ≡ true) × (end ≡ none)
Fields verified idle r at end = (is_blank r ≡ false) × (is_some at ≡ true) × (end ≡ none)
Fields closed idle r at end = (is_blank r ≡ false) × (is_some at ≡ true) × (is_some end ≡ true)

module _ (strip : String → String) where
  abbrev pub Fits : Defect → Type 0
  Fits d = Fields d.status (is_blank (strip d.assignee)) d.resolution d.resolved_at d.closed_at

  pub moved-Fits :
      (now : ℕ) (p : Transition) (d : Defect)
      → Fits d
      → allowed d.status p.status ≡ true
      → refused strip d p ≡ false
      → Fits (moved strip now p d)
  unfolding moved
  moved-Fits now p d fits may passes = ground arith

  -- Every stored defect stands under its id, and its fields fit its status.
  abbrev pub AllFit : Store → Type 0
  AllFit s = Every (λ k d. Fits d × (d.id ≡ k)) s.defects

  abbrev Kept : {B : Type 0} → Result ServiceError B → Store → Type 0
  Kept r s = AllFit s

  moved-id : (now : ℕ) (p : Transition) (d : Defect) → (moved strip now p d).id ≡ d.id
  unfolding moved
  moved-id now p d = ground arith

  move-Kept :
      (id : ℕ) (p : Transition) (now : ℕ) (d : Defect) (s : Store)
      → Fits d
      → AllFit s
      → Holds Kept (move strip d p now) s
  unfolding move
  move-Kept id p now d s fits all =
      bind-raise_if _ _ _ s (λ _. all)
        λ may.
          bind-active _ _ s (λ _. all)
            λ project _ _.
              bind-raise_if _ _ _ s (λ _. all)
                λ passes.
                  bind-update defects_repo no_clash _ _ s (λ _. all)
                    λ _. bind-modify _ _ _ (
                      Holds-pure _ _ (
                        Every-insert (λ k x. Fits x × (x.id ≡ k)) (moved strip now p d).id
                          (moved strip now p d) s.defects all
                          (moved-Fits now p d fits (true_of_not _ may) passes, refl)))

  -- A transition keeps every stored defect well formed, whether it returns or raises.
  pub transition-AllFit :
      (id : ℕ) (p : Transition) (now : ℕ) (s : Store)
      → AllFit s
      → AllFit (transition strip id p now s).1
  unfolding transition move_unless_there
  transition-AllFit id p now s all =
      (bind-find {Post = Kept} _ _ _ s (λ _. all)
        λ d found.
          let (fits, own) = Every-lookup (λ k x. Fits x × (x.id ≡ k)) id d s.defects all found in
          elim (Bool-cases (same_status d.status p.status)) [
            | inl there ↦ rw there (Holds-pure _ s all)
            | inr away ↦ rw away (move-Kept id p now d s fits all)
          ]).at

  -- What a transition of the defect `d` that returns `e` has done.
  unfoldable pub Moved : ℕ → Transition → ℕ → Store → Result ServiceError Defect → Store → Type 0
  Moved id p now s (err x) s' = Unit
  Moved id p now s (ok e) s' =
      (d : Defect) × (lookup id s.defects ≡ some d)
      × (((same_status d.status p.status ≡ true) × (e ≡ d) × (s' ≡ s))
          ⊎ ((allowed d.status p.status ≡ true)
              × ((project : Project) × (lookup d.project_id s.projects ≡ some project)
                  × (project.status ≡ ProjectStatus.active))
              × (e.status ≡ p.status)
              × (lookup e.id s'.defects ≡ some e)
              × ((event : AuditEvent) × (s'.audits ≡ s.audits ++ event ∷ [])
                  × (event.entity_id ≡ e.id)
                  × (event.comment ≡ p.comment))))

  moved-status : (now : ℕ) (p : Transition) (d : Defect) → (moved strip now p d).status ≡ p.status
  unfolding moved
  moved-status now p d = ground arith

  move-Moved :
      (id : ℕ) (p : Transition) (now : ℕ) (d : Defect) (s : Store)
      → lookup id s.defects ≡ some d
      → Holds (Moved id p now s) (move strip d p now) s
  unfolding move Moved
  move-Moved id p now d s found =
      bind-raise_if _ _ _ s (λ _. tt)
        λ may.
          bind-active _ _ s (λ _. tt)
            λ project at runs.
              bind-raise_if _ _ _ s (λ _. tt)
                λ passes.
                  bind-update defects_repo no_clash _ _ s (λ _. tt)
                    λ _. bind-modify _ _ _ (
                      Holds-pure _ _ (
                        d,
                        found,
                        inr (
                          true_of_not _ may,
                          (project, at, runs),
                          moved-status now p d,
                          lookup-insert_self (moved strip now p d).id (moved strip now p d)
                              s.defects,
                          (_, refl, refl, refl),
                        ),
                      ))

  -- A transition that returns found the defect, and either left everything as it was, since the
  -- defect had the status already, or went along an edge of the graph of transitions in a project
  -- that is active, stored the defect in the new status, and appended one audit event on it with the
  -- caller's comment.
  pub transition-Moved :
      (id : ℕ) (p : Transition) (now : ℕ) (s s' : Store) (e : Defect)
      → transition strip id p now s ≡ (ok e, s')
      → Moved id p now s (ok e) s'
  unfolding transition move_unless_there Moved
  transition-Moved id p now s s' e h =
      subst (λ (r : Result ServiceError Defect × Store). Moved id p now s r.0 r.1) h outcome.at
    where
      outcome : Holds (Moved id p now s) (transition strip id p now) s
      outcome =
          bind-find _ _ _ s (λ _. tt)
            λ d found. elim (Bool-cases (same_status d.status p.status)) [
              | inl there ↦ rw there (Holds-pure _ s (d, found, inl (there, refl, refl)))
              | inr away ↦ rw away (move-Moved id p now d s found)
            ]
