-- ===== src/Services/Defects/Edits.antt =====
-- `DefectService.update`, backend/app/services/defects.py, and what it keeps.
use qa_platform_learning.Common.Tests.{
  ℕ, ◌≡◌, refl, inl, inr, Bool, true, false, ◌&&◌, String, Option, none, some, List, [], ◌∷◌,
  is_blank, nat_beq, if◌then◌else◌, arith, nat_keyed, text_keyed, ◌==◌, Bool-cases,
}
use qa_platform_learning.Common.Lists.{is_empty}
use qa_platform_learning.Common.Dict.{Every-insert, Every-lookup}
use qa_platform_learning.Common.Result.{Result, pure, raise_if, ◌>>=◌, ◌>>◌}
use qa_platform_learning.Common.Holds.{Holds, Holds-pure, bind-find, bind-raise_if, bind-modify}
use qa_platform_learning.Services.Errors.{ServiceError, invalid_state}
use qa_platform_learning.Services.Repository.{require_item, update_item, bind-update, no_clash}
use qa_platform_learning.Services.Models.Audit.{
  Value, text_value, severity_value, priority_value, steps_value, Change, updated,
}
use qa_platform_learning.Services.Store.{Store, Call, defects_repo, record_audit}
use qa_platform_learning.Services.Defects.Model.{
  in_progress, closed, reopened, same_status, severity_rank, priority_rank, Defect, Edit,
  Transition,
}
use qa_platform_learning.Services.Defects.Operations.{
  defect_event, move, move_unless_there, transition,
}
use qa_platform_learning.Common.Dict.{lookup}
use qa_platform_learning.Common.Result.{err, find}
use qa_platform_learning.Services.Defects.Lifecycle.{Fits, AllFit}

abbrev same_texts : List String → List String → Bool
same_texts [] [] = true
same_texts (s ∷ ss) (t ∷ ts) = s == t && same_texts ss ts
same_texts _ _ = false

abbrev or_old : {A : Type 0} → A → Option A → A
or_old a none = a
or_old _ (some a) = a

-- `getattr(defect, field) != value`, where the field was given.
abbrev change :
    {A : Type 0} → String → (A → Value) → (A → A → Bool) → A → Option A → List Change → List Change
change field value same old none cs = cs
change field value same old (some new) cs =
    if same old new
    then cs
    else record { field = field; before = value old; after = value new } ∷ cs

abbrev text_change : String → String → Option String → List Change → List Change
text_change field = change field text_value (λ s t. s == t)

-- The changed fields, with their values before and after, in the order of the payload's model.
unfoldable pub edit_changes : Edit → Defect → List Change
edit_changes p d = text_change "title" d.title p.title (
    text_change "description" d.description p.description (
      change "severity" severity_value (λ a b. nat_beq (severity_rank a) (severity_rank b))
        d.severity p.severity
        (change "priority" priority_value (λ a b. nat_beq (priority_rank a) (priority_rank b))
          d.priority p.priority
          (text_change "assignee" d.assignee p.assignee (
            text_change "environment" d.environment p.environment (
              change "reproduction_steps" steps_value same_texts d.reproduction_steps
                p.reproduction_steps
                (text_change "expected_result" d.expected_result p.expected_result
                  (text_change "actual_result" d.actual_result p.actual_result []))))))))

-- `defect.model_copy(update=effective_changes)`
unfoldable pub edited : ℕ → Edit → Defect → Defect
edited now p d = record d {
  title = or_old d.title p.title;
  description = or_old d.description p.description;
  severity = or_old d.severity p.severity;
  priority = or_old d.priority p.priority;
  assignee = or_old d.assignee p.assignee;
  environment = or_old d.environment p.environment;
  reproduction_steps = or_old d.reproduction_steps p.reproduction_steps;
  expected_result = or_old d.expected_result p.expected_result;
  actual_result = or_old d.actual_result p.actual_result;
  updated_at = now;
}

module _ (strip : String → String) where
  unfoldable pub save : Defect → Edit → ℕ → Call Defect
  unfolding edited
  save d p now = do
    raise_if (same_status d.status in_progress && is_blank (strip (edited now p d).assignee))
        invalid_state
    update_item defects_repo no_clash (edited now p d)
    record_audit (defect_event (edited now p d) updated (edit_changes p d) "")
    pure (edited now p d)

  unfoldable pub save_changed : Defect → Edit → ℕ → Call Defect
  unfolding save
  save_changed d p now = if is_empty (edit_changes p d) then pure d else save d p now

  unfoldable pub update : ℕ → Edit → ℕ → Call Defect
  unfolding save_changed
  update id p now = do
    d ← require_item defects_repo id
    raise_if (same_status d.status closed) invalid_state
    save_changed d p now

  edited-Fits :
      (now : ℕ) (p : Edit) (d : Defect)
      → Fits strip d
      → (same_status d.status in_progress && is_blank (strip (edited now p d).assignee)) ≡ false
      → Fits strip (edited now p d)
  unfolding edited
  edited-Fits now p d fits passes = ground arith

  abbrev Kept : {B : Type 0} → Result ServiceError B → Store → Type 0
  Kept r s = AllFit strip s

  save-Kept :
      (d : Defect) (p : Edit) (now : ℕ) (s : Store)
      → Fits strip d
      → AllFit strip s
      → Holds Kept (save d p now) s
  unfolding save
  save-Kept d p now s fits all =
      bind-raise_if _ _ _ s (λ _. all)
        λ passes.
          bind-update defects_repo no_clash _ _ s (λ _. all)
            λ _. bind-modify _ _ _ (
              Holds-pure _ _ (
                Every-insert (λ k x. Fits strip x × (x.id ≡ k)) (edited now p d).id (edited now p d)
                  s.defects all (edited-Fits now p d fits passes, refl)))

  -- An edit keeps every stored defect well formed, whether it returns or raises.
  pub update-AllFit :
      (id : ℕ) (p : Edit) (now : ℕ) (s : Store)
      → AllFit strip s
      → AllFit strip (update id p now s).1
  unfolding update save_changed
  update-AllFit id p now s all =
      (bind-find {Post = Kept} _ _ _ s (λ _. all)
        λ d found.
          bind-raise_if _ _ _ s (λ _. all)
            λ _.
              let (fits, own) =
                Every-lookup (λ k x. Fits strip x × (x.id ≡ k)) id d s.defects all found in
              elim (Bool-cases (is_empty (edit_changes p d))) [
                | inl same ↦ rw same (Holds-pure _ s all)
                | inr differs ↦ rw differs (save-Kept d p now s fits all)
              ]).at

  -- A closed defect is not edited, and moves nowhere but to reopened: every edit, and every
  -- transition to another status than closed and reopened, raises an invalid-state error and changes
  -- nothing.
  pub closed_only_reopens :
      (id : ℕ) (p : Edit) (q : Transition) (now : ℕ) (s : Store) (d : Defect)
      → lookup id s.defects ≡ some d
      → d.status ≡ closed
      → same_status closed q.status ≡ false
      → same_status reopened q.status ≡ false
      → (update id p now s ≡ (err invalid_state, s))
        × (transition strip id q now s ≡ (err invalid_state, s))
  unfolding update transition move_unless_there move ◌>>=◌
  closed_only_reopens id p q now s d found ended away back = (
    rw (found, update, ◌>>=◌, find) (rw (ended, raise_if) refl),
    rw (found, transition, ◌>>=◌, find) (rw ended (rw away (rw back refl))),
  )
