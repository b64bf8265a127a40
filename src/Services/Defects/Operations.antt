-- ===== src/Services/Defects/Operations.antt =====
-- `DefectService.transition`, backend/app/services/defects.py. A call runs under the business lock, so
-- it is one step. Ids are parsed; `now` is what `utc_now` reads; `strip` is `str.strip`.
use qa_platform_learning.Common.Tests.{
  ℕ, Bool, true, false, not, String, Option, none, some, List, [], ◌∷◌, is_blank, nat_beq,
  if◌then◌else◌, nat_keyed, text_keyed, ◌==◌,
}
use qa_platform_learning.Common.Result.{pure, raise_if, ◌>>=◌, ◌>>◌}
use qa_platform_learning.Services.Errors.{invalid_state}
use qa_platform_learning.Services.Repository.{require_item, update_item, no_clash}
use qa_platform_learning.Services.Models.Status.{execution_status_keyed}
use qa_platform_learning.Services.Models.Audit.{
  AuditAction, AuditEvent, status_value, text_value, time_value, Change, status_changed,
}
use qa_platform_learning.Services.Defects.Model.{
  DefectStatus, in_progress, resolved, closed, reopened, same_status, allowed, Defect, Transition,
}
use qa_platform_learning.Services.Store.{Call, defects_repo, require_active_project, record_audit}

abbrev pub defect_event : Defect → AuditAction → List Change → String → AuditEvent
defect_event d action changes comment = record {
  project_id = d.project_id;
  entity_type = "defect";
  entity_id = d.id;
  action = action;
  changes = changes;
  comment = comment;
}

abbrev pub or_empty : Option String → String
or_empty none = ""
or_empty (some t) = t

module _ (strip : String → String) where
  -- The guards on the target, in the code's order.
  abbrev pub refused : Defect → Transition → Bool
  refused d p = elim p.status [
    | in_progress ↦ is_blank (strip d.assignee)
    | resolved ↦ is_blank (or_empty p.resolution)
    | reopened ↦ is_blank p.comment
    | _ ↦ false
  ]

  -- `defect.model_copy(update=updates)`
  unfoldable pub moved : ℕ → Transition → Defect → Defect
  moved now p d =
      let u = record d { status = p.status; updated_at = now } in
      elim p.status [
        | resolved ↦ record u {
          resolution = or_empty p.resolution;
          resolved_at = some now;
          closed_at = none;
        }
        | closed ↦ record u { closed_at = some now }
        | reopened ↦ record u { resolution = ""; resolved_at = none; closed_at = none }
        | _ ↦ u
      ]

abbrev same_time : Option ℕ → Option ℕ → Bool
same_time none none = true
same_time (some a) (some b) = nat_beq a b
same_time _ _ = false

abbrev pub unless : Bool → Change → List Change → List Change
unless true c cs = cs
unless false c cs = c ∷ cs

abbrev status_change : Defect → Defect → List Change → List Change
status_change d e =
    unless (same_status d.status e.status)
      (record { field = "status"; before = status_value d.status; after = status_value e.status })

abbrev resolution_change : Defect → Defect → List Change → List Change
resolution_change d e = unless (d.resolution == e.resolution) (record {
  field = "resolution";
  before = text_value d.resolution;
  after = text_value e.resolution;
})

abbrev resolved_change : Defect → Defect → List Change → List Change
resolved_change d e = unless (same_time d.resolved_at e.resolved_at) (record {
  field = "resolved_at";
  before = time_value d.resolved_at;
  after = time_value e.resolved_at;
})

abbrev closed_change : Defect → Defect → List Change → List Change
closed_change d e = unless (same_time d.closed_at e.closed_at) (record {
  field = "closed_at";
  before = time_value d.closed_at;
  after = time_value e.closed_at;
})

-- `_changes_between` over the fields that the target audits.
unfoldable pub audited_changes : DefectStatus → Defect → Defect → List Change
audited_changes target d e = elim target [
  | resolved ↦
      status_change d e (resolution_change d e (resolved_change d e (closed_change d e [])))
  | closed ↦ status_change d e (closed_change d e [])
  | reopened ↦
      status_change d e (resolution_change d e (resolved_change d e (closed_change d e [])))
  | _ ↦ status_change d e []
]

module _ (strip : String → String) where
  unfoldable pub move : Defect → Transition → ℕ → Call Defect
  unfolding moved
  move d p now = do
    raise_if (not (allowed d.status p.status)) invalid_state
    _ ← require_active_project d.project_id
    raise_if (refused strip d p) invalid_state
    update_item defects_repo no_clash (moved strip now p d)
    record_audit (
        defect_event (moved strip now p d) status_changed
          (audited_changes p.status d (moved strip now p d)) p.comment)
    pure (moved strip now p d)

  unfoldable pub move_unless_there : Defect → Transition → ℕ → Call Defect
  unfolding move
  move_unless_there d p now = if same_status d.status p.status then pure d else move d p now

  unfoldable pub transition : ℕ → Transition → ℕ → Call Defect
  unfolding move_unless_there
  transition id p now = do d ← require_item defects_repo id; move_unless_there d p now
