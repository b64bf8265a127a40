-- ===== src/Services/Models/Audit.antt =====
-- The audit trail, backend/app/domain/models.py.
use qa_platform_learning.Common.Tests.{ℕ, String, Option, List}
use qa_platform_learning.Services.Models.Status.{SuiteStatus, SnapshotScope}
use qa_platform_learning.Services.Defects.Model.{DefectStatus, Severity, Priority}

-- A field's value before or after a change; `absent` is None.
pub data Value : Type 0 where
  absent : Value
  text_value : String → Value
  number_value : ℕ → Value
  id_value : Option ℕ → Value
  time_value : Option ℕ → Value
  steps_value : List String → Value
  status_value : DefectStatus → Value
  severity_value : Severity → Value
  priority_value : Priority → Value
  suite_status_value : SuiteStatus → Value
  scope_value : SnapshotScope → Value

-- `AuditChange`, with the field's name.
pub record Change : Type 0 where
  pub field : String
  pub before : Value
  pub after : Value

pub data AuditAction : Type 0 where
  created updated status_changed deleted snapshot_created : AuditAction

-- `AuditEvent`, less its id, time and actor.
pub record AuditEvent : Type 0 where
  pub project_id : ℕ
  pub entity_type : String
  pub entity_id : ℕ
  pub action : AuditAction
  pub changes : List Change
  pub comment : String
