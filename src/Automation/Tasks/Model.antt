-- ===== src/Automation/Tasks/Model.antt =====
-- The task part of backend/app/automation/models.py. An id is a UUID, held as its number, which
-- orders ids as their texts are ordered. `P` is the type of payloads and results.
use qa_platform_learning.Common.Tests.{
  ℕ, Bool, true, false, ◌&&◌, String, Option, none, some, leb, text_between,
}
use qa_platform_learning.Common.Time.{ℤ, pos, negsuc}

pub data TaskStatus : Type 0 where
  queued running retry_wait succeeded failed cancelled dead_letter : TaskStatus

abbrev pub is_terminal : TaskStatus → Bool
is_terminal succeeded = true
is_terminal failed = true
is_terminal cancelled = true
is_terminal dead_letter = true
is_terminal _ = false

abbrev pub is_active : TaskStatus → Bool
is_active queued = true
is_active running = true
is_active retry_wait = true
is_active _ = false

-- `AutomationTask`
pub record Task (P : Type 0) : Type 0 where
  pub id : ℕ
  pub task_type : String
  pub payload : P
  pub queue : String
  pub priority : ℕ
  pub status : TaskStatus
  pub idempotency_key : Option String
  pub request_fingerprint : String
  pub source_schedule_id : Option ℕ
  pub attempts : ℕ
  pub max_attempts : ℕ
  pub available_at : ℕ
  pub lease_owner : Option String
  pub lease_token_hash : Option String
  pub lease_expires_at : Option ℕ
  pub heartbeat_at : Option ℕ
  pub cancel_requested : Bool
  pub result : Option P
  pub error_code : Option String
  pub created_at : ℕ
  pub started_at : Option ℕ
  pub finished_at : Option ℕ

pub record EnqueueResult (P : Type 0) : Type 0 where
  pub task : Task P
  pub replayed : Bool

pub record ClaimedTask (P : Type 0) : Type 0 where
  pub task : Task P
  pub lease_token : String

abbrev in_range : ℕ → ℕ → ℤ → Bool
in_range low high (pos n) = leb low n && leb n high
in_range low high (negsuc _) = false

abbrev key_accepted : Option String → Bool
key_accepted none = true
key_accepted (some k) = text_between 1 200 k

-- The constraints of the fields that `enqueue` fills: the lengths of the texts and the ranges of
-- the numbers.
unfoldable pub model_accepts : String → String → ℤ → Option String → ℤ → Bool
model_accepts task_type queue priority key max_attempts =
    text_between 1 100 task_type
    && text_between 1 100 queue
    && in_range 0 100 priority
    && key_accepted key
    && in_range 1 100 max_attempts
