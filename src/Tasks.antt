-- ===== src/Tasks.antt =====
-- app/models/creation_task.py: the unified task row, its statuses, and the errors that the
-- scheduler raises. A time is a number of microseconds; `progress` is in millionths of a percent.
pub mod Transition
use ai_jin_shu.Common.{ℕ, ◌*◌, ◌≡◌, Bool, true, false, ◌&&◌, ◌||◌, Option, String, str_eq}
use ai_jin_shu.Json.{Json, Fields}

-- The values of the `status` column; any other text is `other`.
pub data Status : Type 0 where
  queued dispatching running paused completed failed cancelled : Status
  other : String → Status

pub data Error : Type 0 where
  task_not_found worker_not_owner task_not_dispatching task_not_active task_not_pausable : Error
  task_not_resumable bad_number : Error
  illegal_transition : Status → Status → Error
  unsupported_final_status : Status → Error
  missing_payload_key : String → String → Error
  context_invalid : String → Error
  unknown_task_type : String → Error

pub record CreationTask : Type 0 where
  pub id : ℕ
  pub public_id : String
  pub user_uuid : String
  pub task_type : String
  pub resource_type : String
  pub resource_id : ℕ
  pub status : Status
  pub priority : ℕ
  pub queue_seq : Option ℕ
  pub retry_count : ℕ
  pub max_retries : ℕ
  pub worker_task_id : Option String
  pub phase : Option String
  pub progress : ℕ
  pub message : Option String
  pub error_code : Option String
  pub error_category : Option String
  pub error_detail : Option String
  pub payload_json : Fields
  pub result_json : Json
  pub resume_cursor_json : Json
  pub last_heartbeat_at : Option ℕ
  pub worker_lease_expires_at : Option ℕ
  pub recovery_count : ℕ
  pub created_at : ℕ
  pub updated_at : ℕ
  pub started_at : Option ℕ
  pub finished_at : Option ℕ

-- TERMINAL_STATUSES
abbrev pub is_terminal : Status → Bool
is_terminal completed = true
is_terminal failed = true
is_terminal cancelled = true
is_terminal s = false

-- PAUSABLE_STATUSES
abbrev pub is_pausable : Status → Bool
is_pausable queued = true
is_pausable dispatching = true
is_pausable running = true
is_pausable s = false

-- RESUMABLE_STATUSES
abbrev pub is_resumable : Status → Bool
is_resumable paused = true
is_resumable failed = true
is_resumable s = false

-- RUNNING_SLOT_STATUSES of concurrency_service.py
abbrev pub holds_slot : Status → Bool
holds_slot dispatching = true
holds_slot running = true
holds_slot s = false

abbrev pub is_queued : Status → Bool
is_queued queued = true
is_queued s = false

abbrev pub is_running : Status → Bool
is_running running = true
is_running s = false

abbrev pub is_dispatching : Status → Bool
is_dispatching dispatching = true
is_dispatching s = false

abbrev pub is_failed : Status → Bool
is_failed failed = true
is_failed s = false

-- The text of a status, as other tables store it.
abbrev pub status_text : Status → String
status_text queued = "queued"
status_text dispatching = "dispatching"
status_text running = "running"
status_text paused = "paused"
status_text completed = "completed"
status_text failed = "failed"
status_text cancelled = "cancelled"
status_text (other s) = s

abbrev pub seconds : ℕ → ℕ
seconds n = n * 1000000

-- `task.task_type == "generation" and task.resource_type == "novel"`
abbrev pub is_novel_generation : CreationTask → Bool
is_novel_generation t = str_eq t.task_type "generation" && str_eq t.resource_type "novel"
