-- ===== src/Models.antt =====
-- The rows of backend/app/models.py that the components share. Ids are 32 hexadecimal digits
-- (`new_id`), so a number stands for each, and the order of the texts is that of the numbers.
-- Times are whole seconds since the epoch, in UTC. Columns that only the web pages show (created
-- from a form and never tested by the code modelled here) are left out: JSON parameters,
-- descriptions, relationships and indexes.
use batch_inference_console.Prelude.Int.{ℤ}
use batch_inference_console.Prelude.{ℕ, Bool, true, false, Option, Text}

pub data ModelSource : Type 0 where
  shared personal : ModelSource

pub data JobStatus : Type 0 where
  pending queued running paused succeeded completed failed canceled : JobStatus

-- `TERMINAL_STATUSES`
abbrev pub is_terminal : JobStatus → Bool
is_terminal JobStatus.succeeded = true
is_terminal JobStatus.completed = true
is_terminal JobStatus.failed = true
is_terminal JobStatus.canceled = true
is_terminal _ = false

-- `PIN_BLOCKING_STATUSES`
abbrev pub is_pin_blocking : JobStatus → Bool
is_pin_blocking JobStatus.pending = true
is_pin_blocking JobStatus.queued = true
is_pin_blocking JobStatus.running = true
is_pin_blocking _ = false

-- `MODEL_EDITABLE_STATUSES`
abbrev pub is_model_editable : JobStatus → Bool
is_model_editable JobStatus.paused = true
is_model_editable JobStatus.canceled = true
is_model_editable JobStatus.failed = true
is_model_editable _ = false

-- `DOWNLOADABLE_STATUSES`
abbrev pub is_downloadable : JobStatus → Bool
is_downloadable JobStatus.succeeded = true
is_downloadable JobStatus.completed = true
is_downloadable JobStatus.canceled = true
is_downloadable _ = false

-- `JobStatus.x == y`
abbrev pub status_eq : JobStatus → JobStatus → Bool
status_eq JobStatus.pending JobStatus.pending = true
status_eq JobStatus.queued JobStatus.queued = true
status_eq JobStatus.running JobStatus.running = true
status_eq JobStatus.paused JobStatus.paused = true
status_eq JobStatus.succeeded JobStatus.succeeded = true
status_eq JobStatus.completed JobStatus.completed = true
status_eq JobStatus.failed JobStatus.failed = true
status_eq JobStatus.canceled JobStatus.canceled = true
status_eq _ _ = false

pub record User : Type 0 where
  pub id : ℕ
  pub llm_token_encrypted : Option Text
  pub max_storage_mb : ℕ
  pub notify_email : Bool

pub record Job : Type 0 where
  pub id : ℕ
  pub name : Text
  pub user_id : ℕ
  pub model_config_id : Option ℕ
  pub model_source : ModelSource
  pub personal_model_name : Option Text
  pub status : JobStatus
  pub priority : ℕ
  pub pinned : Bool
  pub pinned_at : Option ℕ
  pub concurrency : ℕ
  pub input_path : Text
  pub input_size : ℕ
  pub result_size : ℕ
  pub total_items : ℕ
  pub completed_items : ℕ
  pub failed_items : ℕ
  pub prompt_tokens : ℕ
  pub completion_tokens : ℕ
  pub cached_tokens : ℕ
  pub billing_enabled : Bool
  pub billed_prompt_tokens : ℕ
  pub billed_completion_tokens : ℕ
  pub billed_cached_tokens : ℕ
  pub billing_seq : ℕ
  pub error : Option Text
  pub worker_id : Option Text
  pub files_purged_at : Option ℕ
  pub created_at : Option ℕ
  pub queued_at : Option ℕ
  pub started_at : Option ℕ
  pub finished_at : Option ℕ

pub data BillingStatus : Type 0 where
  pending succeeded failed : BillingStatus

pub record BillingRecord : Type 0 where
  pub request_id : Text
  pub user_id : ℕ
  pub job_id : Option ℕ
  pub key_encrypted : Option Text
  pub model_name : Text
  pub prompt_tokens : ℕ
  pub completion_tokens : ℕ
  pub cached_tokens : ℕ
  pub note : Option Text
  pub status : BillingStatus
  pub attempts : ℕ
  pub next_attempt_at : Option ℕ
  pub error_code : Option Text
  pub error : Option Text
  pub quota : Option ℤ
  pub billing_source : Option Text
  pub duplicate : Bool
  pub billed_at : Option ℕ
