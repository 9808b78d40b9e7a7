-- ===== src/Tests/Samples.antt =====
-- Rows and settings that the runs share.
use batch_inference_console.Prelude.{true, false, none, some, [], ◌∷◌, codes}
use batch_inference_console.Models.{Job, User, BillingRecord, BillingStatus, JobStatus, ModelSource}
use batch_inference_console.Database.{Db, list_schema}

-- A personal job that has used 100 prompt, 20 completion and 40 cached tokens, all unbilled.
abbrev pub sample_job : Job
sample_job = record {
  id = 0;
  name = codes "eval";
  user_id = 0;
  model_config_id = none;
  model_source = ModelSource.personal;
  personal_model_name = some (codes "qwen");
  status = JobStatus.running;
  priority = 100;
  pinned = false;
  pinned_at = none;
  concurrency = 0;
  input_path = codes "/data/uploads/0.jsonl";
  input_size = 500;
  result_size = 0;
  total_items = 3;
  completed_items = 0;
  failed_items = 0;
  prompt_tokens = 100;
  completion_tokens = 20;
  cached_tokens = 40;
  billing_enabled = true;
  billed_prompt_tokens = 0;
  billed_completion_tokens = 0;
  billed_cached_tokens = 0;
  billing_seq = 0;
  error = none;
  worker_id = none;
  files_purged_at = none;
  created_at = some 1000;
  queued_at = some 1010;
  started_at = none;
  finished_at = none;
}

abbrev pub sample_user : User
sample_user = record {
  id = 0;
  llm_token_encrypted = some (codes "enc");
  max_storage_mb = 0;
  notify_email = true;
}

abbrev pub sample_record : BillingRecord
sample_record = record {
  request_id = codes "bic-0-1";
  user_id = 0;
  job_id = some 0;
  key_encrypted = some (codes "enc");
  model_name = codes "qwen";
  prompt_tokens = 100;
  completion_tokens = 20;
  cached_tokens = 40;
  note = none;
  status = BillingStatus.pending;
  attempts = 0;
  next_attempt_at = none;
  error_code = none;
  error = none;
  quota = none;
  billing_source = none;
  duplicate = false;
  billed_at = none;
}

abbrev pub sample_db : Db list_schema
sample_db = record { jobs = sample_job ∷ []; users = sample_user ∷ []; records = [] }

abbrev pub record_db : Db list_schema
record_db = record {
  jobs = sample_job ∷ [];
  users = sample_user ∷ [];
  records = sample_record ∷ [];
}
