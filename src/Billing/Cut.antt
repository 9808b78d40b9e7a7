-- ===== src/Billing/Cut.antt =====
-- Cutting a job's unbilled usage into a billing record (`rebase`, `cut`, `cut_before_change` of
-- backend/app/services/billing.py). `cut` is a read, `plan`, and a transaction, `commit`, which
-- tests the sequence number that was read: other sessions may run between the two.
use batch_inference_console.Prelude.{
  ℕ, ◌+◌, ◌-◌, Bool, true, false, not, ◌&&◌, [], ◌∷◌, ◌++◌, Option, none, some, Text, codes, take,
  ◌==◌, if◌then◌else◌, or_else, min,
}
use batch_inference_console.Models.{Job, User, BillingRecord, BillingStatus}
use batch_inference_console.Database.{Schema, Db}
use batch_inference_console.Billing.RequestId.{request_id, decimal}

-- What `rebase` writes into a row, from the counters of the job as it was read.
unfoldable pub rebase_row : Job → Bool → Job → Job
rebase_row job enabled row = record row {
  billing_enabled = enabled;
  billed_prompt_tokens = job.prompt_tokens;
  billed_completion_tokens = job.completion_tokens;
  billed_cached_tokens = job.cached_tokens;
}

-- The flag is set, and what was used so far counts as billed.
unfoldable pub rebase : Job → Bool → Job
unfolding rebase_row
rebase job enabled = rebase_row job enabled job

-- `max(0, used - billed)` for prompt and completion tokens; `-` on ℕ stops at 0 too.
abbrev pub prompt_delta : Job → ℕ
prompt_delta job = job.prompt_tokens - job.billed_prompt_tokens

abbrev pub completion_delta : Job → ℕ
completion_delta job = job.completion_tokens - job.billed_completion_tokens

-- Cached tokens are part of the prompt tokens, so no more of them are cut.
abbrev pub cached_delta : Job → ℕ
cached_delta job = min (job.cached_tokens - job.billed_cached_tokens) (prompt_delta job)

-- The early returns of `cut`: no such job, billing off, nothing new.
abbrev pub has_unbilled : Job → Bool
has_unbilled job = job.billing_enabled && not (prompt_delta job == 0 && completion_delta job == 0)

abbrev pub plan_job : Option Job → Option Job
plan_job none = none
plan_job (some job) = if has_unbilled job then some job else none

-- `note or f"…"`, where an empty note counts as none, cut to 255 characters
note_text : Option Text → Job → ℕ → Text
note_text (some (c ∷ s)) job seq = take 255 (c ∷ s)
note_text _ job seq =
    take 255 (codes "批量推理「" ++ (job.name ++ (codes "」第 " ++ (decimal seq ++ codes " 笔"))))

abbrev key_of : Option User → Option Text
key_of none = none
key_of (some user) = user.llm_token_encrypted

-- The new record, from the job as it was read.
unfoldable pub record_of : Job → Option User → Option Text → BillingRecord
unfolding note_text
record_of job user memo = record {
  request_id = request_id job.id (job.billing_seq + 1);
  user_id = job.user_id;
  job_id = some job.id;
  key_encrypted = key_of user;
  model_name = or_else job.personal_model_name [];
  prompt_tokens = prompt_delta job;
  completion_tokens = completion_delta job;
  cached_tokens = cached_delta job;
  note = some (note_text memo job (job.billing_seq + 1));
  status = BillingStatus.pending;
  attempts = 0;
  next_attempt_at = none;
  error_code = none;
  error = none;
  quota = none;
  billing_source = none;
  duplicate = false;
  billed_at = none;
}

-- The values that the `UPDATE` writes into the row.
unfoldable pub advance : Job → Job → Job
advance job row = record row {
  billing_seq = job.billing_seq + 1;
  billed_prompt_tokens = job.billed_prompt_tokens + prompt_delta job;
  billed_completion_tokens = job.billed_completion_tokens + completion_delta job;
  billed_cached_tokens = job.billed_cached_tokens + cached_delta job;
}

-- `WHERE id = … AND billing_seq = …` matches one row, or none.
abbrev pub is_current : Job → Option Job → Bool
is_current job none = false
is_current job (some row) = row.billing_seq == job.billing_seq

module _ (S : Schema) where
  unfoldable pub plan : Db S → ℕ → Option Job
  plan db job_id = plan_job (S.jobs.get job_id db.jobs)

  -- The transaction: advance the row and add the record, or roll back if another cut came between.
  unfoldable pub commit : Db S → ℕ → Option Text → Job → Db S × Option BillingRecord
  commit db job_id memo job =
      let r = record_of job (S.users.get job.user_id db.users) memo in
      if is_current job (S.jobs.get job_id db.jobs)
      then (
        record db {
          jobs = S.jobs.update job_id (advance job) db.jobs;
          records = S.records.insert r db.records;
        },
        some r,
      )
      else (db, none)

  abbrev pub commit_plan : Db S → ℕ → Option Text → Option Job → Db S × Option BillingRecord
  commit_plan db _ _ none = (db, none)
  commit_plan db job_id memo (some job) = commit db job_id memo job

  unfoldable pub cut : Db S → ℕ → Option Text → Db S × Option BillingRecord
  unfolding plan commit
  cut db job_id memo = commit_plan db job_id memo (plan db job_id)

  -- `db.refresh(job)`
  abbrev pub refresh : Option Job → Job → Job
  refresh none job = job
  refresh (some row) job = row

  -- The `if job.billing_enabled` of `cut_before_change`: cut, and read the job again.
  unfoldable pub cut_if : Bool → Db S → ℕ → Job → Db S × Job
  unfolding cut
  cut_if false db job_id job = (db, job)
  cut_if true db job_id job =
      let db' = (cut db job_id none).0 in (db', refresh (S.jobs.get job_id db'.jobs) job)

  -- `cut_before_change`: the job is billed for what it used, then rebased. The rebase is written
  -- by the caller's commit.
  unfoldable pub cut_before_change : Db S → ℕ → Job → Bool → Db S
  unfolding cut_if rebase_row
  cut_before_change db job_id job enabled_after =
      let (db', job') = cut_if job.billing_enabled db job_id job in
      record db' { jobs = S.jobs.update job_id (rebase_row job' enabled_after) db'.jobs }
