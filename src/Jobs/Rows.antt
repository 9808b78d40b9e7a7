-- ===== src/Jobs/Rows.antt =====
-- The writes to one row of the jobs table: `_settle_orphan`, the handlers of backend/app/api/jobs.py,
-- `requeue_preempted` of backend/app/services/pins.py, and `_mark_running`, `_fail_job`, `_finalize`
-- and their companions of backend/app/worker/runner.py.
use batch_inference_console.Prelude.{
  ℕ, Bool, true, false, Option, none, some, ◌∷◌, Text, take, max, if◌then◌else◌,
}
use batch_inference_console.Models.{
  Job, JobStatus, pending, queued, running, paused, succeeded, completed, failed, canceled,
}

-- `job.finished_at` and `job.pinned` when a job ends
abbrev end_at : JobStatus → ℕ → Option ℕ → Option ℕ
end_at canceled now old = some now
end_at succeeded now old = some now
end_at completed now old = some now
end_at _ now old = old

abbrev pin_after : JobStatus → Bool → Bool
pin_after canceled old = false
pin_after succeeded old = false
pin_after completed old = false
pin_after _ old = old

-- the larger of the stored counters and the live ones becomes the job's
unfoldable pub settle_orphan : ℕ → ℕ → JobStatus → ℕ → Job → Job
settle_orphan live_completed live_failed new_status now job = record job {
  completed_items = max job.completed_items live_completed;
  failed_items = max job.failed_items live_failed;
  status = new_status;
  worker_id = none;
  finished_at = elim new_status [ canceled ↦ some now | _ ↦ job.finished_at ];
  pinned = elim new_status [ canceled ↦ false | _ ↦ job.pinned ];
}

-- a job that no worker holds is cancelled at once
unfoldable pub cancel_row : ℕ → Job → Job
cancel_row now job = record job { status = canceled; finished_at = some now; pinned = false }

unfoldable pub pause_row : Job → Job
pause_row job = record job { status = paused }

unfoldable pub resume_row : ℕ → Job → Job
resume_row now job = record job {
  status = queued;
  error = none;
  finished_at = none;
  queued_at = some now;
}

unfoldable pub retry_row : ℕ → Job → Job
retry_row now job = record job {
  failed_items = 0;
  status = queued;
  error = none;
  finished_at = none;
  queued_at = some now;
}

-- a job that is pinned already keeps the time of its pin
unfoldable pub pin_row : ℕ → Job → Job
pin_row now job = record job {
  pinned = true;
  pinned_at = if job.pinned then job.pinned_at else some now;
}

unfoldable pub unpin_row : Job → Job
unpin_row job = record job { pinned = false; pinned_at = none }

-- `_mark_running`
unfoldable pub mark_running_row : Text → ℕ → ℕ → ℕ → Job → Job
mark_running_row worker now done bad job = record job {
  status = running;
  worker_id = some worker;
  started_at = some now;
  error = none;
  completed_items = done;
  failed_items = bad;
}

-- `_fail_job`
unfoldable pub fail_row : Text → ℕ → Job → Job
fail_row message now job = record job {
  status = failed;
  error = some (take 2000 message);
  finished_at = some now;
  pinned = false;
}

-- the job is handed back to the queue because a pinned job holds its model
unfoldable pub give_back_row : Job → Job
give_back_row job = record job { status = queued; worker_id = none }

-- `_pause_for_billing`
unfoldable pub pause_for_billing_row : Text → Job → Job
pause_for_billing_row problem job = record job {
  status = paused;
  worker_id = none;
  error = some (take 2000 problem);
}

-- What a runner has counted when it stops.
pub record Counts : Type 0 where
  pub completed : ℕ
  pub failed : ℕ
  pub prompt_tokens : ℕ
  pub completion_tokens : ℕ
  pub cached_tokens : ℕ
  pub result_size : ℕ

abbrev lets_go : JobStatus → Option Text → Option Text
lets_go paused old = none
lets_go queued old = none
lets_go _ old = old

abbrev error_after : JobStatus → Option Text → Option Text → Option Text
error_after paused (some (c ∷ s)) old = some (take 2000 (c ∷ s))
error_after _ billing_error old = old

-- `_finalize`
unfoldable pub finalize_row : JobStatus → Counts → Option Text → ℕ → Job → Job
finalize_row status c billing_error now job = record job {
  status = status;
  completed_items = c.completed;
  failed_items = c.failed;
  prompt_tokens = c.prompt_tokens;
  completion_tokens = c.completion_tokens;
  cached_tokens = c.cached_tokens;
  result_size = c.result_size;
  finished_at = end_at status now job.finished_at;
  pinned = pin_after status job.pinned;
  worker_id = lets_go status job.worker_id;
  error = error_after status billing_error job.error;
}

-- `_flush_db`
unfoldable pub flush_row : Counts → Job → Job
flush_row c job = record job {
  completed_items = c.completed;
  failed_items = c.failed;
  prompt_tokens = c.prompt_tokens;
  completion_tokens = c.completion_tokens;
  cached_tokens = c.cached_tokens;
  result_size = c.result_size;
}

-- The statuses in which `run` ends: `_dispatch` came to its end, or a stop signal was seen.
abbrev pub is_final : JobStatus → Bool
is_final succeeded = true
is_final completed = true
is_final canceled = true
is_final paused = true
is_final queued = true
is_final _ = false

-- The statuses in which a claimed job is not run.
abbrev pub is_over : JobStatus → Bool
is_over canceled = true
is_over succeeded = true
is_over completed = true
is_over _ = false

-- the statuses that `cancel_job`, `resume_job` and `pin_job` accept
abbrev pub can_cancel_at_once : JobStatus → Bool
can_cancel_at_once queued = true
can_cancel_at_once pending = true
can_cancel_at_once paused = true
can_cancel_at_once _ = false

abbrev pub can_resume : JobStatus → Bool
can_resume paused = true
can_resume failed = true
can_resume canceled = true
can_resume _ = false

abbrev pub can_pin : JobStatus → Bool
can_pin queued = true
can_pin running = true
can_pin paused = true
can_pin _ = false
