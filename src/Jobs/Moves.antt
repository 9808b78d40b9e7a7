-- ===== src/Jobs/Moves.antt =====
-- `resume_job`, `retry_failed`, `pin_job` and `unpin_job` of backend/app/api/jobs.py,
-- `requeue_preempted` of backend/app/services/pins.py, and the part of `JobRunner.run` of
-- backend/app/worker/runner.py that decides whether a claimed job runs.
use batch_inference_console.Prelude.{
  ℕ, Bool, true, false, not, ◌||◌, Option, none, some, Text, ◌==◌, is_some, if◌then◌else◌,
}
use batch_inference_console.Models.{
  Job, JobStatus, queued, running, paused, failed, is_terminal, is_pin_blocking, status_eq,
}
use batch_inference_console.Database.{Schema}
use batch_inference_console.Redis.{Redis}
use batch_inference_console.Queue.Score.{score, ts_or_now}
use batch_inference_console.Queue.State.{Keys, Signal, enqueue, rescore, clear_signal}
use batch_inference_console.Jobs.Rows.{
  cancel_row, pause_row, resume_row, retry_row, pin_row, unpin_row, mark_running_row, fail_row,
  give_back_row, pause_for_billing_row, can_resume, can_pin, is_over,
}
use batch_inference_console.Jobs.Handlers.{
  World, Answer, ok, not_found, bad_request, Site, find, write, enqueue_job, preempt_for,
  blocked_by_pin,
}

-- What `_load` and `_prepare_billing` find: the model's problem, and the billing's.
pub record Loaded : Type 0 where
  pub model_problem : Option Text
  pub billing_problem : Option Text
  pub missing_input : Text
  pub done_items : ℕ
  pub failed_items : ℕ

module _ (S : Schema) (R : Redis) where
  abbrev pub input_gone : World → Job → Bool
  input_gone w job = is_some job.files_purged_at || not (w.input_exists job.input_path)

  unfoldable pub resume_loaded : World → ℕ → Job → Site S R → Site S R × Answer
  unfolding enqueue clear_signal preempt_for
  resume_loaded w job_id job site =
      let job' = resume_row w.now job in
      let moved =
        write S R (resume_row w.now) job_id site
          (enqueue_job S R (clear_signal R site.keys job_id) job_id job' false w.now) in
      if not (can_resume job.status) || input_gone w job
      then (site, bad_request)
      else (if job.pinned then preempt_for S R w job_id moved else moved, ok)

  unfoldable pub resume_job : World → ℕ → Site S R → Site S R × Answer
  unfolding resume_loaded
  resume_job w job_id site = elim (find S R site job_id) [
    | none ↦ (site, not_found)
    | some job ↦ resume_loaded w job_id job site
  ]

  -- The files of failed items are deleted; their rows in the database are not modelled.
  unfoldable pub retry_loaded : World → ℕ → Job → Site S R → Site S R × Answer
  unfolding enqueue clear_signal
  retry_loaded w job_id job site =
      let job' = retry_row w.now job in
      if not (is_terminal job.status) || (job.failed_items == 0) || input_gone w job
      then (site, bad_request)
      else (
        write S R (retry_row w.now) job_id site
            (enqueue_job S R (clear_signal R site.keys job_id) job_id job' false w.now),
        ok,
      )

  unfoldable pub retry_failed : World → ℕ → Site S R → Site S R × Answer
  unfolding retry_loaded
  retry_failed w job_id site = elim (find S R site job_id) [
    | none ↦ (site, not_found)
    | some job ↦ retry_loaded w job_id job site
  ]

  -- `rescore` where the job is queued
  abbrev pub rescored : JobStatus → ℕ → ℕ → Bool → Option ℕ → ℕ → Keys R → Keys R
  unfolding rescore score
  rescored status job_id priority pinned ts now keys =
      if status_eq status queued
      then (rescore R keys job_id (score priority pinned (ts_or_now ts now))).0
      else keys

  unfoldable pub pin_loaded : World → ℕ → Job → Site S R → Site S R × Answer
  unfolding rescore score preempt_for
  pin_loaded w job_id job site =
      let job' = pin_row w.now job in
      let moved =
        write S R (pin_row w.now) job_id site
          (rescored job.status job_id job.priority true job'.pinned_at w.now site.keys) in
      if not (can_pin job.status)
      then (site, bad_request)
      else (if is_pin_blocking job.status then preempt_for S R w job_id moved else moved, ok)

  unfoldable pub pin_job : World → ℕ → Site S R → Site S R × Answer
  unfolding pin_loaded
  pin_job w job_id site = elim (find S R site job_id) [
    | none ↦ (site, not_found)
    | some job ↦ pin_loaded w job_id job site
  ]

  unfoldable pub unpin_job : World → ℕ → Site S R → Site S R × Answer
  unfolding rescore score
  unpin_job w job_id site = elim (find S R site job_id) [
    | none ↦ (site, not_found)
    | some job ↦
        if job.pinned
        then (
          write S R unpin_row job_id site
              (rescored job.status job_id job.priority false job.queued_at w.now site.keys),
          ok,
        )
        else (site, bad_request)
  ]

  -- A user's cancel or pause that came while the job was giving way is carried out; else the job
  -- goes back to its place.
  abbrev pub settle_signal : World → ℕ → Job → Option Signal → Site S R → Site S R
  settle_signal w job_id job (some Signal.cancel) site =
      write S R (cancel_row w.now) job_id site (clear_signal R site.keys job_id)
  settle_signal w job_id job (some Signal.pause) site =
      write S R pause_row job_id site (clear_signal R site.keys job_id)
  settle_signal w job_id job s site = record site {
    keys = enqueue_job S R (clear_signal R site.keys job_id) job_id job true w.now;
  }

  abbrev pub settle_found : World → ℕ → Option Job → Site S R → Site S R
  settle_found w job_id none site = site
  settle_found w job_id (some job) site =
      if status_eq job.status queued
      then settle_signal w job_id job (R.hget job_id site.keys.ctrl) site
      else site

  unfoldable pub requeue_preempted : World → ℕ → Site S R → Site S R
  requeue_preempted w job_id site = settle_found w job_id (find S R site job_id) site

  -- `_fail_job` and `_pause_for_billing`
  abbrev pub fail_job : Text → World → ℕ → Site S R → Site S R
  unfolding clear_signal
  fail_job message w job_id site =
      write S R (fail_row message w.now) job_id site (clear_signal R site.keys job_id)

  abbrev pub start_or_pause :
      Text → World → ℕ → Loaded → Option Text → Site S R → Site S R × JobStatus
  unfolding clear_signal
  start_or_pause worker w job_id l none site = (
    write S R (mark_running_row worker w.now l.done_items l.failed_items) job_id site site.keys,
    running,
  )
  start_or_pause worker w job_id l (some problem) site = (
    write S R (pause_for_billing_row problem) job_id site (clear_signal R site.keys job_id),
    paused,
  )

  abbrev pub admit : Text → World → ℕ → Loaded → Job → Option Text → Site S R → Site S R × JobStatus
  unfolding blocked_by_pin
  admit worker w job_id l job (some problem) site = (fail_job problem w job_id site, failed)
  admit worker w job_id l job none site =
      if blocked_by_pin S R w job_id site
      then (write S R give_back_row job_id site site.keys, queued)
      else if not (w.input_exists job.input_path)
      then (fail_job l.missing_input w job_id site, failed)
      else start_or_pause worker w job_id l l.billing_problem site

  -- `run` up to `_mark_running`, on the row that `_load` read; the status is `running` if the items
  -- are dispatched, else the one that `run` returns.
  unfoldable pub begin_run :
      Text → World → ℕ → Loaded → Option Job → Site S R → Site S R × JobStatus
  unfolding blocked_by_pin
  begin_run worker w job_id l none site = (site, failed)
  begin_run worker w job_id l (some job) site =
      if is_over job.status
      then (site, job.status)
      else admit worker w job_id l job l.model_problem site
