-- ===== src/Jobs/Handlers.antt =====
-- `cancel_job`, `_pause`, `pause_job`, `pause_all_jobs`, `resume_job`, `retry_failed`, `pin_job` and
-- `unpin_job` of backend/app/api/jobs.py, and `blocked_by_pin`, `preempt_for`, `enqueue_job` and
-- `requeue_preempted` of backend/app/services/pins.py, on the database and the queue. Who may call a
-- handler, the audit log and the text of the answers are left out.
use batch_inference_console.Prelude.{
  ℕ, ◌-◌, Bool, true, false, not, ◌&&◌, ◌||◌, Option, none, some, List, [], ◌∷◌, ◌++◌, Text,
  text_eq, is_empty, leb, elem, ◌==◌, if◌then◌else◌,
}
use batch_inference_console.Models.{
  Job, ModelSource, queued, running, paused, canceled, is_terminal, is_pin_blocking, status_eq,
}
use batch_inference_console.Table.{holds}
use batch_inference_console.Database.{Schema, Db}
use batch_inference_console.Redis.{Redis}
use batch_inference_console.Queue.Score.{enqueue_score}
use batch_inference_console.Queue.State.{
  Keys, Signal, cancel, pause, requeue, enqueue, remove, signal, clear_signal, has_lease,
}
use batch_inference_console.Jobs.Rows.{settle_orphan, cancel_row, pause_row, can_cancel_at_once}

-- `HTTPException` with its status, or a normal answer
pub data Answer : Type 0 where
  ok not_found bad_request : Answer

-- What a handler reads besides the tables and the queue: the clock, the live progress of the job, the
-- heartbeats (`none` if Redis cannot be read), the disk, and the names of the shared models.
pub record World : Type 0 where
  pub now : ℕ
  pub live_completed : ℕ
  pub live_failed : ℕ
  pub last_seen : Text → Option (Option ℕ)
  pub input_exists : Text → Bool
  pub shared_model_name : ℕ → Option Text

-- `WORKER_STALE_SECONDS`
abbrev pub worker_stale_seconds : ℕ
worker_stale_seconds = 45

abbrev pub is_stale : ℕ → Option (Option ℕ) → Bool
is_stale now none = false
is_stale now (some none) = true
is_stale now (some (some t)) = leb worker_stale_seconds (now - t)

-- `_worker_gone`
unfoldable pub worker_gone : World → Option Text → Bool
worker_gone w none = true
worker_gone w (some worker_id) = is_empty worker_id || is_stale w.now (w.last_seen worker_id)

abbrev pub name_or_none : Option Text → Option Text
name_or_none none = none
name_or_none (some []) = none
name_or_none (some (c ∷ s)) = some (c ∷ s)

abbrev pub config_name : World → Option ℕ → Option Text
config_name w none = none
config_name w (some id) = w.shared_model_name id

-- `job_model_names` on one job
unfoldable pub job_model_name : World → Job → Option Text
job_model_name w job = name_or_none (elim job.model_source [
  | ModelSource.personal ↦ job.personal_model_name
  | ModelSource.shared ↦ config_name w job.model_config_id
])

abbrev pub is_model : Text → Option Text → Bool
is_model model none = false
is_model model (some name) = text_eq name model

abbrev pub is_orphaned : World → Job → Bool
is_orphaned w job = status_eq job.status running && worker_gone w job.worker_id

module _ (S : Schema) (R : Redis) where
  pub record Site : Type 0 where
    pub db : Db S
    pub keys : Keys R

  abbrev pub find : Site → ℕ → Option Job
  find site job_id = S.jobs.get job_id site.db.jobs

  abbrev pub write : (Job → Job) → ℕ → Site → Keys R → Site
  write f job_id site keys = record {
    db = record site.db { jobs = S.jobs.update job_id f site.db.jobs };
    keys = keys;
  }

  -- The signal goes out, and the job leaves the queue with its lease.
  abbrev pub withdraw : Signal → ℕ → Site → Keys R
  unfolding remove signal
  withdraw s job_id site = remove R (signal R site.keys job_id s false) job_id

  unfoldable pub cancel_loaded : World → ℕ → Job → Site → Site × Answer
  unfolding remove signal clear_signal
  cancel_loaded w job_id job site =
      let keys = withdraw cancel job_id site in
      if is_terminal job.status
      then (site, bad_request)
      else if is_orphaned w job
      then (
        write (settle_orphan w.live_completed w.live_failed canceled w.now) job_id site keys,
        ok,
      )
      else if can_cancel_at_once job.status
      then (write (cancel_row w.now) job_id site (clear_signal R keys job_id), ok)
      else (record site { keys = keys }, ok)

  abbrev pub cancel_found : World → ℕ → Option Job → Site → Site × Answer
  cancel_found w job_id none site = (site, not_found)
  cancel_found w job_id (some job) site = cancel_loaded w job_id job site

  unfoldable pub cancel_job : World → ℕ → Site → Site × Answer
  cancel_job w job_id site = cancel_found w job_id (find site job_id) site

  -- `_pause`: whether the job is paused at once
  unfoldable pub pause_loaded : World → ℕ → Job → Site → Site × Bool
  unfolding remove signal clear_signal
  pause_loaded w job_id job site =
      let keys = withdraw pause job_id site in
      if is_orphaned w job
      then (
        write (settle_orphan w.live_completed w.live_failed paused w.now) job_id site keys,
        true,
      )
      else if status_eq job.status queued
      then (write pause_row job_id site (clear_signal R keys job_id), true)
      else (record site { keys = keys }, false)

  unfoldable pub pause_job : World → ℕ → Site → Site × Answer
  unfolding pause_loaded
  pause_job w job_id site = elim (find site job_id) [
    | none ↦ (site, not_found)
    | some job ↦
        if status_eq job.status running || status_eq job.status queued
        then ((pause_loaded w job_id job site).0, ok)
        else (site, bad_request)
  ]

  abbrev pub is_active : Job → Bool
  is_active job = status_eq job.status queued || status_eq job.status running

  -- The loop of `pause_all_jobs`: the rows were read before it, and no call fails.
  unfoldable pub pause_each : World → (ℕ → Option Job) → List ℕ → Site → Site
  unfolding pause_loaded
  pause_each w rows [] site = site
  pause_each w rows (job_id ∷ ids) site = elim (rows job_id) [
    | none ↦ pause_each w rows ids site
    | some job ↦ pause_each w rows ids ((pause_loaded w job_id job site).0)
  ]

  unfoldable pub pause_all_jobs : World → Site → Site
  unfolding pause_each
  pause_all_jobs w site =
      pause_each w (λ i. find site i) (S.jobs.select is_active site.db.jobs) site

  -- `enqueue_job`
  abbrev pub enqueue_job : Keys R → ℕ → Job → Bool → ℕ → Keys R
  unfolding enqueue
  enqueue_job keys job_id job keep_position now =
      enqueue R keys job_id (enqueue_score job keep_position now)

  abbrev pub on_model : World → Text → Job → Bool
  unfolding job_model_name
  on_model w model job = is_model model (job_model_name w job)

  -- The ids that `pinned_models` holds for one model.
  abbrev pub holders : World → Text → Site → List ℕ
  unfolding job_model_name
  holders w model site =
      S.jobs.select (λ j. j.pinned && is_pin_blocking j.status && on_model w model j) site.db.jobs

  abbrev pub has_any : List ℕ → Bool
  has_any [] = false
  has_any (_ ∷ _) = true

  abbrev pub model_at : World → Option Job → Option Text
  unfolding job_model_name
  model_at w none = none
  model_at w (some job) = job_model_name w job

  unfoldable pub blocked_by_pin : World → ℕ → Site → Bool
  unfolding job_model_name
  blocked_by_pin w job_id site = elim (model_at w (find site job_id)) [
    | none ↦ false
    | some model ↦ has_any (holders w model site) && not (elem job_id (holders w model site))
  ]

  -- A candidate is signalled if it is another job, is not pinned, and holds a lease.
  abbrev pub preempts : ℕ → Site → ℕ → Bool
  preempts pinned_id site job_id =
      not (job_id == pinned_id)
      && not (holds (λ j. j.pinned) (find site job_id))
      && has_lease R site.keys job_id

  unfoldable pub signal_each : ℕ → Site → List ℕ → Keys R → Keys R
  unfolding signal
  signal_each pinned_id site [] keys = keys
  signal_each pinned_id site (job_id ∷ ids) keys =
      signal_each pinned_id site ids
        (if preempts pinned_id site job_id then signal R keys job_id requeue true else keys)

  -- `preempt_for`: the running jobs of the model, and the members of its running set
  unfoldable pub preempt_for : World → ℕ → Site → Site
  unfolding signal_each job_model_name
  preempt_for w pinned_id site = elim (model_at w (find site pinned_id)) [
    | none ↦ site
    | some model ↦ record site {
      keys =
          signal_each pinned_id site
            (S.jobs.select (λ j. status_eq j.status running && on_model w model j) site.db.jobs
              ++ R.smembers (site.keys.model_running model))
            site.keys;
    }
  ]
