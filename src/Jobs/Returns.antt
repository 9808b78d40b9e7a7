-- ===== src/Jobs/Returns.antt =====
-- What becomes of a job that gave way to a pinned one (`requeue_preempted` of
-- backend/app/services/pins.py).
use batch_inference_console.Prelude.{
  ℕ, true, ◌≡◌, refl, ap, ◌∙◌, Option, none, some, ==_self, if◌then◌else◌,
}
use batch_inference_console.Models.{Job, JobStatus, queued, paused, canceled, status_eq}
use batch_inference_console.Table.{option_map}
use batch_inference_console.Database.{Schema}
use batch_inference_console.Redis.{Redis}
use batch_inference_console.Queue.Score.{enqueue_score}
use batch_inference_console.Queue.State.{Keys, Signal, enqueue, clear_signal}
use batch_inference_console.Jobs.Rows.{cancel_row, pause_row}
use batch_inference_console.Jobs.Handlers.{World, Site, find}
use batch_inference_console.Jobs.Moves.{settle_signal, settle_found, requeue_preempted}
use batch_inference_console.Jobs.Races.{status_of, status-write}

-- What the user asked for while the job was giving way.
abbrev pub wish : Option Signal → JobStatus
wish (some Signal.cancel) = canceled
wish (some Signal.pause) = paused
wish (some Signal.requeue) = queued
wish none = queued

module _ (S : Schema) (R : Redis) where
  pub record IsSettled (w : World) (job_id : ℕ) (job : Job) (asked : Option Signal)
      (site site' : Site S R) : Type 0 where
    pub status : status_of S R job_id site' ≡ some (wish asked)
    pub no_signal : R.hget job_id site'.keys.ctrl ≡ none
    pub place : R.zscore job_id site'.keys.queue ≡ (
        if status_eq (wish asked) queued
        then some (enqueue_score job true w.now)
        else R.zscore job_id site.keys.queue)

  back_in_place :
      (w : World) (job_id : ℕ) (job : Job) (site : Site S R)
      → R.zscore job_id
          (enqueue R (clear_signal R site.keys job_id) job_id (enqueue_score job true w.now)).queue
        ≡ some (enqueue_score job true w.now)
  unfolding enqueue clear_signal
  back_in_place w job_id job site =
      rw
        (R.zscore-zadd job_id job_id (enqueue_score job true w.now) site.keys.queue, ==_self job_id)

  no_signal_left :
      (job_id : ℕ) (keys : Keys R) → R.hget job_id (clear_signal R keys job_id).ctrl ≡ none
  unfolding clear_signal
  no_signal_left job_id keys = rw (R.hget-hdel job_id job_id keys.ctrl, ==_self job_id)

  settle_signal-IsSettled :
      (w : World) (job_id : ℕ) (job : Job) (asked : Option Signal) (site : Site S R)
      → find S R site job_id ≡ some job
      → job.status ≡ queued
      → IsSettled w job_id job asked site (settle_signal S R w job_id job asked site)
  unfolding clear_signal enqueue cancel_row pause_row
  settle_signal-IsSettled w job_id job (some Signal.cancel) site found waits = record {
    status =
        ap (option_map (λ j. j.status))
          (status-write S R (cancel_row w.now) job_id site site.keys job found);
    no_signal = no_signal_left job_id site.keys;
    place = refl;
  }
  settle_signal-IsSettled w job_id job (some Signal.pause) site found waits = record {
    status =
        ap (option_map (λ j. j.status))
          (status-write S R pause_row job_id site site.keys job found);
    no_signal = no_signal_left job_id site.keys;
    place = refl;
  }
  settle_signal-IsSettled w job_id job (some Signal.requeue) site found waits = record {
    status = ap (option_map (λ j. j.status)) found ∙ ap some waits;
    no_signal = no_signal_left job_id site.keys;
    place = back_in_place w job_id job site;
  }
  settle_signal-IsSettled w job_id job none site found waits = record {
    status = ap (option_map (λ j. j.status)) found ∙ ap some waits;
    no_signal = no_signal_left job_id site.keys;
    place = back_in_place w job_id job site;
  }

  settle_found-queued :
      (w : World) (job_id : ℕ) (job : Job) (site : Site S R)
      → job.status ≡ queued
      → settle_found S R w job_id (some job) site
        ≡ settle_signal S R w job_id job (R.hget job_id site.keys.ctrl) site
  settle_found-queued w job_id job site h =
      ap
        (λ s.
          if status_eq s queued
          then settle_signal S R w job_id job (R.hget job_id site.keys.ctrl) site
          else site)
        h

  -- A queued job that gave way is canceled or paused if that was asked meanwhile, and its place in the
  -- queue is as before; else it is queued by its first time of entry, or of its pin. No signal stays.
  pub requeue_preempted-IsSettled :
      (w : World) (job_id : ℕ) (job : Job) (site : Site S R)
      → find S R site job_id ≡ some job
      → job.status ≡ queued
      → IsSettled w job_id job
          (R.hget job_id site.keys.ctrl)
          site
          (requeue_preempted S R w job_id site)
  unfolding requeue_preempted
  requeue_preempted-IsSettled w job_id job site found waits =
      rw (found, settle_found-queued w job_id job site waits)
        (settle_signal-IsSettled w job_id job (R.hget job_id site.keys.ctrl) site found waits)
