-- ===== src/Jobs/Arrange.antt =====
-- `reorder_queue` of backend/app/api/jobs.py: an administrator puts queued jobs into a new order.
use batch_inference_console.Prelude.{ℕ, not, Option, none, some, List, [], ◌∷◌, if◌then◌else◌}
use batch_inference_console.Prelude.Int.{ℤ}
use batch_inference_console.Models.{Job, queued, status_eq}
use batch_inference_console.Database.{Schema}
use batch_inference_console.Redis.{Redis}
use batch_inference_console.Queue.Score.{priority_of}
use batch_inference_console.Queue.State.{Keys}
use batch_inference_console.Queue.Reorder.{Reordered, moved, key_error, reorder}
use batch_inference_console.Jobs.Handlers.{Site, find}

-- The new view of the queue, 409, or 400 for a pinned job.
pub data Arranged : Type 0 where
  arranged conflict pinned_refused : Arranged

-- `jobs[jid].priority = queue.priority_of(score)`
unfoldable pub prioritize : ℤ → Job → Job
prioritize s job = record job { priority = priority_of s }

abbrev pub check_job : Option Job → Option Arranged
check_job none = some conflict
check_job (some job) =
    if not (status_eq job.status queued)
    then some conflict
    else if job.pinned
    then some pinned_refused
    else none

module _ (S : Schema) (R : Redis) where
  -- The first loop: what the first job that may not be moved is answered.
  unfoldable pub check_jobs : Site S R → List ℕ → Option Arranged
  check_jobs site [] = none
  check_jobs site (job ∷ jobs) =
      let rest = check_jobs site jobs in
      elim (check_job (find S R site job)) [ none ↦ rest | some a ↦ some a ]

  unfoldable pub set_priorities : List (ℕ × ℤ) → S.jobs.Rows → S.jobs.Rows
  unfolding prioritize
  set_priorities [] t = t
  set_priorities ((job, s) ∷ scores) t = set_priorities scores (S.jobs.update job (prioritize s) t)

  abbrev pub save_order : Site S R → Keys R × Reordered → Site S R × Arranged
  save_order site (keys, moved scores) = (
    record { db = record (site.db) { jobs = set_priorities scores site.db.jobs }; keys = keys },
    arranged,
  )
  save_order site (keys, key_error job) = (record site { keys = keys }, conflict)

  abbrev pub reorder_checked : Site S R → List ℕ → Option Arranged → Site S R × Arranged
  reorder_checked site jobs (some a) = (site, a)
  reorder_checked site jobs none = save_order site (reorder R site.keys jobs)

  unfoldable pub reorder_queue : Site S R → List ℕ → Site S R × Arranged
  unfolding check_jobs reorder set_priorities
  reorder_queue site jobs = reorder_checked site jobs (check_jobs site jobs)
