-- ===== src/Jobs/Races.antt =====
-- What a cancel leaves behind, and what becomes of it when a runner is already starting the job.
use batch_inference_console.Prelude.{
  ℕ, Bool, true, false, ◌&&◌, ◌≡◌, ◌⊎◌, inl, inr, ap, ◌∙◌, Option, none, some, Text, ==_self,
  if◌then◌else◌,
}
use batch_inference_console.Models.{
  Job, JobStatus, queued, running, canceled, is_terminal, status_eq,
}
use batch_inference_console.Table.{option_map}
use batch_inference_console.Database.{Schema}
use batch_inference_console.Redis.{Redis}
use batch_inference_console.Queue.State.{
  Keys, Signal, cancel, remove, signal, clear_signal, drop_job, is_queued, has_lease,
}
use batch_inference_console.Queue.Leases.{drop_job-IsDropped}
use batch_inference_console.Jobs.Rows.{
  settle_orphan, cancel_row, mark_running_row, can_cancel_at_once,
}
use batch_inference_console.Jobs.Handlers.{
  World, Answer, Site, find, write, withdraw, cancel_found, cancel_loaded, cancel_job, is_orphaned,
  worker_gone,
}

by_test {ℓ} :
    {A : Type ℓ} (P : A → Type 0) (a b c : Bool) (x y z u : A)
    → a ≡ false
    → P y
    → P z
    → P u
    → P (if a then x else if b then y else if c then z else u)
by_test P true b c x y z u h py pz pu = cc
by_test P false true c x y z u h py pz pu = py
by_test P false false true x y z u h py pz pu = pz
by_test P false false false x y z u h py pz pu = pu

third {ℓ} :
    {A : Type ℓ} (a b c : Bool) (x y z u : A)
    → a ≡ false
    → b ≡ false
    → c ≡ true
    → (if a then x else if b then y else if c then z else u) ≡ z
third a b c x y z u ha hb hc = rw (ha, hb, hc)

module _ (S : Schema) (R : Redis) where
  -- The job waits nowhere and holds no lease; and it is canceled, or its runner will see the signal.
  pub record IsWithdrawn (job_id : ℕ) (site : Site S R) : Type 0 where
    pub not_queued : is_queued R site.keys job_id ≡ false
    pub no_lease : has_lease R site.keys job_id ≡ false
    pub stopped :
        (option_map (λ j. j.status) (find S R site job_id) ≡ some canceled)
        ⊎ (R.hget job_id site.keys.ctrl ≡ some cancel)

  withdraw-queue :
      (s : Signal) (job_id : ℕ) (site : Site S R)
      → is_queued R (withdraw S R s job_id site) job_id ≡ false
  unfolding remove signal
  withdraw-queue s job_id site =
      (drop_job-IsDropped R (signal R site.keys job_id s false) job_id true).in_queue

  withdraw-lease :
      (s : Signal) (job_id : ℕ) (site : Site S R)
      → has_lease R (withdraw S R s job_id site) job_id ≡ false
  unfolding remove signal
  withdraw-lease s job_id site =
      (drop_job-IsDropped R (signal R site.keys job_id s false) job_id true).no_lease

  withdraw-signal :
      (s : Signal) (job_id : ℕ) (site : Site S R)
      → R.hget job_id (withdraw S R s job_id site).ctrl ≡ some s
  unfolding remove signal drop_job
  withdraw-signal s job_id site = rw (R.hget-hset job_id job_id s site.keys.ctrl, ==_self job_id)

  pub status-write :
      (f : Job → Job) (job_id : ℕ) (site : Site S R) (keys : Keys R) (job : Job)
      → find S R site job_id ≡ some job
      → find S R (write S R f job_id site keys) job_id ≡ some (f job)
  status-write f job_id site keys job h =
      rw (S.jobs.get-update job_id job_id f site.db.jobs, ==_self job_id, h)

  cancel_loaded-IsWithdrawn :
      (w : World) (job_id : ℕ) (job : Job) (site : Site S R)
      → find S R site job_id ≡ some job
      → is_terminal job.status ≡ false
      → IsWithdrawn job_id (cancel_loaded S R w job_id job site).0
  unfolding cancel_loaded settle_orphan cancel_row clear_signal
  cancel_loaded-IsWithdrawn w job_id job site found alive =
      by_test (λ (r : Site S R × Answer). IsWithdrawn job_id (r.0)) (is_terminal job.status)
        (is_orphaned w job) (can_cancel_at_once job.status) _ _ _ _ alive
        record {
          not_queued = withdraw-queue cancel job_id site;
          no_lease = withdraw-lease cancel job_id site;
          stopped =
              inl
                (ap (option_map (λ j. j.status)) (status-write _ job_id site site.keys job found));
        }
        record {
          not_queued = withdraw-queue cancel job_id site;
          no_lease = withdraw-lease cancel job_id site;
          stopped =
              inl
                (ap (option_map (λ j. j.status)) (status-write _ job_id site site.keys job found));
        }
        record {
          not_queued = withdraw-queue cancel job_id site;
          no_lease = withdraw-lease cancel job_id site;
          stopped = inr (withdraw-signal cancel job_id site);
        }

  -- A cancel of a job that has not ended takes it out of the queue and ends its lease; and either the
  -- job is canceled, or the signal that its runner polls says cancel.
  pub cancel_job-IsWithdrawn :
      (w : World) (job_id : ℕ) (site : Site S R) (job : Job)
      → find S R site job_id ≡ some job
      → is_terminal job.status ≡ false
      → IsWithdrawn job_id (cancel_job S R w job_id site).0
  unfolding cancel_job
  cancel_job-IsWithdrawn w job_id site job found alive =
      rw found (cancel_loaded-IsWithdrawn w job_id job site found alive)

  queued_cancel :
      (w : World) (job_id : ℕ) (job : Job) (site : Site S R)
      → job.status ≡ queued
      → (cancel_loaded S R w job_id job site).0
        ≡ write S R
            (cancel_row w.now)
            job_id
            site
            (clear_signal R (withdraw S R cancel job_id site) job_id)
  unfolding cancel_loaded
  queued_cancel w job_id job site h =
      ap (λ (r : Site S R × Answer). r.0)
        (third (is_terminal job.status) (is_orphaned w job) (can_cancel_at_once job.status) _ _ _ _
          (ap is_terminal h) (ap (λ s. status_eq s running && worker_gone w job.worker_id) h)
          (ap can_cancel_at_once h))

  cancel_job-queued :
      (w : World) (job_id : ℕ) (job : Job) (site : Site S R)
      → find S R site job_id ≡ some job
      → job.status ≡ queued
      → (cancel_job S R w job_id site).0
        ≡ write S R
            (cancel_row w.now)
            job_id
            site
            (clear_signal R (withdraw S R cancel job_id site) job_id)
  unfolding cancel_job
  cancel_job-queued w job_id job site found waits =
      ap (λ o. (cancel_found S R w job_id o site).0) found ∙ queued_cancel w job_id job site waits

  -- A runner that has read the row goes on to mark the job as running.
  abbrev pub then_marked : Text → ℕ → ℕ → ℕ → ℕ → Site S R → Site S R
  unfolding mark_running_row
  then_marked worker now done bad job_id site =
      write S R (mark_running_row worker now done bad) job_id site site.keys

  abbrev pub status_of : ℕ → Site S R → Option JobStatus
  status_of job_id site = option_map (λ j. j.status) (find S R site job_id)

  -- A cancel of a queued job whose row a runner has already read is lost: when the runner goes on to
  -- mark the job as running, the row says running again, and no signal is left for the runner to see.
  pub cancel_job-lost :
      (w : World) (job_id : ℕ) (site : Site S R) (job : Job) (worker : Text) (now done bad : ℕ)
      → find S R site job_id ≡ some job
      → job.status ≡ queued
      → (status_of job_id (cancel_job S R w job_id site).0 ≡ some canceled)
        × (status_of job_id
              (then_marked worker now done bad job_id (cancel_job S R w job_id site).0)
            ≡ some running)
        × (R.hget job_id
              (then_marked worker now done bad job_id (cancel_job S R w job_id site).0).keys.ctrl
            ≡ none)
  unfolding mark_running_row cancel_row clear_signal
  cancel_job-lost w job_id site job worker now done bad found waits =
      rw (cancel_job-queued w job_id job site found waits) (
        ap (option_map (λ j. j.status))
            (status-write (cancel_row w.now) job_id site site.keys job found),
        ap (option_map (λ j. j.status)) (
            status-write (mark_running_row worker now done bad) job_id
              (write S R (cancel_row w.now) job_id site site.keys) site.keys (cancel_row w.now job)
              (status-write (cancel_row w.now) job_id site site.keys job found)),
        rw (R.hget-hdel job_id job_id (withdraw S R cancel job_id site).ctrl, ==_self job_id),
      )
