-- ===== src/Queue/Claimed.antt =====
-- What a claim does to its job (`_CLAIM_JOB_LUA` of backend/app/services/queue.py): one worker gets it.
use batch_inference_console.Prelude.{ℕ, ◌≡◌, ◌≢◌, true, false, some, ==_self, Text, arith}
use batch_inference_console.Prelude.Int.{ℤ}
use batch_inference_console.Redis.{Redis}
use batch_inference_console.Queue.State.{Keys, ok, gone, claim_job, prune, take_job, is_queued}
use batch_inference_console.Queue.Claims.{claimed}

module _ (R : Redis) where
  refused :
      (q : Keys R) (job : ℕ) (worker : Text) (until : ℤ) (model : Text) (limit : ℕ)
      → is_queued R q job ≡ false
      → (claim_job R q job worker until model limit).1 ≡ gone
  unfolding claim_job
  refused q job worker until model limit h = rw h

  prune_keeps :
      (q : Keys R) (model : Text) (limit : ℕ)
      → ((prune R q model limit).0.queue ≡ q.queue) × ((prune R q model limit).0.leases ≡ q.leases)
  unfolding prune
  prune_keeps q model limit = ground arith

  -- What a successful claim has done to the queue, the leases and the owners.
  pub record IsClaimed (q : Keys R) (job : ℕ) (worker : Text) (until : ℤ) (q' : Keys R)
      : Type 0 where
    pub was_queued : is_queued R q job ≡ true
    pub not_queued : is_queued R q' job ≡ false
    pub leased : R.zscore job q'.leases ≡ some until
    pub owned : R.hget job q'.owner ≡ some worker
    pub others :
        (j : ℕ)
        → j ≢ job
        → (R.zscore j q'.queue ≡ R.zscore j q.queue) × (R.zscore j q'.leases ≡ R.zscore j q.leases)

  take_job-IsClaimed :
      (q q' : Keys R) (job : ℕ) (worker : Text) (until : ℤ) (model : Text)
      → is_queued R q job ≡ true
      → q'.queue ≡ q.queue
      → q'.leases ≡ q.leases
      → IsClaimed q job worker until (take_job R q' job worker until model)
  unfolding take_job
  take_job-IsClaimed q q' job worker until model queued same_queue same_leases = record {
    was_queued = queued;
    not_queued = rw (R.zscore-zrem job job q'.queue, ==_self job);
    leased = rw (R.zscore-zadd job job until q'.leases, ==_self job);
    owned = rw (R.hget-hset job job worker q'.owner, ==_self job);
    others = λ j ne. (
      rw (R.zscore-zrem j job q'.queue, same_queue) (ground arith),
      rw (R.zscore-zadd j job until q'.leases, same_leases) (ground arith),
    );
  }

  -- A claim that succeeds took a waiting job: the job is out of the queue and leased to the worker, and
  -- the places and leases of the other jobs are as before.
  pub claim_job-IsClaimed :
      (q : Keys R) (job : ℕ) (worker : Text) (until : ℤ) (model : Text) (limit : ℕ)
      → (claim_job R q job worker until model limit).1 ≡ ok
      → IsClaimed q job worker until (claim_job R q job worker until model limit).0
  claim_job-IsClaimed q job worker until model limit h =
      let (queued, room, eq) = claimed R q job worker until model limit h in
      rw eq (
        take_job-IsClaimed q (prune R q model limit).0 job worker until model queued
          (prune_keeps q model limit).0 (prune_keeps q model limit).1)

  -- Of two claims of one job at most one succeeds: the second finds it gone, whoever makes it.
  pub claim_job_once :
      (q : Keys R) (job : ℕ) (w w' : Text) (until until' : ℤ) (model model' : Text)
      (limit limit' : ℕ)
      → (claim_job R q job w until model limit).1 ≡ ok
      → (claim_job R (claim_job R q job w until model limit).0 job w' until' model' limit').1 ≡ gone
  claim_job_once q job w w' until until' model model' limit limit' h =
      refused (claim_job R q job w until model limit).0 job w' until' model' limit'
        (claim_job-IsClaimed q job w until model limit h).not_queued
