-- ===== src/Queue/State.antt =====
-- The keys of the queue and the operations of `JobQueue` (backend/app/services/queue.py) that move
-- jobs between them, the Lua scripts included. The keys have distinct names, so each is a field.
use batch_inference_console.Prelude.{
  ℕ, suc, Bool, true, false, not, ◌&&◌, Option, none, some, List, [], ◌∷◌, ltb, leb, if◌then◌else◌,
  is_some, Text, text_eq, is_empty,
}
use batch_inference_console.Prelude.Int.{ℤ, pos, ◌+ℤ◌, leb_ℤ}
use batch_inference_console.Redis.{Redis}

-- the control signals of `signal`
pub data Signal : Type 0 where
  cancel pause requeue : Signal

pub data Claim : Type 0 where
  ok gone blocked : Claim

pub record Keys (R : Redis) : Type 0 where
  pub queue : R.ZSet
  pub leases : R.ZSet
  pub owner : R.Hash Text
  pub job_model : R.Hash Text
  pub model_running : Text → R.MSet
  pub ctrl : R.Hash Signal

module _ (R : Redis) where
  abbrev pub is_queued : Keys R → ℕ → Bool
  is_queued q job = is_some (R.zscore job q.queue)

  -- `has_lease`
  abbrev pub has_lease : Keys R → ℕ → Bool
  has_lease q job = is_some (R.zscore job q.leases)

  abbrev pub set_running : Text → R.MSet → (Text → R.MSet) → Text → R.MSet
  set_running model m running name = if text_eq name model then m else running name

  -- The loop of the claim script: members without a lease are dropped from the running set, and the
  -- others are counted.
  unfoldable pub count_running : R.ZSet → List ℕ → R.MSet → R.MSet × ℕ
  count_running leases [] m = (m, 0)
  count_running leases (member ∷ members) m =
      let leased = is_some (R.zscore member leases) in
      let (m', n) = count_running leases members (if leased then m else R.srem member m) in
      (m', if leased then suc n else n)

  -- What the script does once it takes the job.
  unfoldable pub take_job : Keys R → ℕ → Text → ℤ → Text → Keys R
  take_job q job worker lease_until model = record q {
    queue = R.zrem job q.queue;
    leases = R.zadd job lease_until q.leases;
    owner = R.hset job worker q.owner;
    model_running =
        if is_empty model
        then q.model_running
        else set_running model (R.sadd job (q.model_running model)) q.model_running;
    job_model = if is_empty model then q.job_model else R.hset job model q.job_model;
  }

  -- The limit check: the pruned running set, and how many of it hold a lease.
  unfoldable pub prune : Keys R → Text → ℕ → Keys R × ℕ
  unfolding count_running
  prune q model limit =
      if ltb 0 limit
      then (let (m, n) =
            count_running q.leases (R.smembers (q.model_running model)) (q.model_running model) in
          (record q { model_running = set_running model m q.model_running }, n))
      else (q, 0)

  -- `_CLAIM_JOB_LUA`, called by `claim_job`; a limit of 0 is no limit
  unfoldable pub claim_job : Keys R → ℕ → Text → ℤ → Text → ℕ → Keys R × Claim
  unfolding prune take_job
  claim_job q job worker lease_until model limit =
      let (q', running) = prune q model limit in
      if not (is_queued q job)
      then (q, gone)
      else if ltb 0 limit && leb limit running
      then (q', blocked)
      else (take_job q' job worker lease_until model, ok)

  -- `enqueue`, with the score that it computes
  unfoldable pub enqueue : Keys R → ℕ → ℤ → Keys R
  enqueue q job s = record q { queue = R.zadd job s q.queue }

  -- `rescore`: ZADD XX, and whether the job is queued
  unfoldable pub rescore : Keys R → ℕ → ℤ → Keys R × Bool
  rescore q job s =
      if is_queued q job then (record q { queue = R.zadd job s q.queue }, true) else (q, false)

  abbrev pub leave_model : Option Text → ℕ → (Text → R.MSet) → Text → R.MSet
  leave_model none job running = running
  leave_model (some model) job running =
      if is_empty model then running else set_running model (R.srem job (running model)) running

  -- `_drop`: the lease, the owner and the model's slot are given back.
  unfoldable pub drop_job : Keys R → ℕ → Bool → Keys R
  drop_job q job dequeue = record q {
    queue = if dequeue then R.zrem job q.queue else q.queue;
    leases = R.zrem job q.leases;
    owner = R.hdel job q.owner;
    job_model = R.hdel job q.job_model;
    model_running = leave_model (R.hget job q.job_model) job q.model_running;
  }

  -- `remove`, `release`
  unfoldable pub remove : Keys R → ℕ → Keys R
  unfolding drop_job
  remove q job = drop_job q job true

  unfoldable pub release : Keys R → ℕ → Keys R
  unfolding drop_job
  release q job = drop_job q job false

  -- `renew_lease`
  unfoldable pub renew_lease : Keys R → ℕ → ℤ → Keys R
  renew_lease q job lease_until = record q { leases = R.zadd job lease_until q.leases }

  -- The expired leases, by increasing end.
  unfoldable pub expired_of : R.ZSet → ℤ → List ℕ → List ℕ
  expired_of leases now [] = []
  expired_of leases now (job ∷ jobs) =
      let rest = expired_of leases now jobs in
      elim (R.zscore job leases) [
        | none ↦ rest
        | some s ↦ elim (leb_ℤ s now) [ true ↦ job ∷ rest | false ↦ rest ]
      ]

  -- The loop of `_REAP_LUA`; the i-th job goes back with the score `base + i`.
  unfoldable pub reap_from : ℕ → ℤ → List ℕ → Keys R → Keys R
  reap_from i base [] q = q
  reap_from i base (job ∷ jobs) q = reap_from (suc i) base jobs (record q {
    leases = R.zrem job q.leases;
    owner = R.hdel job q.owner;
    queue = R.zadd job (base +ℤ pos i) q.queue;
  })

  -- `reap_expired`
  unfoldable pub reap_expired : Keys R → ℤ → ℤ → Keys R × List ℕ
  unfolding expired_of reap_from
  reap_expired q now base =
      let expired = expired_of q.leases now (R.zrange q.leases) in
      (reap_from 1 base expired q, expired)

  -- `signal`, where a signal that is there may be kept
  unfoldable pub signal : Keys R → ℕ → Signal → Bool → Keys R
  signal q job action only_if_absent =
      if only_if_absent && is_some (R.hget job q.ctrl)
      then q
      else record q { ctrl = R.hset job action q.ctrl }

  unfoldable pub clear_signal : Keys R → ℕ → Keys R
  clear_signal q job = record q { ctrl = R.hdel job q.ctrl }
