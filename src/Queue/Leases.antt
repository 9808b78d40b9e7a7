-- ===== src/Queue/Leases.antt =====
-- Expired leases go back to the queue and no job is lost (`_REAP_LUA`, `_drop` of
-- backend/app/services/queue.py).
use batch_inference_console.Prelude.{
  ℕ, suc, ◌≡◌, ◌≢◌, refl, ◌∙◌, Bool, true, false, ◌&&◌, ◌||◌, Option, none, some, List, [], ◌∷◌,
  ◌==◌, ==_self, if◌then◌else◌, is_some, elem, Text, text_eq_self, is_empty, inl, inr, Bool-cases,
  arith,
}
use batch_inference_console.Prelude.Int.{ℤ, pos, ◌+ℤ◌, leb_ℤ}
use batch_inference_console.Redis.{Redis}
use batch_inference_console.Queue.State.{
  Keys, expired_of, reap_from, reap_expired, is_queued, has_lease, drop_job, leave_model,
}

-- Whether a lease, if there is one, ends by `now`.
abbrev pub has_expired : ℤ → Option ℤ → Bool
has_expired now none = false
has_expired now (some s) = leb_ℤ s now

module _ (R : Redis) where
  pub expired_of-elem :
      (j : ℕ) (leases : R.ZSet) (now : ℤ) (jobs : List ℕ)
      → elem j (expired_of R leases now jobs) ≡ (elem j jobs && has_expired now (R.zscore j leases))
  unfolding expired_of
  expired_of-elem j leases now [] = refl
  expired_of-elem j leases now (x ∷ xs) =
      let ih = expired_of-elem j leases now xs in
      elim (Bool-cases (j == x)) [ inl same ↦ ground (arith, ih) | inr other ↦ ground (arith, ih) ]

  -- The keys after a round of reaping, job by job.
  pub record IsReaped (j : ℕ) (picked : Bool) (q q' : Keys R) : Type 0 where
    pub lease : R.zscore j q'.leases ≡ (if picked then none else R.zscore j q.leases)
    pub owner : R.hget j q'.owner ≡ (if picked then none else R.hget j q.owner)
    pub queued : is_queued R q' j ≡ (picked || is_queued R q j)
    pub place : picked ≡ false → R.zscore j q'.queue ≡ R.zscore j q.queue

  pub reap_from-IsReaped :
      (j i : ℕ) (base : ℤ) (jobs : List ℕ) (q : Keys R)
      → IsReaped j (elem j jobs) q (reap_from R i base jobs q)
  unfolding reap_from
  reap_from-IsReaped j i base [] q = record {
    lease = refl;
    owner = refl;
    queued = refl;
    place = λ h. refl;
  }
  reap_from-IsReaped j i base (x ∷ xs) q =
      let q1 = record q {
        leases = R.zrem x q.leases;
        owner = R.hdel x q.owner;
        queue = R.zadd x (base +ℤ pos i) q.queue;
      } in
      let ih = reap_from-IsReaped j (suc i) base xs q1 in
      let l = R.zscore-zrem j x q.leases in
      let o = R.hget-hdel j x q.owner in
      let z = R.zscore-zadd j x (base +ℤ pos i) q.queue in
      record {
        lease = ground (arith, ih.lease, l);
        owner = ground (arith, ih.owner, o);
        queued = ground (arith, ih.queued, z);
        place = λ h. ground (arith, ih.place, z, h);
      }

  expired_lease : (now : ℤ) (o : Option ℤ) → (is_some o && has_expired now o) ≡ has_expired now o
  expired_lease now none = refl
  expired_lease now (some s) = refl

  -- What a round of reaping at `now` means for one job.
  pub record IsRecovered (now : ℤ) (q q' : Keys R) (expired : List ℕ) (j : ℕ) : Type 0 where
    pub reported : elem j expired ≡ has_expired now (R.zscore j q.leases)
    pub unleased : has_expired now (R.zscore j q.leases) ≡ true → R.zscore j q'.leases ≡ none
    pub unowned : has_expired now (R.zscore j q.leases) ≡ true → R.hget j q'.owner ≡ none
    pub requeued : has_expired now (R.zscore j q.leases) ≡ true → is_queued R q' j ≡ true
    pub untouched :
        has_expired now (R.zscore j q.leases) ≡ false
        → (R.zscore j q'.leases ≡ R.zscore j q.leases)
          × (R.zscore j q'.queue ≡ R.zscore j q.queue)
          × (R.hget j q'.owner ≡ R.hget j q.owner)
    pub not_lost :
        (is_queued R q j || has_lease R q j) ≡ true → (is_queued R q' j || has_lease R q' j) ≡ true

  -- Reaping puts back exactly the jobs whose leases have ended, and every job that was waiting or
  -- leased still is one or the other.
  pub reap_expired-IsRecovered :
      (q : Keys R) (now base : ℤ) (j : ℕ)
      → IsRecovered now q (reap_expired R q now base).0 (reap_expired R q now base).1 j
  unfolding reap_expired
  reap_expired-IsRecovered q now base j =
      let expired = expired_of R q.leases now (R.zrange q.leases) in
      let picked : elem j expired ≡ has_expired now (R.zscore j q.leases) =
        expired_of-elem j q.leases now (R.zrange q.leases)
        ∙ (rw (R.elem-zrange j q.leases) (expired_lease now (R.zscore j q.leases))) in
      let r = rw picked at (reap_from-IsReaped j 1 base expired q) in
      record {
        reported = picked;
        unleased = λ h. r.lease ∙ (rw h);
        unowned = λ h. r.owner ∙ (rw h);
        requeued = λ h. r.queued ∙ (rw h);
        untouched = λ h. (r.lease ∙ (rw h), r.place h, r.owner ∙ (rw h));
        not_lost = λ h. ground (arith, h, r.lease, r.queued);
      }

  -- What `release` and `remove` have done to a queue.
  pub record IsDropped (q : Keys R) (job : ℕ) (dequeue : Bool) (q' : Keys R) : Type 0 where
    pub no_lease : has_lease R q' job ≡ false
    pub no_owner : R.hget job q'.owner ≡ none
    pub slot_free :
        (model : Text)
        → R.hget job q.job_model ≡ some model
        → is_empty model ≡ false
        → elem job (R.smembers (q'.model_running model)) ≡ false
    pub in_queue : is_queued R q' job ≡ (if dequeue then false else is_queued R q job)
    pub others :
        (j : ℕ)
        → j ≢ job
        → (R.zscore j q'.queue ≡ R.zscore j q.queue) × (R.zscore j q'.leases ≡ R.zscore j q.leases)

  -- After a release the job has no lease and no owner, the model's slot is free again, and the queue
  -- is as it was; `remove` also takes the job out of the queue. Other jobs keep place and lease.
  pub drop_job-IsDropped :
      (q : Keys R) (job : ℕ) (dequeue : Bool) → IsDropped q job dequeue (drop_job R q job dequeue)
  unfolding drop_job
  drop_job-IsDropped q job dequeue = record {
    no_lease = rw (R.zscore-zrem job job q.leases, ==_self job);
    no_owner = rw (R.hget-hdel job job q.owner, ==_self job);
    slot_free = λ model h named.
        rw (h, leave_model, named)
          (rw (text_eq_self model) (rw (R.elem-srem job job (q.model_running model), ==_self job)));
    in_queue = queue_of dequeue;
    others = λ j ne. (others_of dequeue j ne, rw (R.zscore-zrem j job q.leases) (ground arith));
  }
    where
      queue_of :
          (b : Bool)
          → is_some (R.zscore job (if b then R.zrem job q.queue else q.queue))
            ≡ (if b then false else is_queued R q job)
      queue_of true = rw (R.zscore-zrem job job q.queue, ==_self job)
      queue_of false = refl

      others_of :
          (b : Bool) (j : ℕ)
          → j ≢ job
          → R.zscore j (if b then R.zrem job q.queue else q.queue) ≡ R.zscore j q.queue
      others_of true j ne = rw (R.zscore-zrem j job q.queue) (ground arith)
      others_of false j ne = refl
