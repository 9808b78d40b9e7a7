-- ===== src/Queue/Claims.antt =====
-- The limit of a model under claims (`_CLAIM_JOB_LUA` of backend/app/services/queue.py): the jobs that are leased for a model stay within its limit as long as each of them is registered on it.
-- A runner that renews a lease after `reap_expired` has taken it and another claim has pruned the model
-- holds a lease that is not registered.
use batch_inference_console.Prelude.{
  ℕ, ◌+◌, ◌≤◌, ◌<◌, ◌≡◌, refl, ap, sym, ◌∙◌, Bool, true, false, true-false, ==_eq, ◌&&◌, some, List,
  [], ◌∷◌, ◌==◌, ==_self, ltb, lt→ltb, leb, if◌then◌else◌, is_some, elem, count_if, Text,
  text_eq_self, is_empty, inl, inr, Bool-cases, arith,
}
use batch_inference_console.Prelude.Int.{ℤ}
use batch_inference_console.Redis.{Redis}
use batch_inference_console.Queue.State.{
  Keys, ok, gone, blocked, claim_job, prune, take_job, count_running, is_queued, has_lease,
}

-- A test that holds at one more number counts at most one more member of a set.
count_if-one_more :
    (job : ℕ) (p q : ℕ → Bool)
    → ((x : ℕ) → p x ≡ (if x == job then true else q x))
    → (xs : List ℕ) → count_if p xs ≤ count_if (λ x. job == x) xs + count_if q xs
count_if-one_more job p q h [] = omega arith
count_if-one_more job p q h (x ∷ xs) = ground (arith, h x, count_if-one_more job p q h xs)

count_if-absent : (job : ℕ) (xs : List ℕ) → elem job xs ≡ false → count_if (λ x. job == x) xs ≡ 0
count_if-absent job [] h = refl
count_if-absent job (x ∷ xs) h = ground (arith, count_if-absent job xs)

module _ (R : Redis) where
  -- How many jobs that are registered on a model hold a lease.
  abbrev pub leased_on : Keys R → Text → ℕ
  leased_on q model = count_if (has_lease R q) (R.smembers (q.model_running model))

  -- Each job that holds a lease and was claimed for the model is in the model's running set, by which the
  -- script counts.
  abbrev pub AllRegistered : Keys R → Text → Type 0
  AllRegistered q model =
      (j : ℕ)
      → has_lease R q j ≡ true
      → R.hget j q.job_model ≡ some model
      → elem j (R.smembers (q.model_running model)) ≡ true

  -- The loop drops no leased member.
  count_running-keeps :
      (leases : R.ZSet) (members : List ℕ) (m : R.MSet) (j : ℕ)
      → is_some (R.zscore j leases) ≡ true
      → elem j (R.smembers m) ≡ true
      → elem j (R.smembers (count_running R leases members m).0) ≡ true
  unfolding count_running
  count_running-keeps leases [] m j held here = here
  count_running-keeps leases (x ∷ xs) m j held here =
      elim (Bool-cases (is_some (R.zscore x leases))) [
        | inl leased ↦ rw leased (count_running-keeps leases xs m j held here)
        | inr free ↦
            let apart : (j == x) ≡ false = elim (Bool-cases (j == x)) [
              | inl same ↦ absurd (
                  true-false
                    (sym held ∙ ap (λ i. is_some (R.zscore i leases)) (==_eq j x same) ∙ free))
              | inr other ↦ other
            ] in
            rw free (
              count_running-keeps leases xs (R.srem x m) j held
                (rw (R.elem-srem j x m, apart) here))
      ]

  prune-AllRegistered :
      (q : Keys R) (model : Text) (limit : ℕ)
      → AllRegistered q model
      → AllRegistered (prune R q model limit).0 model
  unfolding prune
  prune-AllRegistered q model limit h = elim (Bool-cases (ltb 0 limit)) [
    | inr off ↦ rw off h
    | inl on ↦
        rw (on, text_eq_self model)
          (λ j held at.
            count_running-keeps q.leases (R.smembers (q.model_running model))
              (q.model_running model) j held (h j held at))
  ]

  take_job-AllRegistered :
      (q : Keys R) (job : ℕ) (worker : Text) (until : ℤ) (model : Text)
      → is_empty model ≡ false
      → AllRegistered q model
      → AllRegistered (take_job R q job worker until model) model
  unfolding take_job
  take_job-AllRegistered q job worker until model named h =
      rw (named, text_eq_self model)
        (λ j held at. R.elem-sadd j job (q.model_running model) ∙ (elim (Bool-cases (j == job)) [
          | inl same ↦ rw same
          | inr other ↦ rw other (
              h j (sym (rw (R.zscore-zadd j job until q.leases, other)) ∙ held)
                (sym (rw (R.hget-hset j job model q.job_model, other)) ∙ at))
        ]))

  -- The loop counts the leased members, and removes none of them.
  pub count_running-leased :
      (leases : R.ZSet) (members : List ℕ) (m : R.MSet)
      → let leased = λ (x : ℕ). is_some (R.zscore x leases) in
        ((count_running R leases members m).1 ≡ count_if leased members)
        × (count_if leased (R.smembers (count_running R leases members m).0)
            ≡ count_if leased (R.smembers m))
  unfolding count_running
  count_running-leased leases [] m = (refl, refl)
  count_running-leased leases (x ∷ xs) m = elim (Bool-cases (is_some (R.zscore x leases))) [
    | inl held ↦ let ih = count_running-leased leases xs m in rw held (omega (arith, ih.0), ih.1)
    | inr free ↦
        let ih = count_running-leased leases xs (R.srem x m) in
        let kept = R.count-srem (λ (y : ℕ). is_some (R.zscore y leases)) x m in
        rw free (omega (arith, ih.0), ih.1 ∙ ground (arith, kept, free))
  ]

  take_job-leased :
      (q : Keys R) (job : ℕ) (worker : Text) (until : ℤ) (model : Text)
      → is_empty model ≡ false
      → leased_on (take_job R q job worker until model) model ≤ leased_on q model + 1
  unfolding take_job
  take_job-leased q job worker until model named =
      let m = q.model_running model in
      let p = λ (x : ℕ). is_some (R.zscore x (R.zadd job until q.leases)) in
      let more =
        count_if-one_more job p (has_lease R q)
          (λ x. rw (R.zscore-zadd x job until q.leases) (ground arith)) (R.smembers m) in
      rw (named, text_eq_self model)
        (ground (
          arith,
          R.count-sadd p job m,
          more,
          R.count-member job m,
          count_if-absent job (R.smembers m),
          R.zscore-zadd job job until q.leases,
        ))

  pub prune-leased :
      (q : Keys R) (model : Text) (limit : ℕ)
      → 0 < limit
      → leased_on (prune R q model limit).0 model ≡ (prune R q model limit).1
  unfolding prune
  prune-leased q model limit pos =
      let m = q.model_running model in
      let (counted, kept) = count_running-leased q.leases (R.smembers m) m in
      rw (lt→ltb 0 limit pos, text_eq_self model) (kept ∙ sym counted)

  -- A claim that succeeds has passed the two checks.
  pub claimed :
      (q : Keys R) (job : ℕ) (worker : Text) (until : ℤ) (model : Text) (limit : ℕ)
      → (claim_job R q job worker until model limit).1 ≡ ok
      → (is_queued R q job ≡ true)
        × ((ltb 0 limit && leb limit (prune R q model limit).1) ≡ false)
        × ((claim_job R q job worker until model limit).0
            ≡ take_job R (prune R q model limit).0 job worker until model)
  unfolding claim_job
  claimed q job worker until model limit h = elim (Bool-cases (is_queued R q job)) [
    | inr absent ↦ let e : gone ≡ ok = rw absent at h in cc
    | inl queued ↦ elim (Bool-cases (ltb 0 limit && leb limit (prune R q model limit).1)) [
      | inl full ↦ let e : blocked ≡ ok = rw (queued, full) at h in cc
      | inr room ↦ (queued, room, rw (queued, room))
    ]
  ]

  -- What a claim under a limit leaves: the job is leased for the model, every job that is leased for the
  -- model is registered on it, and at most so many registered jobs are leased.
  pub record IsWithinLimit (q : Keys R) (job : ℕ) (model : Text) (limit : ℕ) : Type 0 where
    pub leased : has_lease R q job ≡ true
    pub of_model : R.hget job q.job_model ≡ some model
    pub registered : AllRegistered q model
    pub within : leased_on q model ≤ limit

  take_job-of_model :
      (q : Keys R) (job : ℕ) (worker : Text) (until : ℤ) (model : Text)
      → is_empty model ≡ false
      → (has_lease R (take_job R q job worker until model) job ≡ true)
        × (R.hget job (take_job R q job worker until model).job_model ≡ some model)
  unfolding take_job
  take_job-of_model q job worker until model named = (
    rw (R.zscore-zadd job job until q.leases, ==_self job),
    rw named (rw (R.hget-hset job job model q.job_model, ==_self job)),
  )

  -- If every job that is leased for a model is registered on it, then after a claim for the model that
  -- succeeds under a limit this is so again, now with the claimed job, and at most `limit` of the
  -- registered jobs are leased. So at most `limit` jobs are leased for the model.
  pub claim_job-leased :
      (q : Keys R) (job : ℕ) (worker : Text) (until : ℤ) (model : Text) (limit : ℕ)
      → 0 < limit
      → is_empty model ≡ false
      → AllRegistered q model
      → (claim_job R q job worker until model limit).1 ≡ ok
      → IsWithinLimit (claim_job R q job worker until model limit).0 job model limit
  claim_job-leased q job worker until model limit pos named all h =
      let (queued, room, eq) = claimed q job worker until model limit h in
      let q' = (prune R q model limit).0 in
      rw eq (record {
        leased = (take_job-of_model q' job worker until model named).0;
        of_model = (take_job-of_model q' job worker until model named).1;
        registered =
            take_job-AllRegistered q' job worker until model named
              (prune-AllRegistered q model limit all);
        within = ground (
          arith,
          room,
          prune-leased q model limit pos,
          take_job-leased q' job worker until model named,
        );
      })
