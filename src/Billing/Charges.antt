-- ===== src/Billing/Charges.antt =====
-- What one cut does (backend/app/services/billing.py `cut`): the record holds exactly the usage
-- above what was billed, the row is advanced by it, and nothing else moves.
use batch_inference_console.Prelude.{
  ℕ, ◌+◌, ◌≤◌, ◌≡◌, ◌≢◌, refl, Bool, true, false, ◌&&◌, ◌||◌, Option, none, some, Text, ltb,
  ==_self, if◌then◌else◌, is_some, inl, inr, Option-cases, Bool-cases, max, min, ◌-◌, arith,
}
use batch_inference_console.Models.{Job, User, BillingRecord, BillingStatus}
use batch_inference_console.Database.{Schema, Db}
use batch_inference_console.Billing.RequestId.{request_id}
use batch_inference_console.Billing.Cut.{
  cut, cut_if, record_of, advance, has_unbilled, plan_job, is_current, cut_before_change,
  rebase_row,
}

-- A record for the job as it stood, and the row that it leaves.
pub record IsCharge (job : Job) (r : BillingRecord) (row : Job) : Type 0 where
  pub id_of_cut : r.request_id ≡ request_id job.id (job.billing_seq + 1)
  pub next_seq : row.billing_seq ≡ job.billing_seq + 1
  pub prompt_charged : r.prompt_tokens + job.billed_prompt_tokens ≡ row.billed_prompt_tokens
  pub completion_charged :
      r.completion_tokens + job.billed_completion_tokens ≡ row.billed_completion_tokens
  pub cached_charged : r.cached_tokens + job.billed_cached_tokens ≡ row.billed_cached_tokens
  pub prompt_caught_up : row.billed_prompt_tokens ≡ max job.prompt_tokens job.billed_prompt_tokens
  pub completion_caught_up :
      row.billed_completion_tokens ≡ max job.completion_tokens job.billed_completion_tokens
  -- Cached tokens are part of the prompt tokens, so what is not billed of them is cut up to these.
  pub cached_cut :
      r.cached_tokens
      ≡ min
          (job.cached_tokens - job.billed_cached_tokens)
          (job.prompt_tokens - job.billed_prompt_tokens)
  pub for_job :
      (r.job_id ≡ some job.id) × (r.user_id ≡ job.user_id) × (r.status ≡ BillingStatus.pending)
  pub not_empty : 1 ≤ r.prompt_tokens + r.completion_tokens
  pub usage_kept :
      (row.prompt_tokens ≡ job.prompt_tokens)
      × (row.completion_tokens ≡ job.completion_tokens)
      × (row.status ≡ job.status)
  pub settled : has_unbilled row ≡ false

IsCharge-of_advance :
    (job : Job) (user : Option User) (memo : Option Text)
    → has_unbilled job ≡ true
    → IsCharge job (record_of job user memo) (advance job job)
unfolding record_of advance
IsCharge-of_advance job user memo h = ground arith

-- The filter by which `sweep` looks for jobs that still owe a record.
abbrev pub is_due : Option Job → Bool
is_due none = false
is_due (some job) =
    job.billing_enabled
    && (ltb job.billed_prompt_tokens job.prompt_tokens
        || ltb job.billed_completion_tokens job.completion_tokens)

module _ (S : Schema) where
  pub get_updated :
      (k : ℕ) (f : Job → Job) (db : Db S) {job : Job}
      → S.jobs.get k db.jobs ≡ some job
      → S.jobs.get k (S.jobs.update k f db.jobs) ≡ some (f job)
  get_updated k f db h = rw (S.jobs.get-update k k f db.jobs, ==_self k, h)

  get_other :
      (j k : ℕ) (f : Job → Job) (db : Db S)
      → j ≢ k
      → S.jobs.get j (S.jobs.update k f db.jobs) ≡ S.jobs.get j db.jobs
  get_other j k f db ne = rw (S.jobs.get-update j k f db.jobs) (ground arith)

  -- `cut` where the job was found: it runs if there is something to bill.
  pub cut_of_job :
      (db : Db S) (k : ℕ) (memo : Option Text) (job : Job)
      → S.jobs.get k db.jobs ≡ some job
      → has_unbilled job ≡ true
      → cut S db k memo ≡ (
          let r = record_of job (S.users.get job.user_id db.users) memo in
          (
            record db {
              jobs = S.jobs.update k (advance job) db.jobs;
              records = S.records.insert r db.records;
            },
            some r,
          ))
  unfolding cut
  cut_of_job db k memo job h due =
      rw (h, plan_job, due) (rw (h, is_current, ==_self job.billing_seq))

  pub cut_nothing :
      (db : Db S) (k : ℕ) (memo : Option Text)
      → plan_job (S.jobs.get k db.jobs) ≡ none
      → cut S db k memo ≡ (db, none)
  unfolding cut
  cut_nothing db k memo h = rw h

  -- A cut gives a record exactly when the job bills and has used more than was billed.
  pub cut-is_due :
      (db : Db S) (k : ℕ) (memo : Option Text)
      → is_some (cut S db k memo).1 ≡ is_due (S.jobs.get k db.jobs)
  cut-is_due db k memo = elim (Option-cases (S.jobs.get k db.jobs)) [
    | inl gone ↦ rw (cut_nothing db k memo (rw gone), gone)
    | inr (job, e) ↦ elim (Bool-cases (has_unbilled job)) [
      | inl due ↦ rw (cut_of_job db k memo job e due, e) (ground arith)
      | inr idle ↦ rw (cut_nothing db k memo (rw (e, plan_job, idle)), e) (ground arith)
    ]
  ]

  -- What a call of `cut` has done, by its result.
  abbrev pub HasCut : Db S → ℕ → Db S × Option BillingRecord → Type 0
  HasCut db k (db', none) = db' ≡ db
  HasCut db k (db', some r) =
      (job : Job) × (row : Job) × (S.jobs.get k db.jobs ≡ some job)
      × (S.jobs.get k db'.jobs ≡ some row)
      × IsCharge job r row
      × (db'.records ≡ S.records.insert r db.records)
      × ((j : ℕ) → j ≢ k → S.jobs.get j db'.jobs ≡ S.jobs.get j db.jobs)

  -- Every call of `cut` either changes nothing, or adds one pending record for the job and its user,
  -- for exactly its prompt and completion tokens that were not billed, and for its cached tokens that
  -- were not billed, up to the prompt tokens of the record. It moves the billed counters of the job by
  -- that, leaves its usage and status, and leaves the other jobs as they were.
  pub cut_charges : (db : Db S) (k : ℕ) (memo : Option Text) → HasCut db k (cut S db k memo)
  cut_charges db k memo = elim (Option-cases (S.jobs.get k db.jobs)) [
    | inl gone ↦ rw (cut_nothing db k memo (rw gone))
    | inr (job, e) ↦ elim (Bool-cases (has_unbilled job)) [
      | inl due ↦ rw (cut_of_job db k memo job e due) (
        job,
        advance job job,
        e,
        get_updated k (advance job) db e,
        IsCharge-of_advance job (S.users.get job.user_id db.users) memo due,
        refl,
        λ j ne. get_other j k (advance job) db ne,
      )
      | inr idle ↦ rw (cut_nothing db k memo (rw (e, plan_job, idle)))
    ]
  ]

  -- After a cut nothing is left to cut: a second call gives no record and changes nothing.
  pub cut_twice :
      (db : Db S) (k : ℕ) (memo memo' : Option Text)
      → cut S (cut S db k memo).0 k memo' ≡ ((cut S db k memo).0, none)
  cut_twice db k memo memo' = elim (Option-cases (S.jobs.get k db.jobs)) [
    | inl gone ↦ rw (cut_nothing db k memo (rw gone)) (cut_nothing db k memo' (rw gone))
    | inr (job, e) ↦ elim (Bool-cases (has_unbilled job)) [
      | inl due ↦ rw (cut_of_job db k memo job e due) (
          cut_nothing _ k memo' (
            rw (
              get_updated k (advance job) db e,
              plan_job,
              (IsCharge-of_advance job none none due).settled,
            )))
      | inr idle ↦
          rw (cut_nothing db k memo (rw (e, plan_job, idle)))
            (cut_nothing db k memo' (rw (e, plan_job, idle)))
    ]
  ]

  -- The row and the records that a switch leaves.
  abbrev pub HasSwitched : Db S → ℕ → Job → Bool → Db S → Type 0
  HasSwitched db k job enabled_after db' =
      (row : Job) × (S.jobs.get k db'.jobs ≡ some row)
      × (row.billing_enabled ≡ enabled_after)
      × (row.prompt_tokens ≡ job.prompt_tokens)
      × (row.completion_tokens ≡ job.completion_tokens)
      × (has_unbilled row ≡ false)
      × (db'.records ≡ (
          if has_unbilled job
          then S.records.insert (record_of job (S.users.get job.user_id db.users) none) db.records
          else db.records))

  switched :
      (db db' : Db S) (k : ℕ) (job job' : Job) (enabled_after : Bool)
      → S.jobs.get k db'.jobs ≡ some job'
      → job'.prompt_tokens ≡ job.prompt_tokens
      → job'.completion_tokens ≡ job.completion_tokens
      → db'.records ≡ (
          if has_unbilled job
          then S.records.insert (record_of job (S.users.get job.user_id db.users) none) db.records
          else db.records)
      → HasSwitched db k job enabled_after
          (record db' { jobs = S.jobs.update k (rebase_row job' enabled_after) db'.jobs })
  unfolding rebase_row
  switched db db' k job job' enabled_after e p c r = (
    rebase_row job' enabled_after job',
    get_updated k (rebase_row job' enabled_after) db' e,
    refl,
    p,
    c,
    ground arith,
    r,
  )

  -- What `cut_if` hands to the rebase.
  abbrev pub IsCutIf : Db S → ℕ → Job → Db S × Job → Type 0
  IsCutIf db k job (db', job') =
      (S.jobs.get k db'.jobs ≡ some job')
      × (job'.prompt_tokens ≡ job.prompt_tokens)
      × (job'.completion_tokens ≡ job.completion_tokens)
      × (db'.records ≡ (
          if has_unbilled job
          then S.records.insert (record_of job (S.users.get job.user_id db.users) none) db.records
          else db.records))

  pub cut_if-IsCutIf :
      (b : Bool) (db : Db S) (k : ℕ) (job : Job)
      → S.jobs.get k db.jobs ≡ some job
      → job.billing_enabled ≡ b
      → IsCutIf db k job (cut_if S b db k job)
  unfolding cut_if
  cut_if-IsCutIf false db k job e off =
      let idle : has_unbilled job ≡ false = ground arith in (e, refl, refl, rw idle)
  cut_if-IsCutIf true db k job e on = elim (Bool-cases (has_unbilled job)) [
    | inl due ↦ rw (cut_of_job db k none job e due) (
        rw (get_updated k (advance job) db e) (
          refl,
          (IsCharge-of_advance job none none due).usage_kept.0,
          (IsCharge-of_advance job none none due).usage_kept.1,
          rw due,
        ))
    | inr idle ↦
        rw (cut_nothing db k none (rw (e, plan_job, idle))) (rw e (refl, refl, refl, rw idle))
  ]

  -- Switching a stored job's billing bills what it owes if it was billing, and nothing otherwise;
  -- afterwards nothing is owed, whichever way the switch went.
  pub cut_before_change_settles :
      (db : Db S) (k : ℕ) (job : Job) (enabled_after : Bool)
      → S.jobs.get k db.jobs ≡ some job
      → HasSwitched db k job enabled_after (cut_before_change S db k job enabled_after)
  unfolding cut_before_change
  cut_before_change_settles db k job enabled_after e =
      let (db', job') = cut_if S job.billing_enabled db k job in
      let h = cut_if-IsCutIf job.billing_enabled db k job e refl in
      switched db db' k job job' enabled_after h.0 h.1 h.2 h.3
