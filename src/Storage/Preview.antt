-- ===== src/Storage/Preview.antt =====
-- `preview` of backend/app/services/retention.py, and what it says of the next `sweep`.
use batch_inference_console.Prelude.{
  ℕ, suc, zero, ◌+◌, ◌≡◌, ◌≤◌, refl, ap, sym, ◌∙◌, Bool, false, not, ◌&&◌, Option, none, some, List,
  [], ◌∷◌, is_empty, ◌==◌, length, take, sum_of, is_some, if◌then◌else◌, Bool-cases, inl, inr,
  arith,
}
use batch_inference_console.Models.{Job}
use batch_inference_console.Database.{Schema, Db}
use batch_inference_console.Storage.Retention.{
  Policy, Order, batch_limit, is_candidate, is_expired, input_freed, Sweep, purge_one, purge_each,
  sweep,
}

pub record Preview : Type 0 where
  pub retention_days : ℕ
  pub tracked_jobs : ℕ
  pub tracked_bytes : ℕ
  pub expiring_jobs : ℕ
  pub expiring_bytes : ℕ
  pub already_purged_jobs : ℕ

-- `Job.files_purged_at.is_not(None)`
abbrev pub is_purged : Job → Bool
is_purged job = is_some job.files_purged_at

take_all : (n : ℕ) (ids : List ℕ) → length ids ≤ n → take n ids ≡ ids
take_all zero [] h = refl
take_all zero (x ∷ xs) h = absurd (omega (arith, h))
take_all (suc n) [] h = refl
take_all (suc n) (x ∷ xs) h = ap (λ l. x ∷ l) (take_all n xs (omega (arith, h)))

ones : (ids : List ℕ) → sum_of (λ id. 1) ids ≡ length ids
ones [] = refl
ones (x ∷ xs) = omega (arith, ones xs)

length-sort : (order : Order) (ids : List ℕ) → length (order.sort ids) ≡ length ids
length-sort order ids = sym (ones (order.sort ids)) ∙ order.sum_of-sort (λ id. 1) ids ∙ ones ids

module _ (S : Schema) (policy : Policy) (now : ℕ) (result_bytes : ℕ → ℕ) where
  -- The size of the files of a job, the input counted in every case.
  abbrev pub size_of : ℕ → Job → ℕ
  size_of id job = result_bytes id + job.input_size

  -- Without a retention there is no cutoff, and nothing expires.
  abbrev pub expires : Job → Bool
  expires job = not (policy.retention_days == 0) && is_expired policy.retention_days now job

  unfoldable pub preview_one : ℕ → Option Job → Preview → Preview
  unfolding is_expired
  preview_one id none p = p
  preview_one id (some job) p =
      let tracked = record p { tracked_bytes = p.tracked_bytes + size_of id job } in
      if expires job
      then record tracked {
        expiring_jobs = suc p.expiring_jobs;
        expiring_bytes = p.expiring_bytes + size_of id job;
      }
      else tracked

  unfoldable pub preview_each : (ℕ → Option Job) → List ℕ → Preview → Preview
  unfolding preview_one
  preview_each rows [] p = p
  preview_each rows (id ∷ ids) p = preview_each rows ids (preview_one id (rows id) p)

  abbrev fresh_preview : Db S → Preview
  fresh_preview db = record {
    retention_days = policy.retention_days;
    tracked_jobs = length (S.jobs.select is_candidate db.jobs);
    tracked_bytes = 0;
    expiring_jobs = 0;
    expiring_bytes = 0;
    already_purged_jobs = length (S.jobs.select is_purged db.jobs);
  }

  unfoldable pub preview : Db S → Preview
  unfolding preview_each
  preview db =
      preview_each (λ id. S.jobs.get id db.jobs) (S.jobs.select is_candidate db.jobs)
        (fresh_preview db)

  -- The input files that a sweep leaves, as the policy or the lack of a path has it.
  abbrev input_kept : ℕ → Job → ℕ
  input_kept id job =
      if policy.purge_input_files && not (is_empty job.input_path) then 0 else job.input_size

  abbrev of_row : (ℕ → Job → ℕ) → ℕ → Option Job → ℕ
  of_row f id none = 0
  of_row f id (some job) = if is_expired policy.retention_days now job then f id job else 0

  abbrev pub over : (ℕ → Job → ℕ) → (ℕ → Option Job) → List ℕ → ℕ
  over f rows ids = sum_of (λ id. of_row f id (rows id)) ids

  freed_by : ℕ → Job → ℕ
  freed_by id job = result_bytes id + input_freed policy job

  purge_one_sum :
      (rows : ℕ → Option Job) (id : ℕ) (o : Option Job) (st : Sweep S)
      → ((purge_one S policy now result_bytes rows id o st).purged
          ≡ st.purged + of_row (λ i j. 1) id o)
        × ((purge_one S policy now result_bytes rows id o st).freed
            ≡ st.freed + of_row freed_by id o)
  unfolding purge_one freed_by
  purge_one_sum rows id none st = (omega arith, omega arith)
  purge_one_sum rows id (some job) st =
      elim (Bool-cases (is_expired policy.retention_days now job)) [
        | inl e ↦ rw e (omega arith, omega arith)
        | inr e ↦ rw e (omega arith, omega arith)
      ]

  purge_each_sum :
      (rows : ℕ → Option Job) (ids : List ℕ) (st : Sweep S)
      → ((purge_each S policy now result_bytes rows ids st).purged
          ≡ st.purged + over (λ i j. 1) rows ids)
        × ((purge_each S policy now result_bytes rows ids st).freed
            ≡ st.freed + over freed_by rows ids)
  unfolding purge_each
  purge_each_sum rows [] st = (omega arith, omega arith)
  purge_each_sum rows (id ∷ ids) st =
      let one = purge_one_sum rows id (rows id) st in
      let all =
        purge_each_sum rows ids (purge_one S policy now result_bytes rows id (rows id) st) in
      (omega (arith, one.0, all.0), omega (arith, one.1, all.1))

  preview_one_sum :
      (id : ℕ) (o : Option Job) (p : Preview)
      → (policy.retention_days == 0) ≡ false
      → ((preview_one id o p).expiring_jobs ≡ p.expiring_jobs + of_row (λ i j. 1) id o)
        × ((preview_one id o p).expiring_bytes ≡ p.expiring_bytes + of_row size_of id o)
  unfolding preview_one
  preview_one_sum id none p on = (omega arith, omega arith)
  preview_one_sum id (some job) p on =
      elim (Bool-cases (is_expired policy.retention_days now job)) [
        | inl e ↦ rw (on, e) (omega arith, omega arith)
        | inr e ↦ rw (on, e) (omega arith, omega arith)
      ]

  preview_each_sum :
      (rows : ℕ → Option Job) (ids : List ℕ) (p : Preview)
      → (policy.retention_days == 0) ≡ false
      → ((preview_each rows ids p).expiring_jobs ≡ p.expiring_jobs + over (λ i j. 1) rows ids)
        × ((preview_each rows ids p).expiring_bytes ≡ p.expiring_bytes + over size_of rows ids)
  unfolding preview_each
  preview_each_sum rows [] p on = (omega arith, omega arith)
  preview_each_sum rows (id ∷ ids) p on =
      let one = preview_one_sum id (rows id) p on in
      let all = preview_each_sum rows ids (preview_one id (rows id) p) on in
      (omega (arith, one.0, all.0), omega (arith, one.1, all.1))

  row_sum :
      (id : ℕ) (o : Option Job)
      → of_row freed_by id o + of_row input_kept id o ≡ of_row size_of id o
  unfolding freed_by
  row_sum id none = refl
  row_sum id (some job) = ground arith

  over_sum :
      (rows : ℕ → Option Job) (ids : List ℕ)
      → over freed_by rows ids + over input_kept rows ids ≡ over size_of rows ids
  over_sum rows [] = refl
  over_sum rows (id ∷ ids) = omega (arith, over_sum rows ids, row_sum id (rows id))

  over_sort :
      (order : Order) (f : ℕ → Job → ℕ) (rows : ℕ → Option Job) (ids : List ℕ)
      → over f rows (order.sort ids) ≡ over f rows ids
  over_sort order f rows ids = order.sum_of-sort (λ id. of_row f id (rows id)) ids

  -- What the preview says of the sweep: the jobs that it clears, and the bytes that it frees but for the
  -- input files that it keeps.
  pub record Foretells (db : Db S) (p : Preview) (st : Sweep S) : Type 0 where
    pub same_jobs : st.purged ≡ p.expiring_jobs
    pub same_bytes :
        st.freed
          + over input_kept (λ id. S.jobs.get id db.jobs) (S.jobs.select is_candidate db.jobs)
        ≡ p.expiring_bytes

  -- With a retention set and at most as many candidates as a sweep takes at once, the preview foretells
  -- the sweep: the jobs that it says will expire are as many as the sweep clears, and the bytes are those
  -- that the sweep frees and the input files of these jobs that the policy keeps.
  pub preview-Foretells :
      (order : Order) (db : Db S)
      → (policy.retention_days == 0) ≡ false
      → length (S.jobs.select is_candidate db.jobs) ≤ batch_limit
      → Foretells db (preview db) (sweep S policy order now result_bytes db)
  unfolding preview sweep
  preview-Foretells order db on few =
      let rows : ℕ → Option Job = λ id. S.jobs.get id db.jobs in
      let ids = S.jobs.select is_candidate db.jobs in
      let whole =
        take_all batch_limit (order.sort ids) (omega (arith, few, length-sort order ids)) in
      let swept = purge_each_sum rows (order.sort ids) record { db = db; purged = 0; freed = 0 } in
      let shown = preview_each_sum rows ids (fresh_preview db) on in
      rw (on, whole)
        record {
          same_jobs = omega (arith, swept.0, shown.0, over_sort order (λ i j. 1) rows ids);
          same_bytes =
              omega (arith, swept.1, shown.1, over_sort order freed_by rows ids, over_sum rows ids);
        }
