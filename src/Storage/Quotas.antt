-- ===== src/Storage/Quotas.antt =====
-- `Quota`, `user_quota`, `total_quota` and `check_before_upload` of backend/app/services/storage.py.
-- The sizes of staged files come from the file system; `none` is a file or a folder that cannot be
-- read.
use batch_inference_console.Prelude.{
  ℕ, ◌+◌, ◌*◌, ◌≤◌, ◌≡◌, ◌≢◌, Bool, true, false, not, ◌&&◌, Option, none, some, List, [], ◌∷◌, ◌==◌,
  ltb, is_some, if◌then◌else◌, arith,
}
use batch_inference_console.Models.{Job, User}
use batch_inference_console.Database.{Schema, Db}

-- `MB` and `GB`
abbrev pub mb : ℕ
mb = 1048576

abbrev pub gb : ℕ
gb = 1073741824

pub record Quota : Type 0 where
  pub used : ℕ
  pub limit : ℕ
  pub pending : ℕ

-- A limit of 0 is no limit.
unfoldable pub would_exceed : Quota → ℕ → Bool
would_exceed q incoming = not (q.limit == 0) && ltb q.limit (q.used + incoming)

pub record Files : Type 0 where
  pub staged_of : ℕ → List (Option ℕ)
  pub all_staged : Option (List ℕ)

pub record Limits : Type 0 where
  pub default_user_storage_gb : ℕ
  pub max_total_storage_gb : ℕ

abbrev pub sum_readable : List (Option ℕ) → ℕ
sum_readable [] = 0
sum_readable (none ∷ sizes) = sum_readable sizes
sum_readable (some n ∷ sizes) = n + sum_readable sizes

-- `_pending_upload_bytes`
unfoldable pub pending_upload_bytes : Files → ℕ → ℕ
pending_upload_bytes files user_id = sum_readable (files.staged_of user_id)

abbrev pub sum_sizes : List ℕ → ℕ
sum_sizes [] = 0
sum_sizes (n ∷ sizes) = n + sum_sizes sizes

abbrev pub sizes_or_zero : Option (List ℕ) → ℕ
sizes_or_zero none = 0
sizes_or_zero (some sizes) = sum_sizes sizes

abbrev pub is_user : Option ℕ → Job → Bool
is_user none job = true
is_user (some user_id) job = job.user_id == user_id

-- What a job counts for: nothing once its files are cleared.
abbrev pub counted_bytes : Option ℕ → Job → ℕ
counted_bytes who job =
    if not (is_some job.files_purged_at) && is_user who job
    then job.input_size + job.result_size
    else 0

pub data Verdict : Type 0 where
  accepted user_full total_full : Verdict

room :
    {total total' added : ℕ} (q : Quota) (incoming : ℕ)
    → would_exceed q incoming ≡ false
    → q.limit ≢ 0
    → total' ≡ total + added
    → added ≤ incoming
    → total ≤ q.used
    → total' ≤ q.limit
unfolding would_exceed
room q incoming h limited e le within = ground arith

fresh_bytes :
    (who : Option ℕ) (job : Job) (incoming : ℕ)
    → job.input_size ≡ incoming
    → job.result_size ≡ 0
    → counted_bytes who job ≤ incoming
fresh_bytes who job incoming si sr = ground arith

module _ (S : Schema) where
  -- `_job_bytes`
  unfoldable pub job_bytes : Db S → Option ℕ → ℕ
  job_bytes db who = S.jobs.sum (counted_bytes who) db.jobs

  unfoldable pub user_quota : Files → Limits → Db S → ℕ → User → Quota
  unfolding job_bytes pending_upload_bytes
  user_quota files limits db user_id user =
      let pending = pending_upload_bytes files user_id in
      let limit_mb =
        if user.max_storage_mb == 0
        then limits.default_user_storage_gb * 1024
        else user.max_storage_mb in
      record {
        used = job_bytes db (some user_id) + pending;
        limit = limit_mb * mb;
        pending = pending;
      }

  unfoldable pub total_quota : Files → Limits → Db S → Quota
  unfolding job_bytes
  total_quota files limits db =
      let pending = sizes_or_zero files.all_staged in
      record {
        used = job_bytes db none + pending;
        limit = limits.max_total_storage_gb * gb;
        pending = pending;
      }

  unfoldable pub check_before_upload : Files → Limits → Db S → ℕ → User → ℕ → Verdict
  unfolding user_quota total_quota would_exceed
  check_before_upload files limits db user_id user incoming =
      if would_exceed (user_quota files limits db user_id user) incoming
      then user_full
      else if would_exceed (total_quota files limits db) incoming
      then total_full
      else accepted

  user_within :
      (files : Files) (limits : Limits) (db : Db S) (user_id : ℕ) (user : User)
      → job_bytes db (some user_id) ≤ (user_quota files limits db user_id user).used
  unfolding user_quota
  user_within files limits db user_id user = omega arith

  total_within :
      (files : Files) (limits : Limits) (db : Db S)
      → job_bytes db none ≤ (total_quota files limits db).used
  unfolding total_quota
  total_within files limits db = omega arith

  pub check_accepted :
      (files : Files) (limits : Limits) (db : Db S) (user_id : ℕ) (user : User) (incoming : ℕ)
      → check_before_upload files limits db user_id user incoming ≡ accepted
      → (would_exceed (user_quota files limits db user_id user) incoming ≡ false)
        × (would_exceed (total_quota files limits db) incoming ≡ false)
  unfolding check_before_upload
  check_accepted files limits db user_id user incoming h = ground arith

  -- Once so many bytes are accepted under limits, a job made of them keeps both the user's jobs and all
  -- jobs within their limits.
  pub check_before_upload-fits :
      (files : Files) (limits : Limits) (db : Db S) (user_id : ℕ) (user : User) (incoming : ℕ)
      (job : Job)
      → check_before_upload files limits db user_id user incoming ≡ accepted
      → (user_quota files limits db user_id user).limit ≢ 0
      → (total_quota files limits db).limit ≢ 0
      → job.input_size ≡ incoming
      → job.result_size ≡ 0
      → (let db' = record db { jobs = S.jobs.insert job db.jobs } in
          (job_bytes db' (some user_id) ≤ (user_quota files limits db user_id user).limit)
          × (job_bytes db' none ≤ (total_quota files limits db).limit))
  unfolding job_bytes
  check_before_upload-fits files limits db user_id user incoming job h hu ht si sr =
      let (cu, ct) = check_accepted files limits db user_id user incoming h in
      (
        room (user_quota files limits db user_id user) incoming cu hu
            (S.jobs.sum-insert (counted_bytes (some user_id)) job db.jobs)
            (fresh_bytes (some user_id) job incoming si sr)
            (user_within files limits db user_id user),
        room (total_quota files limits db) incoming ct ht
            (S.jobs.sum-insert (counted_bytes none) job db.jobs)
            (fresh_bytes none job incoming si sr) (total_within files limits db),
      )
