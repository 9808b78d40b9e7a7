-- ===== src/Storage/Retention.antt =====
-- `sweep` of backend/app/services/retention.py, without the staged uploads and the audit row. The
-- order that the database gives to `ORDER BY created_at` is a parameter.
use batch_inference_console.Prelude.{
  ℕ, suc, ◌+◌, ◌*◌, ◌≡◌, Bool, false, not, ◌&&◌, Option, none, some, List, [], ◌∷◌, is_empty, ◌==◌,
  ltb, elem, take, sum_of, is_some, if◌then◌else◌,
}
use batch_inference_console.Models.{Job, is_terminal}
use batch_inference_console.Database.{Schema, Db}

-- `BATCH_LIMIT`
abbrev pub batch_limit : ℕ
batch_limit = 500

pub record Policy : Type 0 where
  pub retention_days : ℕ
  pub purge_input_files : Bool

-- `ORDER BY created_at`: the same ids, each as often, in some order.
pub record Order : Type 0 where
  pub sort : List ℕ → List ℕ
  pub elem-sort : (k : ℕ) (ids : List ℕ) → elem k (sort ids) ≡ elem k ids
  pub sum_of-sort : (f : ℕ → ℕ) (ids : List ℕ) → sum_of f (sort ids) ≡ sum_of f ids

abbrev pub is_candidate : Job → Bool
is_candidate job = is_terminal job.status && not (is_some job.files_purged_at)

-- `job.finished_at or job.created_at`
abbrev pub stamp_of : Job → Option ℕ
stamp_of job = if is_some job.finished_at then job.finished_at else job.created_at

-- `stamp <= now - timedelta(days=days)`
abbrev pub is_past : ℕ → ℕ → Option ℕ → Bool
is_past days now none = false
is_past days now (some stamp) = not (ltb now (stamp + days * 86400))

unfoldable pub is_expired : ℕ → ℕ → Job → Bool
is_expired days now job = is_past days now (stamp_of job)

unfoldable pub purge_row : ℕ → Job → Job
purge_row now job = record job { files_purged_at = some now }

abbrev pub input_freed : Policy → Job → ℕ
input_freed policy job =
    if policy.purge_input_files && not (is_empty job.input_path) then job.input_size else 0

module _ (S : Schema) where
  pub record Sweep : Type 0 where
    pub db : Db S
    pub purged : ℕ
    pub freed : ℕ

  module _ (policy : Policy) (now : ℕ) (result_bytes : ℕ → ℕ) (rows : ℕ → Option Job) where
    unfoldable pub purge_one : ℕ → Option Job → Sweep → Sweep
    unfolding purge_row is_expired
    purge_one id none st = st
    purge_one id (some job) st =
        if is_expired policy.retention_days now job
        then record {
          db = record st.db { jobs = S.jobs.update id (purge_row now) st.db.jobs };
          purged = suc st.purged;
          freed = st.freed + result_bytes id + input_freed policy job;
        }
        else st

    -- The loop of `sweep` over the rows that it has read.
    unfoldable pub purge_each : List ℕ → Sweep → Sweep
    unfolding purge_one
    purge_each [] st = st
    purge_each (id ∷ ids) st = purge_each ids (purge_one id (rows id) st)

  unfoldable pub sweep : Policy → Order → ℕ → (ℕ → ℕ) → Db S → Sweep
  unfolding purge_each
  sweep policy order now result_bytes db =
      if policy.retention_days == 0
      then record { db = db; purged = 0; freed = 0 }
      else purge_each policy now result_bytes (λ id. S.jobs.get id db.jobs)
          (take batch_limit (order.sort (S.jobs.select is_candidate db.jobs)))
          record { db = db; purged = 0; freed = 0 }
