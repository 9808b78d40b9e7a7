-- ===== src/Tests/StorageRuns.antt =====
-- An upload that fits, and a sweep that clears one job.
use batch_inference_console.Prelude.{ℕ, ◌≡◌, refl, true, none, some, [], ◌∷◌, arith}
use batch_inference_console.Models.{Job, JobStatus}
use batch_inference_console.Database.{Db, list_schema}
use batch_inference_console.Storage.Quotas.{Files, Limits}
use batch_inference_console.Storage.Preview.{Foretells, preview, preview-Foretells}
use batch_inference_console.Storage.Retention.{Policy, Order, sweep}
use batch_inference_console.Storage.Cleared.{IsCleared, sweep-IsCleared}
use batch_inference_console.Tests.Samples.{sample_job, sample_user}

abbrev staged : Files
staged = record { staged_of = λ user. some 700 ∷ none ∷ []; all_staged = some (700 ∷ 50 ∷ []) }

abbrev small_limits : Limits
small_limits = record { default_user_storage_gb = 1; max_total_storage_gb = 2 }

abbrev uploaded : Job
uploaded = record sample_job { input_size = 900 }

abbrev two_chunks : ℕ
two_chunks = 900

abbrev old_job : Job
old_job = record sample_job { status = JobStatus.succeeded; finished_at = some 5000 }

abbrev old_db : Db list_schema
old_db = record { jobs = old_job ∷ []; users = sample_user ∷ []; records = [] }

abbrev weekly : Policy
weekly = record { retention_days = 7; purge_input_files = true }

abbrev as_listed : Order
as_listed = record { sort = λ ids. ids; elem-sort = λ k ids. refl; sum_of-sort = λ f ids. refl }

cleared_one : (sweep list_schema weekly as_listed 1000000 (λ id. 20) old_db).freed ≡ 520
unfolding sweep
cleared_one = refl

sweep-IsCleared_example :
    IsCleared 7 1000000 (some old_job) (
      list_schema.jobs.get 0 (sweep list_schema weekly as_listed 1000000 (λ id. 20) old_db).db.jobs)
sweep-IsCleared_example = sweep-IsCleared list_schema weekly as_listed 1000000 (λ id. 20) old_db 0

preview-Foretells_example :
    Foretells list_schema weekly 1000000
      (λ id. 20)
      old_db
      (preview list_schema weekly 1000000 (λ id. 20) old_db)
      (sweep list_schema weekly as_listed 1000000 (λ id. 20) old_db)
preview-Foretells_example =
    preview-Foretells list_schema weekly 1000000 (λ id. 20) as_listed old_db refl (omega arith)
