-- ===== src/Runner/Prepare.antt =====
-- `_flush_db` and the change of the billing in `_prepare_billing` of backend/app/worker/runner.py.
use batch_inference_console.Prelude.{
  ℕ, ◌≡◌, Bool, true, false, not, Option, none, some, if◌then◌else◌,
}
use batch_inference_console.Models.{Job}
use batch_inference_console.Database.{Schema, Db}
use batch_inference_console.Billing.Cut.{cut_if, has_unbilled, record_of}

-- What the runner holds in memory and flushes to the row.
pub record Usage : Type 0 where
  pub completed : ℕ
  pub failed : ℕ
  pub prompt_tokens : ℕ
  pub completion_tokens : ℕ
  pub cached_tokens : ℕ
  pub result_size : ℕ

-- The `UPDATE` of `_flush_db`
unfoldable pub flush_row : Usage → Job → Job
flush_row u row = record row {
  completed_items = u.completed;
  failed_items = u.failed;
  prompt_tokens = u.prompt_tokens;
  completion_tokens = u.completion_tokens;
  cached_tokens = u.cached_tokens;
  result_size = u.result_size;
}

-- The tokens that the scan has found, then `rebase`: the columns that this changes.
unfoldable pub switched_row : Usage → Bool → Job → Job
switched_row u enabled row = record row {
  prompt_tokens = u.prompt_tokens;
  completion_tokens = u.completion_tokens;
  cached_tokens = u.cached_tokens;
  billing_enabled = enabled;
  billed_prompt_tokens = u.prompt_tokens;
  billed_completion_tokens = u.completion_tokens;
  billed_cached_tokens = u.cached_tokens;
}

abbrev pub same_bool : Bool → Bool → Bool
same_bool true b = b
same_bool false b = not b

module _ (S : Schema) where
  -- `if row.billing_enabled != self._billing`, with the cut of what is owed under the old way
  abbrev pub switch_row : Db S → ℕ → Usage → Bool → Option Job → Db S
  switch_row db job_id u enabled none = db
  switch_row db job_id u enabled (some row) =
      if same_bool row.billing_enabled enabled
      then db
      else (let (db', row') = cut_if S row.billing_enabled db job_id row in
          record db' { jobs = S.jobs.update job_id (switched_row u enabled) db'.jobs })

  unfoldable pub switch_billing : Db S → ℕ → Usage → Bool → Db S
  unfolding cut_if switched_row
  switch_billing db job_id u enabled = switch_row db job_id u enabled (S.jobs.get job_id db.jobs)

  -- A job whose billing has changed: its row has the new way of billing and the tokens that the scan has
  -- found, nothing of them is owed, and the records are those of before with one for what the row owed.
  pub record HasMoved (db : Db S) (k : ℕ) (row : Job) (u : Usage) (enabled : Bool) (db' : Db S)
      : Type 0 where
    pub new : Job
    pub stored : S.jobs.get k db'.jobs ≡ some new
    pub set : new.billing_enabled ≡ enabled
    pub counted :
        (new.prompt_tokens ≡ u.prompt_tokens) × (new.completion_tokens ≡ u.completion_tokens)
    pub owes_nothing : has_unbilled new ≡ false
    pub charged : db'.records ≡ (
        if has_unbilled row
        then S.records.insert (record_of row (S.users.get row.user_id db.users) none) db.records
        else db.records)
