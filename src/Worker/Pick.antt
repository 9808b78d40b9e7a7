-- ===== src/Worker/Pick.antt =====
-- `Worker._claim` of backend/app/worker/main.py and `job_limit_for` of
-- backend/app/services/model_limits.py. The pages of the queue are read one after the other; as only a
-- claim that ends the search changes the queue, they are the beginning of one list.
use batch_inference_console.Prelude.{
  ℕ, Bool, true, false, not, ◌&&◌, ◌||◌, Option, none, some, List, [], ◌∷◌, Text, text_of, text_eq,
  is_empty, take, strip, if◌then◌else◌,
}
use batch_inference_console.Prelude.Int.{ℤ, pos, negsuc}
use batch_inference_console.Redis.{Redis}
use batch_inference_console.Database.{Schema}
use batch_inference_console.Jobs.Handlers.{
  World, Site, find, job_model_name, model_at, blocked_by_pin,
}
use batch_inference_console.Queue.State.{Keys, ok, gone, blocked, claim_job}

-- A rule of `model_job_limits`
pub record LimitRule : Type 0 where
  pub pattern : Text
  pub max_running_jobs : ℤ

abbrev at_least_zero : ℤ → ℕ
at_least_zero (pos n) = n
at_least_zero (negsuc n) = 0

module _ (fnmatch : Text → Text → Bool) where
  abbrev pub rule_limit : Text → List LimitRule → ℕ
  rule_limit model [] = 0
  rule_limit model (rule ∷ rules) =
      let rest = rule_limit model rules in
      if not (is_empty (strip rule.pattern)) && fnmatch model (strip rule.pattern)
      then at_least_zero rule.max_running_jobs
      else rest

  unfoldable pub job_limit_for : Text → List LimitRule → ℕ
  job_limit_for model rules = if is_empty model then 0 else rule_limit model rules

-- `CLAIM_SCAN_MAX`
abbrev pub claim_scan_max : ℕ
claim_scan_max = 2000

abbrev pub elem_text : Text → List Text → Bool
elem_text s [] = false
elem_text s (t ∷ ts) = text_eq s t || elem_text s ts

-- `w` and `read` are what the search reads from the database: the pins and the rules with the first page,
-- the model names with the page of each job. The rows are taken to stay as they are read while it lasts; a
-- pin that is set meanwhile is not seen.
module _ (S : Schema) (R : Redis) (fnmatch : Text → Text → Bool) (w : World) (read : Site S R)
    (rules : List LimitRule) (worker : Text) (lease_until : ℤ) where
  -- `models.get(job_id, "")`
  abbrev pub model_of : ℕ → Text
  unfolding job_model_name
  model_of job = text_of (model_at S R w (find S R read job))

  abbrev pub limit_of : Text → ℕ
  unfolding job_limit_for
  limit_of model = job_limit_for fnmatch model rules

  -- `model in pins and job_id not in pins[model]`, which is `blocked_by_pin`
  abbrev pub is_held : ℕ → Bool
  unfolding blocked_by_pin
  is_held job = blocked_by_pin S R w job read

  unfoldable pub claim_among : Keys R → List Text → List ℕ → Keys R × Option ℕ
  unfolding claim_job
  claim_among keys full [] = (keys, none)
  claim_among keys full (job ∷ jobs) =
      let model = model_of job in
      let skip = elem_text model full || is_held job in
      let (keys', claim) = claim_job R keys job worker lease_until model (limit_of model) in
      elim skip [
        | true ↦ claim_among keys full jobs
        | false ↦ elim claim [
          | ok ↦ (keys', some job)
          | gone ↦ claim_among keys' full jobs
          | blocked ↦ claim_among keys' (model ∷ full) jobs
        ]
      ]

  unfoldable pub claim_next : Keys R → Keys R × Option ℕ
  unfolding claim_among
  claim_next keys = claim_among keys [] (take claim_scan_max (R.zrange keys.queue))
