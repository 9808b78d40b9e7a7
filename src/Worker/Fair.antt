-- ===== src/Worker/Fair.antt =====
-- `Worker._claim` of backend/app/worker/main.py passes over a job only where a pin or a limit holds it.
use batch_inference_console.Prelude.{
  ℕ, ◌<◌, ◌≤◌, ◌⊎◌, Bool, true, false, ◌≡◌, Option, none, some, List, [], ◌∷◌, ◌++◌, Text, elem,
}
use batch_inference_console.Prelude.Int.{ℤ}
use batch_inference_console.Redis.{Redis}
use batch_inference_console.Database.{Schema}
use batch_inference_console.Jobs.Handlers.{World, Site}
use batch_inference_console.Queue.State.{Keys, is_queued}
use batch_inference_console.Queue.Claims.{leased_on}
use batch_inference_console.Worker.Pick.{
  LimitRule, elem_text, model_of, limit_of, is_held, claim_among,
}

module _ (S : Schema) (R : Redis) (fnmatch : Text → Text → Bool) (w : World) (read : Site S R)
    (rules : List LimitRule) (worker : Text) (lease_until : ℤ) where
  abbrev model : ℕ → Text
  model = model_of S R fnmatch w read rules worker lease_until

  abbrev limit : Text → ℕ
  limit = limit_of S R fnmatch w read rules worker lease_until

  abbrev held : ℕ → Bool
  held = is_held S R fnmatch w read rules worker lease_until

  abbrev among : Keys R → List Text → List ℕ → Keys R × Option ℕ
  among = claim_among S R fnmatch w read rules worker lease_until

  -- A model has a limit, and so many of its jobs are leased already.
  abbrev pub IsFull : Keys R → Text → Type 0
  IsFull keys m = (0 < limit m) × (limit m ≤ leased_on R keys m)

  -- A job must wait: a pinned job holds its model, or its model is full.
  abbrev pub MustWait : Keys R → ℕ → Type 0
  MustWait keys job = (held job ≡ true) ⊎ IsFull keys (model job)

  abbrev pub AllWait : Keys R → List ℕ → Type 0
  AllWait keys [] = Unit
  AllWait keys (job ∷ jobs) = MustWait keys job × AllWait keys jobs

  -- The job that is taken may go, and those before it must wait; where none is taken, all must wait.
  abbrev pub IsFair : Keys R → List ℕ → Keys R × Option ℕ → Type 0
  IsFair keys jobs (keys', none) = AllWait keys jobs
  IsFair keys jobs (keys', some job) =
      (before : List ℕ) × (after : List ℕ) × (jobs ≡ before ++ job ∷ after)
      × AllWait keys before
      × (held job ≡ false)
      × ((limit (model job) ≡ 0) ⊎ (leased_on R keys (model job) < limit (model job)))

  -- What the search leaves as it was when it began.
  record Looks (keys0 keys : Keys R) : Type 0 where
    queue : keys.queue ≡ keys0.queue
    leased : (m : Text) → leased_on R keys m ≡ leased_on R keys0 m

  abbrev AllFull : Keys R → List Text → Type 0
  AllFull keys full = (m : Text) → elem_text m full ≡ true → IsFull keys m

  abbrev AllQueued : Keys R → List ℕ → Type 0
  AllQueued keys jobs = (j : ℕ) → elem j jobs ≡ true → is_queued R keys j ≡ true
