-- ===== src/Queue/Places.antt =====
-- The queue of backend/app/services/queue.py as one sees it from outside: which jobs wait, and until when
-- jobs are leased. Every operation of `JobQueue` that moves jobs does to this view what its name says.
use batch_inference_console.Prelude.{
  ℕ, ◌≡◌, Bool, true, false, not, ◌&&◌, ◌||◌, Option, none, some, List, [], ◌∷◌, ◌==◌,
  if◌then◌else◌, Text,
}
use batch_inference_console.Prelude.Int.{ℤ}
use batch_inference_console.Redis.{Redis}
use batch_inference_console.Queue.State.{
  Keys, Claim, ok, gone, blocked, is_queued, claim_job, enqueue, rescore, remove, release,
  renew_lease, reap_expired,
}
use batch_inference_console.Queue.Leases.{has_expired}
use batch_inference_console.Queue.Reorder.{reorder}

pub record Places : Type 0 where
  pub waiting : ℕ → Bool
  pub leased : ℕ → Option ℤ

-- The calls that move jobs.
pub data Op : Type 0 where
  put_in : ℕ → ℤ → Op
  change : ℕ → ℤ → Op
  take_out : ℕ → Op
  give_back : ℕ → Op
  renew : ℕ → ℤ → Op
  claim : ℕ → Text → ℤ → Text → ℕ → Op
  reap : ℤ → ℤ → Op
  swap : List ℕ → Op

module _ {A : Type 0} where
  -- A function with a new value at one job.
  abbrev pub set_at : ℕ → A → (ℕ → A) → ℕ → A
  set_at job v f j = if j == job then v else f j

-- What an operation does to the places; a claim may take its job or not.
unfoldable pub spec : Bool → Op → Places → Places
spec taken (put_in job s) p = record p { waiting = set_at job true p.waiting }
spec taken (change job s) p = p
spec taken (take_out job) p = record {
  waiting = set_at job false p.waiting;
  leased = set_at job none p.leased;
}
spec taken (give_back job) p = record p { leased = set_at job none p.leased }
spec taken (renew job until) p = record p { leased = set_at job (some until) p.leased }
spec false (claim job worker until model limit) p = p
spec true (claim job worker until model limit) p = record {
  waiting = set_at job false p.waiting;
  leased = set_at job (some until) p.leased;
}
spec taken (reap now base) p = record {
  waiting = λ j. has_expired now (p.leased j) || p.waiting j;
  leased = λ j. if has_expired now (p.leased j) then none else p.leased j;
}
spec taken (swap jobs) p = p

-- Only a job that waits can be taken.
unfoldable pub allowed : Bool → Op → Places → Bool
allowed taken (claim job worker until model limit) p = not taken || p.waiting job
allowed taken _ p = true

abbrev pub is_ok : Claim → Bool
is_ok ok = true
is_ok gone = false
is_ok blocked = false

module _ (R : Redis) where
  unfoldable pub run_op : Keys R → Op → Keys R
  unfolding claim_job reap_expired reorder
  run_op q (put_in job s) = enqueue R q job s
  run_op q (change job s) = (rescore R q job s).0
  run_op q (take_out job) = remove R q job
  run_op q (give_back job) = release R q job
  run_op q (renew job until) = renew_lease R q job until
  run_op q (claim job worker until model limit) = (claim_job R q job worker until model limit).0
  run_op q (reap now base) = (reap_expired R q now base).0
  run_op q (swap jobs) = (reorder R q jobs).0

  -- Whether a claim has taken its job.
  abbrev pub took : Keys R → Op → Bool
  took q (claim job worker until model limit) = is_ok (claim_job R q job worker until model limit).1
  took q _ = false

  -- The places that the keys show.
  abbrev pub places_of : Keys R → Places
  places_of q = record { waiting = is_queued R q; leased = λ j. R.zscore j q.leases }

abbrev pub Same : Places → Places → Type 0
Same p p' = (j : ℕ) → (p.waiting j ≡ p'.waiting j) × (p.leased j ≡ p'.leased j)

-- Several calls, one after the other, and the choices that go with them.
unfoldable pub spec_all : List Bool → List Op → Places → Places
unfolding spec
spec_all (b ∷ bs) (op ∷ ops) p = spec_all bs ops (spec b op p)
spec_all _ _ p = p

unfoldable pub all_allowed : List Bool → List Op → Places → Bool
unfolding allowed spec
all_allowed [] [] p = true
all_allowed (b ∷ bs) (op ∷ ops) p = allowed b op p && all_allowed bs ops (spec b op p)
all_allowed _ _ p = false

module _ (R : Redis) where
  unfoldable pub run_ops : Keys R → List Op → Keys R
  unfolding run_op
  run_ops q [] = q
  run_ops q (op ∷ ops) = run_ops (run_op R q op) ops
