-- ===== src/Queue/Kept.antt =====
-- That the queue of backend/app/services/queue.py loses no job.
use batch_inference_console.Prelude.{
  ℕ, ◌≡◌, refl, ◌∙◌, Bool, true, false, not, ◌||◌, Option, none, List, [], ◌∷◌, ◌==◌, if◌then◌else◌,
  is_some, all, arith,
}
use batch_inference_console.Prelude.Int.{ℤ}
use batch_inference_console.Redis.{Redis}
use batch_inference_console.Queue.State.{Keys, is_queued, has_lease}
use batch_inference_console.Queue.Leases.{has_expired}
use batch_inference_console.Queue.Places.{
  Places, Op, put_in, change, take_out, give_back, renew, claim, reap, swap, spec, run_op, run_ops,
  took, places_of, Same,
}
use batch_inference_console.Queue.Refinement.{run_op-Same}

-- A job that waits or that a worker holds.
abbrev pub is_present : Places → ℕ → Bool
is_present p j = p.waiting j || is_some (p.leased j)

-- A call that does not let go of this job: neither `remove` nor `release` of it.
unfoldable pub keeps : ℕ → Op → Bool
keeps j (take_out job) = not (j == job)
keeps j (give_back job) = not (j == job)
keeps j _ = true

reaped :
    (b w : Bool) (o : Option ℤ)
    → w || is_some o ≡ true
    → (b || w) || is_some (if b then none else o) ≡ true
reaped true w o h = refl
reaped false w o h = h

spec-present :
    (taken : Bool) (op : Op) (p : Places) (j : ℕ)
    → keeps j op ≡ true
    → is_present p j ≡ true
    → is_present (spec taken op p) j ≡ true
unfolding spec keeps
spec-present b (put_in job s) p j k h = ground (arith, h)
spec-present b (change job s) p j k h = h
spec-present b (take_out job) p j k h = ground (arith, h, k)
spec-present b (give_back job) p j k h = ground (arith, h, k)
spec-present b (renew job until) p j k h = ground (arith, h)
spec-present true (claim job worker until model limit) p j k h = ground (arith, h)
spec-present false (claim job worker until model limit) p j k h = h
spec-present b (reap now base) p j k h =
    reaped (has_expired now (p.leased j)) (p.waiting j) (p.leased j) h
spec-present b (swap jobs) p j k h = h

present-Same : (p p' : Places) (j : ℕ) → Same p p' → is_present p j ≡ is_present p' j
present-Same p p' j h = ground (arith, h j)

module _ (R : Redis) where
  -- Over any calls that the queue serves, none of which removes or releases a job, a job that waits or is
  -- leased still waits or is leased: claims, expired leases and new orders lose no job.
  pub run_ops-present :
      (ops : List Op) (q : Keys R) (j : ℕ)
      → all (keeps j) ops ≡ true
      → is_queued R q j || has_lease R q j ≡ true
      → is_queued R (run_ops R q ops) j || has_lease R (run_ops R q ops) j ≡ true
  unfolding run_ops
  run_ops-present [] q j k h = h
  run_ops-present (op ∷ ops) q j k h =
      let same = present-Same _ _ j (run_op-Same R q op).0 in
      run_ops-present ops (run_op R q op) j (ground (arith, k))
        (same ∙ spec-present (took R q op) op (places_of R q) j (ground (arith, k)) h)
