-- ===== src/Tests/QueueRuns.antt =====
-- Claims, releases and reaping on concrete queues.
use batch_inference_console.Prelude.{
  List, ◌||◌, ◌≡◌, refl, true, false, [], ◌∷◌, codes, arith, inr, some,
}
use batch_inference_console.Prelude.Int.{pos, ◌<ℤ◌}
use batch_inference_console.Models.{Job}
use batch_inference_console.Redis.Lists.{list_redis}
use batch_inference_console.Queue.Score.{
  enqueue_score, since_queued, since_now, enqueue_score-order,
}
use batch_inference_console.Queue.State.{Keys, is_queued, has_lease, claim_job, reap_expired}
use batch_inference_console.Queue.Claims.{AllRegistered, IsWithinLimit, claim_job-leased}
use batch_inference_console.Queue.Claimed.{IsClaimed, claim_job-IsClaimed}
use batch_inference_console.Queue.Leases.{IsRecovered, reap_expired-IsRecovered}
use batch_inference_console.Queue.Reorder.{reorder, sort, write_scores}
use batch_inference_console.Queue.Reordered.{
  IsReordered, reorder-IsReordered, IsRefused, reorder-IsRefused,
}
use batch_inference_console.Queue.Places.{Op, claim, reap, swap, give_back, run_ops, places_of}
use batch_inference_console.Queue.Refinement.{Refines, run_ops-Refines}
use batch_inference_console.Queue.Kept.{keeps, run_ops-present}
use batch_inference_console.Tests.Samples.{sample_job}

-- Jobs 1 and 2 wait; job 3 runs on "m" under a lease that ends at 500; job 4 is a leftover.
abbrev sample_keys : Keys list_redis
sample_keys = record {
  queue = (1, pos 100) ∷ (2, pos 200) ∷ [];
  leases = (3, pos 500) ∷ [];
  owner = (3, codes "w1") ∷ [];
  job_model = (3, codes "m") ∷ [];
  model_running = λ name. 4 ∷ 3 ∷ [];
  ctrl = [];
}

abbrev urgent : Job
urgent = record sample_job { priority = 10 }

-- A job that was queued at 1500 and comes back at 3000 is taken before one that came at 2000.
abbrev returned : Job
returned = record sample_job { pinned = false; queued_at = some 1500 }

abbrev newcomer : Job
newcomer = record sample_job { pinned = false }

enqueue_score-order_example : enqueue_score returned true 3000 <ℤ enqueue_score newcomer false 2000
enqueue_score-order_example =
    enqueue_score-order returned newcomer 3000 2000 (since_queued 1500 refl refl) (since_now refl)
      (omega arith) (omega arith) (inr (refl, omega arith))

-- Job 3 holds the only lease, and it is in the running set.
sample_keys-AllRegistered : AllRegistered list_redis sample_keys (codes "m")
sample_keys-AllRegistered j held at = ground (arith, held)

claim_job-leased_example :
    IsWithinLimit list_redis
      (claim_job list_redis sample_keys 1 (codes "w2") (pos 900) (codes "m") 2).0
      1
      (codes "m")
      2
unfolding claim_job
claim_job-leased_example =
    claim_job-leased list_redis sample_keys 1 (codes "w2") (pos 900) (codes "m") 2 (omega arith)
      refl sample_keys-AllRegistered refl

reap_expired-IsRecovered_example :
    IsRecovered list_redis
      (pos 600)
      sample_keys
      (reap_expired list_redis sample_keys (pos 600) (pos 600)).0
      (reap_expired list_redis sample_keys (pos 600) (pos 600)).1
      3
reap_expired-IsRecovered_example =
    reap_expired-IsRecovered list_redis sample_keys (pos 600) (pos 600) 3

reorder-IsReordered_example :
    IsReordered list_redis sample_keys
      (reorder list_redis sample_keys (2 ∷ 1 ∷ [])).0
      (2 ∷ 1 ∷ [])
      (reorder list_redis sample_keys (2 ∷ 1 ∷ [])).1
reorder-IsReordered_example =
    reorder-IsReordered list_redis sample_keys (2 ∷ 1 ∷ []) (refl, (refl, tt)) refl

reorder-IsRefused_example :
    IsRefused list_redis sample_keys (2 ∷ 3 ∷ []) (reorder list_redis sample_keys (2 ∷ 3 ∷ []))
reorder-IsRefused_example = reorder-IsRefused list_redis sample_keys (2 ∷ 3 ∷ []) refl

swapped : (reorder list_redis sample_keys (2 ∷ 1 ∷ [])).0.queue ≡ (2, pos 100) ∷ (1, pos 200) ∷ []
unfolding reorder sort write_scores
swapped = refl

-- Job 1 is claimed, its lease runs out, and the administrator puts job 2 in front of it.
abbrev some_ops : List Op
some_ops =
    claim 1 (codes "w2") (pos 900) (codes "m") 2
    ∷ reap (pos 1000) (pos 0)
    ∷ swap (2 ∷ 1 ∷ [])
    ∷ give_back 2
    ∷ []

run_ops-Refines_example : Refines list_redis sample_keys some_ops (places_of list_redis sample_keys)
run_ops-Refines_example = run_ops-Refines list_redis sample_keys some_ops

run_ops-present_example :
    is_queued list_redis (run_ops list_redis sample_keys some_ops) 1
      || has_lease list_redis (run_ops list_redis sample_keys some_ops) 1
    ≡ true
unfolding keeps
run_ops-present_example = run_ops-present list_redis some_ops sample_keys 1 refl refl

claim_job-IsClaimed_example :
    IsClaimed list_redis sample_keys 1
      (codes "w2")
      (pos 900)
      (claim_job list_redis sample_keys 1 (codes "w2") (pos 900) (codes "m") 2).0
unfolding claim_job
claim_job-IsClaimed_example =
    claim_job-IsClaimed list_redis sample_keys 1 (codes "w2") (pos 900) (codes "m") 2 refl
