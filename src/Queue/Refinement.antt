-- ===== src/Queue/Refinement.antt =====
-- The operations of `JobQueue` (backend/app/services/queue.py) implement the view of Places, call by call
-- and over any sequence of calls.
use batch_inference_console.Prelude.{
  ℕ, ◌≡◌, refl, ap, sym, ◌∙◌, Bool, true, false, not, ◌&&◌, ◌||◌, Option, none, some, List, [], ◌∷◌,
  ◌==◌, if◌then◌else◌, is_some, all, Text, arith, on_if, ltb, leb,
}
use mathlib.Core.Path.{ap₂}
use batch_inference_console.Prelude.Int.{ℤ}
use batch_inference_console.Redis.{Redis}
use batch_inference_console.Queue.State.{
  Keys, Claim, ok, is_queued, claim_job, prune, take_job, enqueue, rescore, drop_job, remove,
  release, renew_lease, reap_expired, expired_of,
}
use batch_inference_console.Queue.Leases.{has_expired, reap_from-IsReaped, expired_of-elem}
use batch_inference_console.Queue.Reorder.{
  reorder, reorder_with, Entries, missing, entries, entries_from, write_scores, sort,
}
use batch_inference_console.Queue.Reordered.{Found, entries_from-Found}
use batch_inference_console.Queue.Places.{
  Places, Op, put_in, change, take_out, give_back, renew, claim, reap, swap, spec, allowed, is_ok,
  run_op, took, places_of, Same, spec_all, all_allowed, run_ops,
}

known_lease :
    (now : ℤ) (o : Option ℤ) {b : Bool} → b ≡ is_some o → b && has_expired now o ≡ has_expired now o
known_lease now none e = ground (arith, e)
known_lease now (some s) e = ground (arith, e)

not-not : (b : Bool) → not b ≡ false → b ≡ true
not-not true e = refl
not-not false e = sym e

module _ (R : Redis) where
  put_in-Same :
      (q : Keys R) (job : ℕ) (s : ℤ)
      → Same (places_of R (enqueue R q job s)) (spec false (put_in job s) (places_of R q))
  unfolding enqueue spec
  put_in-Same q job s j = (ground (arith, R.zscore-zadd j job s q.queue), refl)

  change-Same :
      (q : Keys R) (job : ℕ) (s : ℤ) → Same (places_of R (rescore R q job s).0) (places_of R q)
  unfolding rescore
  change-Same q job s =
      on_if (λ (x : Keys R × Bool). Same (places_of R x.0) (places_of R q)) (is_queued R q job) _ _
        (λ e j. (ground (arith, R.zscore-zadd j job s q.queue, e), refl)) (λ e j. (refl, refl))

  drop-Same :
      (q : Keys R) (job : ℕ)
      → Same (places_of R (remove R q job)) (spec false (take_out job) (places_of R q))
        × Same (places_of R (release R q job)) (spec false (give_back job) (places_of R q))
  unfolding remove release drop_job spec
  drop-Same q job = (
    (λ j. (ground (arith, R.zscore-zrem j job q.queue), R.zscore-zrem j job q.leases)),
    (λ j. (refl, R.zscore-zrem j job q.leases)),
  )

  reap-Same :
      (q : Keys R) (now base : ℤ)
      → Same
          (places_of R (reap_expired R q now base).0)
          (spec false (reap now base) (places_of R q))
  unfolding reap_expired spec
  reap-Same q now base j =
      let expired = expired_of R q.leases now (R.zrange q.leases) in
      let r = reap_from-IsReaped R j 1 base expired q in
      let picked =
        expired_of-elem R j q.leases now (R.zrange q.leases)
        ∙ known_lease now (R.zscore j q.leases) (R.elem-zrange j q.leases) in
      (
        r.queued ∙ ap (λ b. b || is_queued R q j) picked,
        r.lease ∙ ap (λ b. if b then none else R.zscore j q.leases) picked,
      )

  renew-Same :
      (q : Keys R) (job : ℕ) (until : ℤ)
      → Same
          (places_of R (renew_lease R q job until))
          (spec false (renew job until) (places_of R q))
  unfolding renew_lease spec
  renew-Same q job until j = (refl, R.zscore-zadd j job until q.leases)

  prune_keeps :
      (q : Keys R) (model : Text) (limit : ℕ)
      → ((prune R q model limit).0.queue ≡ q.queue) × ((prune R q model limit).0.leases ≡ q.leases)
  unfolding prune
  prune_keeps q model limit =
      on_if (λ (x : Keys R × ℕ). (x.0.queue ≡ q.queue) × (x.0.leases ≡ q.leases)) (ltb 0 limit) _ _
        (λ e. (refl, refl)) (λ e. (refl, refl))

  -- What a claim may have done.
  abbrev ClaimOf : Keys R → ℕ → Text → ℤ → Text → ℕ → Keys R × Claim → Type 0
  ClaimOf q job worker until model limit x =
      Same (places_of R x.0) (spec (is_ok x.1) (claim job worker until model limit) (places_of R q))
      × (allowed (is_ok x.1) (claim job worker until model limit) (places_of R q) ≡ true)

  taken-Same :
      (q q' : Keys R) (job : ℕ) (worker : Text) (until : ℤ) (model : Text) (limit : ℕ)
      → q'.queue ≡ q.queue
      → q'.leases ≡ q.leases
      → is_queued R q job ≡ true
      → ClaimOf q job worker until model limit (take_job R q' job worker until model, ok)
  unfolding take_job spec allowed
  taken-Same q q' job worker until model limit e f queued = (
    (λ j. (
      ap (λ z. is_some (R.zscore j (R.zrem job z))) e ∙ ground (arith, R.zscore-zrem j job q.queue),
      ap (λ z. R.zscore j (R.zadd job until z)) f ∙ R.zscore-zadd j job until q.leases,
    )),
    queued,
  )

  claim-Same :
      (q : Keys R) (job : ℕ) (worker : Text) (until : ℤ) (model : Text) (limit : ℕ)
      → ClaimOf q job worker until model limit (claim_job R q job worker until model limit)
  unfolding claim_job spec allowed
  claim-Same q job worker until model limit =
      let (e, f) = prune_keeps q model limit in
      let x = prune R q model limit in
      on_if (ClaimOf q job worker until model limit) (not (is_queued R q job)) _ _
        (λ away. ((λ j. (refl, refl)), refl))
        (λ queued.
          on_if (ClaimOf q job worker until model limit) (ltb 0 limit && leb limit x.1) _ _
            (λ full. ((λ j. (ap (λ z. is_some (R.zscore j z)) e, ap (R.zscore j) f)), refl))
            (λ room.
              taken-Same q x.0 job worker until model limit e f
                (not-not (is_queued R q job) queued)))

  all_still :
      (k : ℕ) (s : ℤ) (z : R.ZSet) (ks : List ℕ)
      → all (λ i. is_some (R.zscore i z)) ks ≡ true
      → all (λ i. is_some (R.zscore i (R.zadd k s z))) ks ≡ true
  all_still k s z [] h = refl
  all_still k s z (i ∷ is) h = ground (arith, R.zscore-zadd i k s z, all_still k s z is, h)

  written-queued :
      (j : ℕ) (z : R.ZSet) (jobs : List ℕ) (ss : List ℤ)
      → all (λ k. is_some (R.zscore k z)) jobs ≡ true
      → is_some (R.zscore j (write_scores R z jobs ss)) ≡ is_some (R.zscore j z)
  unfolding write_scores
  written-queued j z [] ss h = refl
  written-queued j z (k ∷ ks) [] h = refl
  written-queued j z (k ∷ ks) (s ∷ ss) h =
      written-queued j (R.zadd k s z) ks ss (all_still k s z ks (ground (arith, h)))
      ∙ ground (arith, R.zscore-zadd j k s z, h)

  swapped-Same :
      (q : Keys R) (jobs : List ℕ) (found : Entries)
      → Found R q.queue 1 jobs found
      → Same (places_of R (reorder_with R q jobs found).0) (places_of R q)
  unfolding Found
  swapped-Same q jobs (missing n) h j = (refl, refl)
  swapped-Same q jobs (entries ss) (queued, same) j =
      (written-queued j q.queue jobs (sort ss) queued, refl)

  swap-Same : (q : Keys R) (jobs : List ℕ) → Same (places_of R (reorder R q jobs).0) (places_of R q)
  unfolding reorder
  swap-Same q jobs =
      swapped-Same q jobs (entries_from R q.queue 1 jobs) (entries_from-Found R q.queue 1 jobs)

  -- Every operation does to the places what the specification says.
  pub run_op-Same :
      (q : Keys R) (op : Op)
      → Same (places_of R (run_op R q op)) (spec (took R q op) op (places_of R q))
        × (allowed (took R q op) op (places_of R q) ≡ true)
  unfolding run_op spec allowed
  run_op-Same q (put_in job s) = (put_in-Same q job s, refl)
  run_op-Same q (change job s) = (change-Same q job s, refl)
  run_op-Same q (take_out job) = ((drop-Same q job).0, refl)
  run_op-Same q (give_back job) = ((drop-Same q job).1, refl)
  run_op-Same q (renew job until) = (renew-Same q job until, refl)
  run_op-Same q (claim job worker until model limit) = claim-Same q job worker until model limit
  run_op-Same q (reap now base) = (reap-Same q now base, refl)
  run_op-Same q (swap jobs) = (swap-Same q jobs, refl)

-- The specification sees nothing but the places.
spec-Same :
    (taken : Bool) (op : Op) (p p' : Places) → Same p p' → Same (spec taken op p) (spec taken op p')
unfolding spec
spec-Same b (put_in job s) p p' h j = (ap (λ w. if j == job then true else w) (h j).0, (h j).1)
spec-Same b (change job s) p p' h j = h j
spec-Same b (take_out job) p p' h j = (
  ap (λ w. if j == job then false else w) (h j).0,
  ap (λ l. if j == job then none else l) (h j).1,
)
spec-Same b (give_back job) p p' h j = ((h j).0, ap (λ l. if j == job then none else l) (h j).1)
spec-Same b (renew job until) p p' h j =
    ((h j).0, ap (λ l. if j == job then some until else l) (h j).1)
spec-Same false (claim job worker until model limit) p p' h j = h j
spec-Same true (claim job worker until model limit) p p' h j = (
  ap (λ w. if j == job then false else w) (h j).0,
  ap (λ l. if j == job then some until else l) (h j).1,
)
spec-Same b (reap now base) p p' h j = (
  ap₂ (λ l w. has_expired now l || w) (h j).1 (h j).0,
  ap (λ l. if has_expired now l then none else l) (h j).1,
)
spec-Same b (swap jobs) p p' h j = h j

allowed-Same :
    (taken : Bool) (op : Op) (p p' : Places) → Same p p' → allowed taken op p ≡ allowed taken op p'
unfolding allowed
allowed-Same b (claim job worker until model limit) p p' h = ap (λ w. not b || w) (h job).0
allowed-Same b (put_in job s) p p' h = refl
allowed-Same b (change job s) p p' h = refl
allowed-Same b (take_out job) p p' h = refl
allowed-Same b (give_back job) p p' h = refl
allowed-Same b (renew job until) p p' h = refl
allowed-Same b (reap now base) p p' h = refl
allowed-Same b (swap jobs) p p' h = refl

module _ (R : Redis) where
  -- A run of the specification, with a choice for every operation that the specification allows.
  pub record Refines (q : Keys R) (ops : List Op) (p : Places) : Type 0 where
    pub choices : List Bool
    pub are_allowed : all_allowed choices ops p ≡ true
    pub same_places : Same (places_of R (run_ops R q ops)) (spec_all choices ops p)

  refines : (ops : List Op) (q : Keys R) (p : Places) → Same (places_of R q) p → Refines q ops p
  unfolding run_ops spec_all all_allowed
  refines [] q p h = record { choices = []; are_allowed = refl; same_places = h }
  refines (op ∷ ops) q p h =
      let (same, may) = run_op-Same R q op in
      let b = took R q op in
      let next : Same (places_of R (run_op R q op)) (spec b op p) = λ j. (
        (same j).0 ∙ (spec-Same b op (places_of R q) p h j).0,
        (same j).1 ∙ (spec-Same b op (places_of R q) p h j).1,
      ) in
      let rest = refines ops (run_op R q op) (spec b op p) next in
      record {
        choices = b ∷ rest.choices;
        are_allowed =
            ap₂ (λ x y. x && y) (sym (allowed-Same b op (places_of R q) p h) ∙ may)
              rest.are_allowed;
        same_places = rest.same_places;
      }

  -- Whatever calls the queue serves, in whatever order, what one sees of it are the places that the
  -- specification gives for the same calls, where a claim takes its job or not; and a claim takes only a
  -- job that waits.
  pub run_ops-Refines : (q : Keys R) (ops : List Op) → Refines q ops (places_of R q)
  run_ops-Refines q ops = refines ops q (places_of R q) (λ j. (refl, refl))
