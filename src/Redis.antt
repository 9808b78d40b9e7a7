-- ===== src/Redis.antt =====
-- What the queue relies on of Redis, which is not part of the repository: sorted sets, hashes, sets
-- and plain keys, with the documented meaning of the commands that backend/app/services/queue.py and
-- its Lua scripts send. Members are job ids. A script runs alone, so it is a function of the state.
pub mod Lists
use batch_inference_console.Prelude.{
  ℕ, ◌+◌, ◌≡◌, ◌≤◌, Bool, true, false, ◌&&◌, Option, none, some, List, ◌==◌, if◌then◌else◌,
  count_if, elem, is_some,
}
use batch_inference_console.Prelude.Int.{ℤ}

pub record Redis : Type 1 where
  -- ZSET: members with scores
  pub ZSet : Type 0
  pub zscore : ℕ → ZSet → Option ℤ
  pub zadd : ℕ → ℤ → ZSet → ZSet
  pub zrem : ℕ → ZSet → ZSet
  -- ZRANGE 0 -1: the members by score
  pub zrange : ZSet → List ℕ
  pub zscore-zadd :
      (j i : ℕ) (s : ℤ) (z : ZSet) → zscore j (zadd i s z) ≡ (if j == i then some s else zscore j z)
  pub zscore-zrem :
      (j i : ℕ) (z : ZSet) → zscore j (zrem i z) ≡ (if j == i then none else zscore j z)
  pub elem-zrange : (j : ℕ) (z : ZSet) → elem j (zrange z) ≡ is_some (zscore j z)
  -- HASH
  pub Hash : Type 0 → Type 0
  pub hget : {V : Type 0} → ℕ → Hash V → Option V
  pub hset : {V : Type 0} → ℕ → V → Hash V → Hash V
  pub hdel : {V : Type 0} → ℕ → Hash V → Hash V
  pub hget-hset :
      {V : Type 0} (j i : ℕ) (v : V) (h : Hash V)
      → hget j (hset i v h) ≡ (if j == i then some v else hget j h)
  pub hget-hdel :
      {V : Type 0} (j i : ℕ) (h : Hash V) → hget j (hdel i h) ≡ (if j == i then none else hget j h)
  -- SET: SMEMBERS lists each member once, in any order, so a law counts the members that pass a test.
  pub MSet : Type 0
  pub smembers : MSet → List ℕ
  pub sadd : ℕ → MSet → MSet
  pub srem : ℕ → MSet → MSet
  pub count-sadd :
      (p : ℕ → Bool) (i : ℕ) (m : MSet)
      → count_if p (smembers (sadd i m))
        ≡ (if elem i (smembers m) then 0 else if p i then 1 else 0) + count_if p (smembers m)
  pub count-srem :
      (p : ℕ → Bool) (i : ℕ) (m : MSet)
      → (if elem i (smembers m) && p i then 1 else 0) + count_if p (smembers (srem i m))
        ≡ count_if p (smembers m)
  pub count-member : (i : ℕ) (m : MSet) → count_if (λ x. i == x) (smembers m) ≤ 1
  pub elem-srem :
      (j i : ℕ) (m : MSet)
      → elem j (smembers (srem i m)) ≡ (if j == i then false else elem j (smembers m))
  pub elem-sadd :
      (j i : ℕ) (m : MSet)
      → elem j (smembers (sadd i m)) ≡ (if j == i then true else elem j (smembers m))
