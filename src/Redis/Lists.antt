-- ===== src/Redis/Lists.antt =====
-- Sorted sets, hashes and sets as lists: the laws of `Redis` can be met.
use batch_inference_console.Prelude.{
  ℕ, ◌+◌, ◌≡◌, refl, ◌≤◌, Bool, true, false, ◌&&◌, Option, none, some, List, [], ◌∷◌, ◌==◌,
  if◌then◌else◌, count_if, elem, is_some, arith,
}
use batch_inference_console.Prelude.Int.{ℤ, leb_ℤ}
use batch_inference_console.Redis.{Redis}

abbrev pub score_of : ℕ → List (ℕ × ℤ) → Option ℤ
score_of j [] = none
score_of j ((i, s) ∷ z) = if j == i then some s else score_of j z

abbrev pub remove_member : ℕ → List (ℕ × ℤ) → List (ℕ × ℤ)
remove_member i [] = []
remove_member i ((k, s) ∷ z) =
    let rest = remove_member i z in if i == k then rest else (k, s) ∷ rest

-- Before the first member of a higher score.
abbrev pub add_member : ℕ → ℤ → List (ℕ × ℤ) → List (ℕ × ℤ)
add_member i s [] = (i, s) ∷ []
add_member i s ((k, t) ∷ z) =
    let rest = add_member i s z in if leb_ℤ s t then (i, s) ∷ (k, t) ∷ z else (k, t) ∷ rest

abbrev pub members : List (ℕ × ℤ) → List ℕ
members [] = []
members ((i, s) ∷ z) = i ∷ members z

pub score_of-remove :
    (j i : ℕ) (z : List (ℕ × ℤ))
    → score_of j (remove_member i z) ≡ (if j == i then none else score_of j z)
score_of-remove j i [] = ground arith
score_of-remove j i ((k, s) ∷ z) = ground (arith, score_of-remove j i z)

score_of-add :
    (j i : ℕ) (s : ℤ) (z : List (ℕ × ℤ))
    → score_of i z ≡ none
    → score_of j (add_member i s z) ≡ (if j == i then some s else score_of j z)
score_of-add j i s [] h = refl
score_of-add j i s ((k, t) ∷ z) h = ground (arith, score_of-add j i s z)

pub score_of-replace :
    (j i : ℕ) (s : ℤ) (z : List (ℕ × ℤ))
    → score_of j (add_member i s (remove_member i z)) ≡ (if j == i then some s else score_of j z)
score_of-replace j i s z =
    ground
      (arith, score_of-add j i s (remove_member i z), score_of-remove i i z, score_of-remove j i z)

pub elem-members : (j : ℕ) (z : List (ℕ × ℤ)) → elem j (members z) ≡ is_some (score_of j z)
elem-members j [] = refl
elem-members j ((i, s) ∷ z) = ground (arith, elem-members j z)

module _ {V : Type 0} where
  abbrev pub value_of : ℕ → List (ℕ × V) → Option V
  value_of j [] = none
  value_of j ((i, v) ∷ h) = if j == i then some v else value_of j h

  abbrev pub remove_field : ℕ → List (ℕ × V) → List (ℕ × V)
  remove_field i [] = []
  remove_field i ((k, v) ∷ h) =
      let rest = remove_field i h in if i == k then rest else (k, v) ∷ rest

  pub value_of-remove :
      (j i : ℕ) (h : List (ℕ × V))
      → value_of j (remove_field i h) ≡ (if j == i then none else value_of j h)
  value_of-remove j i [] = ground arith
  value_of-remove j i ((k, v) ∷ h) = ground (arith, value_of-remove j i h)

-- A set is a list in which only the last copy of a member counts.
abbrev pub dedup : List ℕ → List ℕ
dedup [] = []
dedup (x ∷ m) = let rest = dedup m in if elem x m then rest else x ∷ rest

abbrev pub remove_elem : ℕ → List ℕ → List ℕ
remove_elem i [] = []
remove_elem i (x ∷ m) = let rest = remove_elem i m in if i == x then rest else x ∷ rest

pub elem-dedup : (j : ℕ) (m : List ℕ) → elem j (dedup m) ≡ elem j m
elem-dedup j [] = refl
elem-dedup j (x ∷ m) = ground (arith, elem-dedup j m)

elem-remove_elem :
    (j i : ℕ) (m : List ℕ) → elem j (remove_elem i m) ≡ (if j == i then false else elem j m)
elem-remove_elem j i [] = ground arith
elem-remove_elem j i (x ∷ m) = ground (arith, elem-remove_elem j i m)

pub elem-add :
    (j i : ℕ) (m : List ℕ) → elem j (dedup (i ∷ m)) ≡ (if j == i then true else elem j (dedup m))
elem-add j i m = ground (arith, elem-dedup j m, elem-dedup i m)

pub elem-remove :
    (j i : ℕ) (m : List ℕ)
    → elem j (dedup (remove_elem i m)) ≡ (if j == i then false else elem j (dedup m))
elem-remove j i m =
    ground (arith, elem-dedup j (remove_elem i m), elem-dedup j m, elem-remove_elem j i m)

pub count-add :
    (p : ℕ → Bool) (i : ℕ) (m : List ℕ)
    → count_if p (dedup (i ∷ m))
      ≡ (if elem i (dedup m) then 0 else if p i then 1 else 0) + count_if p (dedup m)
count-add p i m = ground (arith, elem-dedup i m)

count-remove_elem :
    (p : ℕ → Bool) (i : ℕ) (m : List ℕ)
    → (if elem i m && p i then 1 else 0) + count_if p (dedup (remove_elem i m))
      ≡ count_if p (dedup m)
count-remove_elem p i [] = refl
count-remove_elem p i (x ∷ m) = ground (arith, count-remove_elem p i m, elem-remove_elem x i m)

pub count-remove :
    (p : ℕ → Bool) (i : ℕ) (m : List ℕ)
    → (if elem i (dedup m) && p i then 1 else 0) + count_if p (dedup (remove_elem i m))
      ≡ count_if p (dedup m)
count-remove p i m = rw (elem-dedup i m) (count-remove_elem p i m)

exact : (i : ℕ) (m : List ℕ) → count_if (λ x. i == x) (dedup m) ≡ (if elem i m then 1 else 0)
exact i [] = refl
exact i (x ∷ m) = ground (arith, exact i m)

pub count-once : (i : ℕ) (m : List ℕ) → count_if (λ x. i == x) (dedup m) ≤ 1
count-once i m = ground (arith, exact i m)

abbrev pub list_redis : Redis
list_redis = record {
  ZSet = List (ℕ × ℤ);
  zscore = score_of;
  zadd = λ i s z. add_member i s (remove_member i z);
  zrem = remove_member;
  zrange = members;
  zscore-zadd = score_of-replace;
  zscore-zrem = score_of-remove;
  elem-zrange = elem-members;
  Hash = λ V. List (ℕ × V);
  hget = value_of;
  hset = λ i v h. (i, v) ∷ h;
  hdel = remove_field;
  hget-hset = λ j i v h. refl;
  hget-hdel = value_of-remove;
  MSet = List ℕ;
  smembers = dedup;
  sadd = λ i m. i ∷ m;
  srem = remove_elem;
  count-sadd = count-add;
  count-srem = count-remove;
  count-member = count-once;
  elem-srem = elem-remove;
  elem-sadd = elem-add;
}
