-- ===== src/Queue/Reordered.antt =====
-- What `reorder` of backend/app/services/queue.py leaves in the queue: a new order of the listed jobs on
-- the scores that they had.
use batch_inference_console.Prelude.{
  true-false, ℕ, suc, zero, ◌+◌, ◌-◌, ◌≡◌, ◌≤◌, refl, ap, sym, ◌∙◌, Bool, true, false, ◌&&◌, Option,
  none, some, List, [], ◌∷◌, map, if◌then◌else◌, is_some, elem, all, length, count_if, arith,
  length-map,
}
use mathlib.Core.Path.{ap₂}
use batch_inference_console.Prelude.Int.{ℤ}
use batch_inference_console.Redis.{Redis}
use batch_inference_console.Queue.State.{Keys, is_queued}
use batch_inference_console.Queue.Reorder.{
  sort, Entries, missing, entries, Reordered, moved, key_error, nth, zip, entry_or, entries_from,
  write_scores, reorder_with, reorder,
}
use batch_inference_console.Queue.Sorted.{IsSorted, sort-IsSorted, count-sort, length-sort}

abbrev pub AllApart : List ℕ → Type 0
AllApart [] = Unit
AllApart (j ∷ js) = (elem j js ≡ false) × AllApart js

nth-elem : (n : ℕ) (jobs : List ℕ) (j : ℕ) → nth n jobs ≡ some j → elem j jobs ≡ true
nth-elem n [] j e = cc
nth-elem zero (k ∷ ks) j e = ground (arith, e)
nth-elem (suc n) (k ∷ ks) j e = ground (arith, nth-elem n ks j e)

zero_minus : (i : ℕ) → i - i ≡ 0
zero_minus i = omega arith

one_less : (n i : ℕ) → suc i ≤ n → n - i ≡ suc (n - suc i)
one_less n i h = omega (arith, h)

module _ (R : Redis) where
  abbrev pub scores_of : R.ZSet → List ℕ → List (Option ℤ)
  scores_of z jobs = map (λ j. R.zscore j z) jobs

  untouched :
      (j : ℕ) (z : R.ZSet) (jobs : List ℕ) (ss : List ℤ)
      → elem j jobs ≡ false
      → R.zscore j (write_scores R z jobs ss) ≡ R.zscore j z
  unfolding write_scores
  untouched j z [] ss h = refl
  untouched j z (k ∷ ks) [] h = refl
  untouched j z (k ∷ ks) (s ∷ ss) h =
      untouched j (R.zadd k s z) ks ss (ground (arith, h))
      ∙ R.zscore-zadd j k s z
      ∙ ground (arith, h)

  written :
      (z : R.ZSet) (jobs : List ℕ) (ss : List ℤ)
      → AllApart jobs
      → length jobs ≡ length ss
      → scores_of (write_scores R z jobs ss) jobs ≡ map some ss
  unfolding write_scores
  written z [] [] d e = refl
  written z [] (s ∷ ss) d e = absurd (omega (arith, e))
  written z (k ∷ ks) [] d e = absurd (omega (arith, e))
  written z (k ∷ ks) (s ∷ ss) d e =
      ap₂ (λ o os. o ∷ os)
        (untouched k (R.zadd k s z) ks ss d.0 ∙ R.zscore-zadd k k s z ∙ ground arith)
        (written (R.zadd k s z) ks ss d.1 (omega (arith, e)))

  -- What the first loop finds.
  unfoldable pub Found : R.ZSet → ℕ → List ℕ → Entries → Type 0
  Found z i jobs (entries ss) =
      (all (λ j. is_some (R.zscore j z)) jobs ≡ true) × (scores_of z jobs ≡ map some ss)
  Found z i jobs (missing n) =
      (j : ℕ) × (all (λ j. is_some (R.zscore j z)) jobs ≡ false)
      × (i ≤ n)
      × (nth (n - i) jobs ≡ some j)
      × (R.zscore j z ≡ none)

  Found-cons :
      (z : R.ZSet) (i job : ℕ) (jobs : List ℕ) (o : Option ℤ) (rest : Entries)
      → R.zscore job z ≡ o
      → Found z (suc i) jobs rest
      → Found z i (job ∷ jobs) (entry_or R i o rest)
  unfolding Found
  Found-cons z i job jobs none rest e h = (
    job,
    ap (λ v. is_some v && all (λ j. is_some (R.zscore j z)) jobs) e,
    omega arith,
    ap (λ n. nth n (job ∷ jobs)) (zero_minus i),
    e,
  )
  Found-cons z i job jobs (some s) (missing n) e (j, a, le, at, none_) = (
    j,
    ap₂ (λ v w. is_some v && w) e a,
    omega (arith, le),
    ap (λ m. nth m (job ∷ jobs)) (one_less n i le) ∙ at,
    none_,
  )
  Found-cons z i job jobs (some s) (entries ss) e (a, same) =
      (ap₂ (λ v w. is_some v && w) e a, ap₂ (λ x xs. x ∷ xs) e same)

  pub entries_from-Found :
      (z : R.ZSet) (i : ℕ) (jobs : List ℕ) → Found z i jobs (entries_from R z i jobs)
  unfolding entries_from Found
  entries_from-Found z i [] = (refl, refl)
  entries_from-Found z i (job ∷ jobs) =
      Found-cons z i job jobs (R.zscore job z) _ refl (entries_from-Found z (suc i) jobs)

-- After `reorder` of these jobs: the listed ones have their old scores in increasing order, and the
-- others the scores that they had.
pub record IsReordered (R : Redis) (q q' : Keys R) (jobs : List ℕ) (reply : Reordered)
    : Type 0 where
  pub new : List ℤ
  pub replied : reply ≡ moved (zip jobs new)
  pub held : scores_of R q'.queue jobs ≡ map some new
  pub sorted : IsSorted new
  pub same_scores :
      (p : Option ℤ → Bool)
      → count_if p (scores_of R q'.queue jobs) ≡ count_if p (scores_of R q.queue jobs)
  pub others : (j : ℕ) → elem j jobs ≡ false → R.zscore j q'.queue ≡ R.zscore j q.queue
  pub rest : q' ≡ record q { queue = q'.queue }

count-map-some :
    (p : Option ℤ → Bool) (ss : List ℤ) → count_if p (map some ss) ≡ count_if (λ s. p (some s)) ss
count-map-some p [] = refl
count-map-some p (s ∷ ss) = ap (λ n. (if p (some s) then 1 else 0) + n) (count-map-some p ss)

module _ (R : Redis) (q : Keys R) (jobs : List ℕ) where
  reordered :
      (ss : List ℤ)
      → AllApart jobs
      → scores_of R q.queue jobs ≡ map some ss
      → IsReordered R q
          (reorder_with R q jobs (entries ss)).0
          jobs
          (reorder_with R q jobs (entries ss)).1
  reordered ss d e =
      let same =
        sym (length-map (λ j. R.zscore j q.queue) jobs)
        ∙ ap (λ (os : List (Option ℤ)). length os) e
        ∙ length-map some ss in
      let held = written R q.queue jobs (sort ss) d (same ∙ sym (length-sort ss)) in
      record {
        new = sort ss;
        replied = refl;
        held = held;
        sorted = sort-IsSorted ss;
        same_scores = λ p.
            ap (count_if p) held
            ∙ count-map-some p (sort ss)
            ∙ count-sort (λ s. p (some s)) ss
            ∙ sym (count-map-some p ss)
            ∙ ap (count_if p) (sym e);
        others = λ j h. untouched R j q.queue jobs (sort ss) h;
        rest = refl;
      }

  when-Found :
      (found : Entries)
      → AllApart jobs
      → all (is_queued R q) jobs ≡ true
      → Found R q.queue 1 jobs found
      → IsReordered R q (reorder_with R q jobs found).0 jobs (reorder_with R q jobs found).1
  unfolding Found
  when-Found (missing n) d a (j, b, le, at, gone) = absurd (true-false (sym a ∙ b))
  when-Found (entries ss) d a (b, e) = reordered ss d e

  -- `reorder` of jobs that differ and that all wait in the queue gives them, in the order in which they
  -- are listed, increasing scores, which are the ones that they had, each as often as before; it answers
  -- these scores. All other jobs keep their scores, and nothing but the queue changes.
  pub reorder-IsReordered :
      AllApart jobs
      → all (is_queued R q) jobs ≡ true
      → IsReordered R q (reorder R q jobs).0 jobs (reorder R q jobs).1
  unfolding reorder
  reorder-IsReordered d a =
      when-Found (entries_from R q.queue 1 jobs) d a (entries_from-Found R q.queue 1 jobs)

  -- `KeyError` with a job that is not in the queue, and nothing has changed.
  abbrev pub IsRefused : Keys R × Reordered → Type 0
  IsRefused (q', reply) =
      (q' ≡ q)
      × ((j : ℕ) × (reply ≡ key_error (some j)) × (elem j jobs ≡ true) × (is_queued R q j ≡ false))

  refused :
      (found : Entries)
      → all (is_queued R q) jobs ≡ false
      → Found R q.queue 1 jobs found
      → IsRefused (reorder_with R q jobs found)
  unfolding Found
  refused (missing n) a (j, b, le, at, gone) =
      (refl, (j, ap key_error at, nth-elem (n - 1) jobs j at, ap is_some gone))
  refused (entries ss) a (b, e) = absurd (true-false (sym b ∙ a))

  -- `reorder` of jobs of which some one is not in the queue changes nothing and names such a job.
  pub reorder-IsRefused : all (is_queued R q) jobs ≡ false → IsRefused (reorder R q jobs)
  unfolding reorder
  reorder-IsRefused a =
      refused (entries_from R q.queue 1 jobs) a (entries_from-Found R q.queue 1 jobs)
