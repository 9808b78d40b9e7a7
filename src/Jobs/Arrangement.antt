-- ===== src/Jobs/Arrangement.antt =====
-- A new order of the queue happens whole or not at all (`reorder_queue` of backend/app/api/jobs.py).
use batch_inference_console.Prelude.{
  ℕ, ◌≡◌, refl, ap, sym, ◌∙◌, true, false, not, Option, none, some, List, [], ◌∷◌, map, ◌==◌, ==_eq,
  elem, all, Bool-cases, inl, inr, arith, true-false, subst, drop, on_if, ◌≢◌, ◌⊎◌,
}
use mathlib.Core.Option.{some-injective}
use batch_inference_console.Prelude.Int.{ℤ}
use batch_inference_console.Models.{Job, queued, status_eq}
use batch_inference_console.Table.{option_map}
use batch_inference_console.Database.{Schema}
use batch_inference_console.Redis.{Redis}
use batch_inference_console.Queue.State.{Keys, is_queued}
use batch_inference_console.Queue.Reorder.{Reordered, moved, key_error, zip, reorder}
use batch_inference_console.Queue.Reordered.{
  AllApart, scores_of, IsReordered, reorder-IsReordered, reorder-IsRefused,
}
use batch_inference_console.Jobs.Handlers.{Site, find}
use batch_inference_console.Jobs.Arrange.{
  Arranged, arranged, conflict, pinned_refused, prioritize, check_job, check_jobs, set_priorities,
  save_order, reorder_checked, reorder_queue,
}

conflict_arranged : conflict ≢ arranged
conflict_arranged e = cc

pinned_arranged : pinned_refused ≢ arranged
pinned_arranged e = cc

none_arranged : none ≢ some arranged
none_arranged e = cc

check_refuses : (o : Option Job) → check_job o ≢ some arranged
check_refuses none = λ e. conflict_arranged (some-injective _ _ e)
check_refuses (some job) =
    on_if (λ a. a ≢ some arranged) (not (status_eq job.status queued)) _ _
      (λ t e. conflict_arranged (some-injective _ _ e))
      (λ f.
        on_if (λ a. a ≢ some arranged) job.pinned _ _
          (λ t e. pinned_arranged (some-injective _ _ e)) (λ f e. none_arranged e))

or_rest :
    (o rest : Option Arranged)
    → o ≢ some arranged
    → rest ≢ some arranged
    → (elim o [ none ↦ rest | some a ↦ some a ]) ≢ some arranged
or_rest none rest h k = k
or_rest (some a) rest h k = h

abbrev head_or : Option ℤ → List (Option ℤ) → Option ℤ
head_or a [] = a
head_or a (x ∷ xs) = x

module _ {a b : Option ℤ} {xs ys : List (Option ℤ)} where
  first_score : a ∷ xs ≡ b ∷ ys → a ≡ b
  first_score e = ap (λ (l : List (Option ℤ)). head_or a l) e

  later_scores : a ∷ xs ≡ b ∷ ys → xs ≡ ys
  later_scores e = ap (λ (l : List (Option ℤ)). drop 1 l) e

module _ (S : Schema) (R : Redis) where
  row_other :
      (j k : ℕ) (s : ℤ) (t : S.jobs.Rows)
      → (j == k) ≡ false
      → S.jobs.get j (S.jobs.update k (prioritize s) t) ≡ S.jobs.get j t
  row_other j k s t e = S.jobs.get-update j k (prioritize s) t ∙ rw e refl

  row_same :
      (j k : ℕ) (s : ℤ) (t : S.jobs.Rows)
      → (j == k) ≡ true
      → S.jobs.get j (S.jobs.update k (prioritize s) t) ≡ option_map (prioritize s) (S.jobs.get j t)
  row_same j k s t e = S.jobs.get-update j k (prioritize s) t ∙ rw e refl

  others_kept :
      (j : ℕ) (jobs : List ℕ) (ss : List ℤ) (t : S.jobs.Rows)
      → elem j jobs ≡ false
      → S.jobs.get j (set_priorities S R (zip jobs ss) t) ≡ S.jobs.get j t
  unfolding set_priorities
  others_kept j [] ss t h = refl
  others_kept j (k ∷ ks) [] t h = refl
  others_kept j (k ∷ ks) (s ∷ ss) t h =
      others_kept j ks ss (S.jobs.update k (prioritize s) t) (ground (arith, h))
      ∙ row_other j k s t (ground (arith, h))

  -- The row of a job follows its score.
  abbrev Follows : ℕ → R.ZSet → S.jobs.Rows → S.jobs.Rows → Type 0
  Follows j z t t' =
      (s : ℤ) × (R.zscore j z ≡ some s)
      × (S.jobs.get j t' ≡ option_map (prioritize s) (S.jobs.get j t))

  listed_follow :
      (j : ℕ) (jobs : List ℕ) (ss : List ℤ) (z : R.ZSet) (t : S.jobs.Rows)
      → AllApart jobs
      → scores_of R z jobs ≡ map some ss
      → elem j jobs ≡ true
      → Follows j z t (set_priorities S R (zip jobs ss) t)
  unfolding set_priorities
  listed_follow j [] ss z t d e m = absurd (true-false (sym m))
  listed_follow j (k ∷ ks) [] z t d e m = cc
  listed_follow j (k ∷ ks) (s ∷ ss) z t d e m = elim (Bool-cases (j == k)) [
    | inl same ↦ (
      s,
      ap (λ i. R.zscore i z) (==_eq j k same) ∙ first_score e,
      others_kept j ks ss (S.jobs.update k (prioritize s) t)
            (ap (λ i. elem i ks) (==_eq j k same) ∙ d.0)
          ∙ row_same j k s t same,
    )
    | inr apart ↦
        let (x, at, row) =
          listed_follow j ks ss z (S.jobs.update k (prioritize s) t) d.1 (later_scores e)
            (ground (arith, m, apart)) in
        (x, at, row ∙ ap (option_map (prioritize x)) (row_other j k s t apart))
  ]

  -- What an answer other than a refusal promises.
  pub record HasArranged (site site' : Site S R) (jobs : List ℕ) : Type 0 where
    pub order : IsReordered R site.keys site'.keys jobs (reorder R site.keys jobs).1
    pub listed :
        (j : ℕ) → elem j jobs ≡ true → Follows j site'.keys.queue site.db.jobs site'.db.jobs
    pub others :
        (j : ℕ) → elem j jobs ≡ false → S.jobs.get j site'.db.jobs ≡ S.jobs.get j site.db.jobs

  saved :
      (site : Site S R) (jobs : List ℕ) (keys : Keys R) (reply : Reordered)
      → AllApart jobs
      → IsReordered R site.keys keys jobs reply
      → reply ≡ (reorder R site.keys jobs).1
      → HasArranged site (save_order S R site (keys, reply)).0 jobs
  saved site jobs keys reply d r same =
      subst (λ w. HasArranged site (save_order S R site (keys, w)).0 jobs) (sym r.replied)
        record {
          order = subst (IsReordered R site.keys keys jobs) same r;
          listed = λ j m. listed_follow j jobs r.new keys.queue site.db.jobs d r.held m;
          others = λ j m. others_kept j jobs r.new site.db.jobs m;
        }

  -- Either all of it happens, or nothing.
  abbrev pub ArrangedOr : Site S R → List ℕ → Site S R × Arranged → Type 0
  ArrangedOr site jobs x =
      ((x.1 ≡ arranged) × HasArranged site x.0 jobs) ⊎ ((x.1 ≢ arranged) × (x.0 ≡ site))

  saved-arranged :
      (site : Site S R) (keys : Keys R) (reply : Reordered) (scores : List (ℕ × ℤ))
      → reply ≡ moved scores
      → (save_order S R site (keys, reply)).1 ≡ arranged
  saved-arranged site keys reply scores e = ap (λ w. (save_order S R site (keys, w)).1) e

  not_saved :
      (site : Site S R) (keys : Keys R) (reply : Reordered) (job : Option ℕ)
      → reply ≡ key_error job
      → keys ≡ site.keys
      → ((save_order S R site (keys, reply)).1 ≢ arranged)
        × ((save_order S R site (keys, reply)).0 ≡ site)
  not_saved site keys reply job e same = (
    (λ a. conflict_arranged (sym (ap (λ w. (save_order S R site (keys, w)).1) e) ∙ a)),
    ap (λ w. (save_order S R site (keys, w)).0) e ∙ ap (λ k. record site { keys = k }) same,
  )

  after_checks :
      (site : Site S R) (jobs : List ℕ)
      → AllApart jobs
      → ArrangedOr site jobs (save_order S R site (reorder R site.keys jobs))
  after_checks site jobs d =
      let x = reorder R site.keys jobs in
      elim (Bool-cases (all (is_queued R site.keys) jobs)) [
        | inl here ↦
            let r = reorder-IsReordered R site.keys jobs d here in
            inl (saved-arranged site x.0 x.1 _ r.replied, saved site jobs x.0 x.1 d r refl)
        | inr away ↦
            let (same, (j, named, m, gone)) = reorder-IsRefused R site.keys jobs away in
            inr (not_saved site x.0 x.1 (some j) named same)
      ]

  when_checked :
      (site : Site S R) (jobs : List ℕ) (o : Option Arranged)
      → o ≢ some arranged
      → AllApart jobs
      → ArrangedOr site jobs (reorder_checked S R site jobs o)
  when_checked site jobs (some a) n d = inr ((λ e. n (ap some e)), refl)
  when_checked site jobs none n d = after_checks site jobs d

  check_jobs_refuse : (site : Site S R) (jobs : List ℕ) → check_jobs S R site jobs ≢ some arranged
  unfolding check_jobs
  check_jobs_refuse site [] e = cc
  check_jobs_refuse site (job ∷ jobs) e =
      or_rest (check_job (find S R site job)) (check_jobs S R site jobs)
        (check_refuses (find S R site job)) (check_jobs_refuse site jobs) e

  -- For jobs that differ, `reorder_queue` either answers the new order, and then the queue has it, the
  -- priority of each listed job follows its new score and nothing else of the rows changes; or it answers
  -- an error, and then neither the queue nor any row has changed.
  pub reorder_queue-ArrangedOr :
      (site : Site S R) (jobs : List ℕ)
      → AllApart jobs
      → ArrangedOr site jobs (reorder_queue S R site jobs)
  unfolding reorder_queue
  reorder_queue-ArrangedOr site jobs d =
      when_checked site jobs (check_jobs S R site jobs) (check_jobs_refuse site jobs) d
