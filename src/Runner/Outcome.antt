-- ===== src/Runner/Outcome.antt =====
-- What the status in which a run ends says of its items (`_dispatch` and the end of `run` of
-- backend/app/worker/runner.py).
use batch_inference_console.Prelude.{
  true-false, ℕ, ◌+◌, ◌==◌, ==_eq, ◌≡◌, ◌≢◌, ◌↔◌, ◌⊎◌, subst, refl, ap, sym, ◌∙◌, Bool, true, false,
  Option, none, some, List, [], ◌∷◌, length, ltb, if◌then◌else◌, arith, inl, inr,
}
use mathlib.Core.Option.{some-injective}
use batch_inference_console.Models.{JobStatus, succeeded, completed}
use batch_inference_console.Queue.State.{Signal, cancel, pause, requeue}
use batch_inference_console.Jsonl.Parse.{ParsedItem}
use batch_inference_console.Results.Writer.{Write, success, failure}
use batch_inference_console.Runner.Counters.{Counters, bump, bump_all}
use batch_inference_console.Runner.Dispatch.{
  Plan, Run, stop_status, Event, run_events, count_done, verdict, verdict_of, all_done, start_run,
}
use batch_inference_console.Runner.Ledger.{IsLedger, run_events-IsLedger}
use batch_inference_console.Runner.Occurrences.{times_written, times_item, times}

-- The statuses of a run that was not stopped short.
abbrev pub ran_through : JobStatus → Bool
ran_through succeeded = true
ran_through completed = true
ran_through _ = false

abbrev pub handled : Counters → ℕ
handled c = c.completed + c.failed

pub handled-bump_all :
    (c : Counters) (xs : List Write) → handled (bump_all c xs) ≡ handled c + length xs
unfolding bump_all bump
handled-bump_all c [] = omega arith
handled-bump_all c (success i u r l ∷ xs) =
    omega (arith, handled-bump_all (bump c (success i u r l)) xs)
handled-bump_all c (failure i u m s a ∷ xs) =
    omega (arith, handled-bump_all (bump c (failure i u m s a)) xs)

not_through : (s : Signal) → ran_through (stop_status s) ≡ false
not_through cancel = refl
not_through pause = refl
not_through requeue = refl

completed_succeeded : completed ≢ succeeded
completed_succeeded e = cc

no_length : {A : Type 0} (xs : List A) → length xs ≡ 0 → xs ≡ []
no_length [] e = refl
no_length (x ∷ xs) e = absurd (omega (arith, e))

-- What the end of a run that ran through promises.
pub record IsWhole (plan : Plan) (items : List ParsedItem) (r : Run) (s : JobStatus) : Type 0 where
  pub none_dropped : r.dropped ≡ []
  pub all_written : (i : ℕ) → plan.done i ≡ false → times_written i r.writes ≡ times_item i items
  pub all_counted : handled r.counters ≡ length items
  pub means_clean : (s ≡ succeeded) ↔ (r.counters.failed ≡ 0)

abbrev Through :
    Plan → List ParsedItem → List ParsedItem → Counters → Option Signal → JobStatus → Type 0
Through plan todo in_flight c stop s =
    (todo ≡ [])
    × (in_flight ≡ [])
    × (s ≡ all_done plan c)
    × ((stop ≡ none) ⊎ (ltb (handled c) plan.total_items ≡ false))

through_if :
    (b : Bool) (g : Signal) (s d : JobStatus)
    → (if b then stop_status g else d) ≡ s
    → ran_through s ≡ true
    → (s ≡ d) × (b ≡ false)
through_if true g s d e t = absurd (true-false (sym t ∙ ap ran_through (sym e) ∙ not_through g))
through_if false g s d e t = (sym e, refl)

verdict_of-Through :
    (plan : Plan) (todo in_flight : List ParsedItem) (c : Counters) (stop : Option Signal)
    (s : JobStatus)
    → verdict_of plan todo in_flight c stop ≡ some s
    → ran_through s ≡ true
    → Through plan todo in_flight c stop s
verdict_of-Through plan (x ∷ xs) fs c none s e t = cc
verdict_of-Through plan (x ∷ xs) fs c (some g) s e t =
    absurd (true-false (sym t ∙ ap ran_through (sym (some-injective _ _ e)) ∙ not_through g))
verdict_of-Through plan [] (x ∷ xs) c stop s e t = cc
verdict_of-Through plan [] [] c none s e t = (refl, refl, sym (some-injective _ _ e), inl refl)
verdict_of-Through plan [] [] c (some g) s e t =
    let (same, late) =
      through_if (ltb (handled c) plan.total_items) g s (all_done plan c) (some-injective _ _ e)
        t in
    (refl, refl, same, inr late)

clean_if :
    (n : ℕ) (b : Bool) → (n == 0) ≡ b → ((if b then succeeded else completed) ≡ succeeded) ↔ (n ≡ 0)
clean_if n true e = (λ s. ==_eq n 0 e, λ z. refl)
clean_if n false e =
    (λ s. absurd (completed_succeeded s), λ z. absurd (true-false (sym (ap (λ k. k == 0) z) ∙ e)))

-- The end of a run.
module _ (plan : Plan) (items : List ParsedItem) (c : Counters)
    (total : plan.total_items ≡ length items) (counted : handled c ≡ count_done plan items) where
  all_handled :
      (r : Run)
      → IsLedger plan items c r
      → r.todo ≡ []
      → r.in_flight ≡ []
      → handled r.counters + length r.dropped ≡ length items
  all_handled r h t f = omega (
    arith,
    h.total,
    h.skips,
    ap (count_done plan) t,
    ap (λ (xs : List ParsedItem). length xs) t,
    ap (λ (xs : List ParsedItem). length xs) f,
    counted,
    ap handled h.counts,
    handled-bump_all c r.writes,
  )

  no_drop :
      (r : Run)
      → IsLedger plan items c r
      → handled r.counters + length r.dropped ≡ length items
      → (r.stop ≡ none) ⊎ (ltb (handled r.counters) plan.total_items ≡ false)
      → r.dropped ≡ []
  no_drop r h e (inl n) = h.quiet n
  no_drop r h e (inr l) = no_length r.dropped (ground (arith, e, l, total))

  -- A run over the items of a file, from counters that count the items done before, that ends as
  -- succeeded or completed has dropped none: each item that was not done is written exactly as often as
  -- the file has it, the counters count all items of the file, and it ends as succeeded just when none of
  -- them failed. A stop that comes too late does not change this.
  pub verdict-IsWhole :
      (es : List Event) (r : Run) (s : JobStatus)
      → run_events plan (start_run items c) es ≡ some r
      → verdict plan r ≡ some s
      → ran_through s ≡ true
      → IsWhole plan items r s
  unfolding verdict
  verdict-IsWhole es r s l e t =
      let h = run_events-IsLedger plan items c es r l in
      let (todo, in_flight, same, late) =
        verdict_of-Through plan r.todo r.in_flight r.counters r.stop s e t in
      let all = all_handled r h todo in_flight in
      let quiet = no_drop r h all late in
      record {
        none_dropped = quiet;
        all_written = λ i n. omega (
          arith,
          h.accounted i n,
          ap (times i) quiet,
          ap (times_item i) todo,
          ap (times_item i) in_flight,
        );
        all_counted = omega (arith, all, ap (λ (xs : List ℕ). length xs) quiet);
        means_clean =
            subst (λ v. (v ≡ succeeded) ↔ (r.counters.failed ≡ 0)) (sym same)
              (clean_if r.counters.failed (r.counters.failed == 0) refl);
      }
