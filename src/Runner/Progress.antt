-- ===== src/Runner/Progress.antt =====
-- That a run of `_dispatch` of backend/app/worker/runner.py comes to its end.
use batch_inference_console.Prelude.{
  ℕ, ◌+◌, ◌*◌, ◌<◌, ◌≤◌, ◌≡◌, refl, ap, subst, Option, none, some, List, [], ◌∷◌, length, find, ltb,
  arith, Text,
}
use mathlib.Core.Option.{some-injective}
use batch_inference_console.Queue.State.{Signal}
use batch_inference_console.Jsonl.Parse.{ParsedItem}
use batch_inference_console.Inference.Retry.{Result}
use batch_inference_console.Runner.Counters.{Counters}
use batch_inference_console.Runner.Dispatch.{
  Plan, Run, Event, launch, finish, drop, halt, has_index, launched, finished_task, dropped_task,
  if_free, step, run_events, start_run,
}
use batch_inference_console.Runner.Ledger.{by_test, if_free-some, after_event}
use batch_inference_console.Runner.Occurrences.{length-without}

abbrev may_stop : Option Signal → ℕ
may_stop none = 1
may_stop (some s) = 0

-- What is left of a run: an item to do counts twice, as it will be handed out and then end.
abbrev pub left_to_do : Run → ℕ
left_to_do r = 2 * length r.todo + length r.in_flight + may_stop r.stop

module _ (plan : Plan) where
  less-launched :
      (r r' : Run) (ts : List ParsedItem)
      → r.todo ≡ ts
      → launched plan r ts ≡ some r'
      → left_to_do r' < left_to_do r
  less-launched r r' [] e l = cc
  less-launched r r' (item ∷ rest) e l =
      by_test (λ m. left_to_do m < left_to_do r) (plan.done item.index)
        (ltb (length r.in_flight) (plan.concurrency * 4)) _ _ r'
        (λ d. omega (arith, ap (λ (xs : List ParsedItem). length xs) e))
        (λ d. omega (arith, ap (λ (xs : List ParsedItem). length xs) e)) l

  less-finished :
      (r r' : Run) (i : ℕ) (message : Text) (latency_ms : ℕ) (result : Result)
      (o : Option ParsedItem)
      → find (has_index i) r.in_flight ≡ o
      → finished_task plan r i message latency_ms result o ≡ some r'
      → left_to_do r' < left_to_do r
  less-finished r r' i message latency_ms result none e l = cc
  less-finished r r' i message latency_ms result (some item) e l =
      subst (λ m. left_to_do m < left_to_do r) (some-injective _ _ l)
        (omega (arith, length-without i r.in_flight item e))

  less-dropped :
      (r r' : Run) (i : ℕ) (o : Option ParsedItem) (s : Option Signal)
      → find (has_index i) r.in_flight ≡ o
      → dropped_task plan r i o s ≡ some r'
      → left_to_do r' < left_to_do r
  less-dropped r r' i none s e l = cc
  less-dropped r r' i (some item) none e l = cc
  less-dropped r r' i (some item) (some s) e l =
      subst (λ m. left_to_do m < left_to_do r) (some-injective _ _ l)
        (omega (arith, length-without i r.in_flight item e))

  less-halted :
      (r r' : Run) (o : Option Signal) (s : Signal)
      → r.stop ≡ o
      → if_free o (some (record r { stop = some s })) ≡ some r'
      → left_to_do r' < left_to_do r
  less-halted r r' none s e l =
      subst (λ m. left_to_do m < left_to_do r) (some-injective _ _ l) (omega (arith, ap may_stop e))
  less-halted r r' (some g) s e l = cc

  step-less : (r r' : Run) (e : Event) → step plan r e ≡ some r' → left_to_do r' < left_to_do r
  unfolding step
  step-less r r' launch l =
      less-launched r r' r.todo refl (if_free-some r.stop (launched plan r r.todo) r' l)
  step-less r r' (finish i replies message latency_ms) l =
      less-finished r r' i message latency_ms _ _ refl l
  step-less r r' (drop i) l = less-dropped r r' i _ r.stop refl l
  step-less r r' (halt s) l = less-halted r r' r.stop s refl l

  run-bounded :
      (es : List Event) (r r' : Run)
      → run_events plan r es ≡ some r'
      → length es + left_to_do r' ≤ left_to_do r
  unfolding run_events
  run-bounded [] r r' l = omega (arith, ap left_to_do (some-injective _ _ l))
  run-bounded (e ∷ es) r r' l =
      let (m, now, later) = after_event (step plan r e) (λ m. run_events plan m es) r' l in
      omega (arith, step-less r m e now, run-bounded es m r' later)

  -- A run over n items goes through at most 2n + 1 events, whatever they are: each item is handed out and
  -- ends at most once, and there is at most one stop.
  pub run_events-bounded :
      (items : List ParsedItem) (c : Counters) (es : List Event) (r : Run)
      → run_events plan (start_run items c) es ≡ some r
      → length es ≤ 2 * length items + 1
  run_events-bounded items c es r l = omega (arith, run-bounded es (start_run items c) r l)
