-- ===== src/Runner/Resumed.antt =====
-- A run that goes on where others left off: what it counted in memory (`_bump`, `_dispatch` of
-- backend/app/worker/runner.py) is what the next scan of the result files finds (`scan_resume_state` of
-- backend/app/services/results.py).
use batch_inference_console.Prelude.{
  ℕ, ◌+◌, ◌≤◌, ◌≡◌, refl, ap, sym, ◌∙◌, subst, Bool, true, false, Option, none, some, List, [], ◌∷◌,
  ◌++◌, length, elem, if◌then◌else◌, arith, Text, Bool-cases, inl, inr, ◌*◌, ltb,
}
use mathlib.Core.Option.{some-injective}
use batch_inference_console.Json.{
  Json, as_fields, Fields, obj, end, get, put, get-put, str, json_or, null, bool, int, float, arr,
}
use batch_inference_console.Queue.State.{Signal}
use batch_inference_console.Jsonl.Parse.{ParsedItem}
use batch_inference_console.Inference.Retry.{Completion, Result, finished, error, raised}
use batch_inference_console.Results.Writer.{Write, success, failure, successes, failures}
use batch_inference_console.Results.Resume.{tokens_of_usage, usage_of_body}
use batch_inference_console.Results.Recount.{indices, IsDistinct, AllCounted, lines}
use batch_inference_console.Results.Reported.{IsCounted, same_fields, complete-IsCounted}
use batch_inference_console.Results.Rescan.{Finds, zero_counters, scan_resume_state-Finds}
use batch_inference_console.Runner.Counters.{Counters, bump, bump_all}
use batch_inference_console.Runner.Dispatch.{
  Plan, Run, Event, launch, finish, drop, halt, write_of, renamed, is_text, launched, finished_task,
  dropped_task, step, run_events, start_run,
}
use batch_inference_console.Runner.Ledger.{
  IsLedger, run_events-IsLedger, by_test, if_free-some, after_event,
}
use batch_inference_console.Runner.Occurrences.{times_written, times_item}
use batch_inference_console.Runner.Distinct.{present, once, IsDistinct-of_times}

bump_all-append :
    (c : Counters) (xs ys : List Write) → bump_all c (xs ++ ys) ≡ bump_all (bump_all c xs) ys
unfolding bump_all
bump_all-append c [] ys = refl
bump_all-append c (x ∷ xs) ys = bump_all-append (bump c x) xs ys

AllCounted-append : (xs ys : List Write) → AllCounted xs → AllCounted ys → AllCounted (xs ++ ys)
AllCounted-append [] ys h k = k
AllCounted-append (success i u r l ∷ xs) ys h k = (h.0, AllCounted-append xs ys h.1 k)
AllCounted-append (failure i u m s a ∷ xs) ys h k = AllCounted-append xs ys h k

times_written-append :
    (i : ℕ) (xs ys : List Write)
    → times_written i (xs ++ ys) ≡ times_written i xs + times_written i ys
times_written-append i [] ys = omega arith
times_written-append i (x ∷ xs) ys = omega (arith, times_written-append i xs ys)

-- The name upstream is replaced, the usage stays.
usage-renamed :
    (b : Bool) (v : Json) (fs : Fields)
    → usage_of_body (as_fields (json_or (if b then obj (put "model" v fs) else obj fs) (obj end)))
      ≡ usage_of_body (as_fields (json_or (obj fs) (obj end)))
usage-renamed true v fs =
    ap usage_of_body (same_fields (put "model" v fs))
    ∙ ap (λ u. as_fields (json_or u (obj end))) (get-put "model" "usage" v fs)
    ∙ ap usage_of_body (sym (same_fields fs))
usage-renamed false v fs = refl

renamed_usage :
    (model_name : Text) (alias : Option Text) (body : Json)
    → usage_of_body (as_fields (json_or (renamed model_name alias body) (obj end)))
      ≡ usage_of_body (as_fields (json_or body (obj end)))
renamed_usage model_name none body = refl
renamed_usage model_name (some alias) (obj fs) =
    usage-renamed (is_text model_name (get "model" fs)) (str alias) fs
renamed_usage model_name (some alias) null = refl
renamed_usage model_name (some alias) (bool b) = refl
renamed_usage model_name (some alias) (int n) = refl
renamed_usage model_name (some alias) (float m d) = refl
renamed_usage model_name (some alias) (str t) = refl
renamed_usage model_name (some alias) (arr xs) = refl

renamed-IsCounted :
    (model_name : Text) (alias : Option Text) (c : Completion)
    → IsCounted c
    → IsCounted (record c { response = renamed model_name alias c.response })
renamed-IsCounted model_name alias c h =
    ap tokens_of_usage (renamed_usage model_name alias c.response) ∙ h

module _ (plan : Plan) where
  write_of-counted :
      (item : ParsedItem) (message : Text) (latency_ms : ℕ) (result : Result)
      → ((a : Completion) → result ≡ finished a → IsCounted a)
      → AllCounted (write_of plan item message latency_ms result ∷ [])
  unfolding write_of
  write_of-counted item message latency_ms (finished a) h =
      (renamed-IsCounted plan.model_name plan.alias a (h a refl), tt)
  write_of-counted item message latency_ms (error status retriable) h = tt
  write_of-counted item message latency_ms raised h = tt

  finished-counted :
      (r r' : Run) (i : ℕ) (message : Text) (latency_ms : ℕ) (result : Result)
      (o : Option ParsedItem)
      → AllCounted r.writes
      → ((a : Completion) → result ≡ finished a → IsCounted a)
      → finished_task plan r i message latency_ms result o ≡ some r'
      → AllCounted r'.writes
  finished-counted r r' i message latency_ms result none h k l = cc
  finished-counted r r' i message latency_ms result (some item) h k l =
      subst (λ (m : Run). AllCounted m.writes) (some-injective _ _ l)
        (AllCounted-append r.writes _ h (write_of-counted item message latency_ms result k))

  launched-counted :
      (r r' : Run) (ts : List ParsedItem)
      → AllCounted r.writes
      → launched plan r ts ≡ some r'
      → AllCounted r'.writes
  launched-counted r r' [] h l = cc
  launched-counted r r' (item ∷ rest) h l =
      by_test (λ (m : Run). AllCounted m.writes) (plan.done item.index)
        (ltb (length r.in_flight) (plan.concurrency * 4)) _ _ r' (λ d. h) (λ d. h) l

  dropped-counted :
      (r r' : Run) (i : ℕ) (o : Option ParsedItem) (s : Option Signal)
      → AllCounted r.writes
      → dropped_task plan r i o s ≡ some r'
      → AllCounted r'.writes
  dropped-counted r r' i none s h l = cc
  dropped-counted r r' i (some item) none h l = cc
  dropped-counted r r' i (some item) (some s) h l =
      subst (λ (m : Run). AllCounted m.writes) (some-injective _ _ l) h

  step-counted :
      (r r' : Run) (e : Event)
      → AllCounted r.writes
      → step plan r e ≡ some r'
      → AllCounted r'.writes
  unfolding step
  step-counted r r' launch h l =
      launched-counted r r' r.todo h (if_free-some r.stop (launched plan r r.todo) r' l)
  step-counted r r' (finish i replies message latency_ms) h l =
      finished-counted r r' i message latency_ms _ _ h (complete-IsCounted replies plan.max_retries)
        l
  step-counted r r' (drop i) h l = dropped-counted r r' i _ r.stop h l
  step-counted r r' (halt s) h l =
      subst (λ (m : Run). AllCounted m.writes) (some-injective _ _ (if_free-some r.stop _ r' l)) h

  run-counted :
      (es : List Event) (r r' : Run)
      → AllCounted r.writes
      → run_events plan r es ≡ some r'
      → AllCounted r'.writes
  unfolding run_events
  run-counted [] r r' h l = subst (λ (m : Run). AllCounted m.writes) (some-injective _ _ l) h
  run-counted (e ∷ es) r r' h l =
      let (m, now, later) = after_event (step plan r e) (λ m. run_events plan m es) r' l in
      run-counted es m r' (step-counted r m e h now) later

-- What runs have left in the files: no index twice, and each result with the tokens that it reports.
pub record IsHistory (ws : List Write) : Type 0 where
  pub distinct : IsDistinct (indices ws)
  pub counted : AllCounted ws

module _ (plan : Plan) (items : List ParsedItem) (ws : List Write) (history : IsHistory ws)
    (known : (i : ℕ) → plan.done i ≡ elem i (indices ws))
    (single : (i : ℕ) → times_item i items ≤ 1) where
  once_in_all :
      (r : Run)
      → IsLedger plan items (bump_all zero_counters ws) r
      → (i : ℕ) → times_written i (ws ++ r.writes) ≤ 1
  once_in_all r h i = elim (Bool-cases (plan.done i)) [
    | inl d ↦ omega (
      arith,
      times_written-append i ws r.writes,
      h.untouched i d,
      once (indices ws) i history.distinct,
    )
    | inr d ↦ omega (
      arith,
      times_written-append i ws r.writes,
      h.accounted i d,
      single i,
      present i (indices ws) (sym (known i) ∙ d),
    )
  ]

  -- A run over a file without an index twice goes on from files that hold the writes of earlier runs: it
  -- starts with the indices and the counters that a scan of them finds. After any events of it, stops
  -- included, the writes of all runs together have no index twice, and a scan of the files with all of
  -- them finds exactly the counters that this run has in memory.
  pub run_events-Finds :
      (es : List Event) (r : Run)
      → run_events plan (start_run items (bump_all zero_counters ws)) es ≡ some r
      → IsHistory (ws ++ r.writes)
        × Finds
            (lines (successes (ws ++ r.writes)))
            (lines (failures (ws ++ r.writes)))
            r.counters
            (indices (ws ++ r.writes))
  run_events-Finds es r l =
      let h = run_events-IsLedger plan items (bump_all zero_counters ws) es r l in
      let distinct = IsDistinct-of_times (indices (ws ++ r.writes)) (once_in_all r h) in
      let counted = AllCounted-append ws r.writes history.counted (run-counted plan es _ r tt l) in
      (
        record { distinct = distinct; counted = counted },
        subst
            (λ c.
              Finds (lines (successes (ws ++ r.writes))) (lines (failures (ws ++ r.writes))) c
                (indices (ws ++ r.writes)))
            (bump_all-append zero_counters ws r.writes ∙ sym h.counts)
            (scan_resume_state-Finds (ws ++ r.writes) distinct counted),
      )
