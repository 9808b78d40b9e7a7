-- ===== src/Tests/RunnerRuns.antt =====
-- A run over two items whose first one an earlier run has written.
use batch_inference_console.Prelude.{
  ℕ, ◌≡◌, ◌≤◌, refl, List, [], ◌∷◌, ◌++◌, some, elem, codes, arith,
}
use batch_inference_console.Prelude.Int.{pos, ◌+ℤ◌}
use batch_inference_console.Json.{Json, obj, end, field, int, str}
use batch_inference_console.Models.{JobStatus}
use batch_inference_console.Queue.State.{Signal}
use batch_inference_console.Jsonl.Parse.{ParsedItem}
use batch_inference_console.Inference.Retry.{
  Completion, Reply, response, complete, cached_tokens_of,
}
use batch_inference_console.Results.Writer.{Write, success, successes, failures}
use batch_inference_console.Results.Resume.{tokens_of_usage}
use batch_inference_console.Results.Recount.{lines, indices}
use batch_inference_console.Results.Reported.{IsCounted, complete-IsCounted}
use batch_inference_console.Results.Rescan.{Finds, zero_counters, scan_resume_state-Finds}
use batch_inference_console.Runner.Counters.{Counters, bump, bump_all}
use batch_inference_console.Runner.Dispatch.{
  Plan, Run, Event, launch, finish, halt, run_events, start_run, verdict,
}
use batch_inference_console.Runner.Ledger.{IsLedger, run_events-IsLedger}
use batch_inference_console.Runner.Occurrences.{times_item}
use batch_inference_console.Runner.Outcome.{IsWhole, verdict-IsWhole}
use batch_inference_console.Runner.Prepare.{Usage}
use batch_inference_console.Runner.Progress.{run_events-bounded}
use batch_inference_console.Runner.Resumed.{IsHistory, run_events-Finds}

-- What the model answers, under the name that it has upstream or the one that the user chose.
abbrev answer_body : Json → Json
answer_body name = obj (
    field "model" name (
      field "usage"
        (obj (field "prompt_tokens" (int (pos 3)) (field "completion_tokens" (int (pos 4)) end)))
        end))

abbrev answer : Completion
answer = record {
  response = answer_body (str (codes "mine"));
  status_code = 200;
  attempts = 1;
  prompt_tokens = pos 3;
  completion_tokens = pos 4;
  cached_tokens = pos 0;
}

abbrev earlier : List Write
earlier = success 0 (codes "a") answer 12 ∷ []

abbrev two_items : List ParsedItem
two_items =
    record { index = 0; custom_id = codes "a"; body = end }
    ∷ record { index = 1; custom_id = codes "b"; body = end }
    ∷ []

abbrev second_plan : Plan
second_plan = record {
  done = λ i. elem i (indices earlier);
  concurrency = 2;
  total_items = 2;
  max_retries = 1;
  model_name = codes "up";
  alias = some (codes "mine");
}

abbrev answers : ℕ → Reply
answers n = response 200 (some (answer_body (str (codes "up"))))

abbrev second_events : List Event
second_events = launch ∷ launch ∷ finish 1 answers [] 15 ∷ halt Signal.pause ∷ []

abbrev both_counted : Counters
both_counted = record {
  completed = 2;
  failed = 0;
  prompt_tokens = pos 6;
  completion_tokens = pos 8;
  cached_tokens = pos 0;
}

abbrev second_end : Run
second_end = record {
  todo = [];
  in_flight = [];
  writes = success 1 (codes "b") answer 15 ∷ [];
  counters = both_counted;
  skipped = 1;
  dropped = [];
  stop = some Signal.pause;
}

second_run :
    run_events second_plan (start_run two_items (bump_all zero_counters earlier)) second_events
    ≡ some second_end
unfolding run_events bump_all bump complete cached_tokens_of ◌+ℤ◌
second_run = refl

run_events-IsLedger_example :
    IsLedger second_plan two_items (bump_all zero_counters earlier) second_end
run_events-IsLedger_example =
    run_events-IsLedger second_plan two_items (bump_all zero_counters earlier) second_events
      second_end second_run

verdict-IsWhole_example : IsWhole second_plan two_items second_end JobStatus.succeeded
unfolding verdict bump_all bump
verdict-IsWhole_example =
    verdict-IsWhole second_plan two_items (bump_all zero_counters earlier) refl refl second_events
      second_end JobStatus.succeeded second_run refl refl

run_events-bounded_example : 4 ≤ 5
run_events-bounded_example =
    run_events-bounded second_plan two_items (bump_all zero_counters earlier) second_events
      second_end second_run

earlier-IsHistory : IsHistory earlier
unfolding cached_tokens_of tokens_of_usage
earlier-IsHistory = record { distinct = (refl, tt); counted = (refl, tt) }

single_items : (i : ℕ) → times_item i two_items ≤ 1
single_items i = ground arith

run_events-Finds_example :
    IsHistory (earlier ++ second_end.writes)
    × Finds
        (lines (successes (earlier ++ second_end.writes)))
        (lines (failures (earlier ++ second_end.writes)))
        both_counted
        (indices (earlier ++ second_end.writes))
run_events-Finds_example =
    run_events-Finds second_plan two_items earlier earlier-IsHistory (λ i. refl) single_items
      second_events second_end second_run

scan_resume_state-Finds_example :
    Finds
      (lines (successes earlier))
      (lines (failures earlier))
      (bump_all zero_counters earlier)
      (indices earlier)
unfolding cached_tokens_of tokens_of_usage
scan_resume_state-Finds_example = scan_resume_state-Finds earlier (refl, tt) (refl, tt)

complete-IsCounted_example : IsCounted answer
unfolding complete cached_tokens_of
complete-IsCounted_example =
    complete-IsCounted (λ n. response 200 (some answer.response)) 1 answer refl

-- The scan has found more than the row holds, and billing has been switched off.
abbrev found_usage : Usage
found_usage = record {
  completed = 2;
  failed = 0;
  prompt_tokens = 130;
  completion_tokens = 25;
  cached_tokens = 40;
  result_size = 900;
}
