-- ===== src/Runner/Dispatch.antt =====
-- `_dispatch` of backend/app/worker/runner.py, with the stop that `_watch_signals` or `_billing_loop`
-- sets, as a function of the events of one run in their order. The order in which tasks get the
-- semaphore and finish is free; the waits of the loop are the guard of `launch`.
use batch_inference_console.Prelude.{
  ℕ, suc, ◌+◌, ◌*◌, ◌==◌, Bool, false, Option, none, some, List, [], ◌∷◌, ◌++◌, Text, text_eq,
  length, find, ltb, if◌then◌else◌,
}
use batch_inference_console.Json.{Json, str, obj, get, put}
use batch_inference_console.Models.{JobStatus, succeeded, completed, canceled, paused, queued}
use batch_inference_console.Queue.State.{Signal, cancel, pause, requeue}
use batch_inference_console.Jsonl.Parse.{ParsedItem}
use batch_inference_console.Inference.Retry.{Reply, Result, finished, error, raised, complete}
use batch_inference_console.Results.Writer.{Write, success, failure}
use batch_inference_console.Runner.Counters.{Counters, bump}

-- What a run goes by: the indices that are done, `concurrency`, `job.total_items`, `mc.max_retries`, and
-- for a redirected personal model the name upstream and the one that the user chose.
pub record Plan : Type 0 where
  pub done : ℕ → Bool
  pub concurrency : ℕ
  pub total_items : ℕ
  pub max_retries : ℕ
  pub model_name : Text
  pub alias : Option Text

-- `_stop_status` as `_watch_signals` sets it for a signal; a refused charge pauses the run like a signal.
abbrev pub stop_status : Signal → JobStatus
stop_status cancel = canceled
stop_status pause = paused
stop_status requeue = queued

pub record Run : Type 0 where
  pub todo : List ParsedItem
  pub in_flight : List ParsedItem
  pub writes : List Write
  pub counters : Counters
  pub skipped : ℕ
  pub dropped : List ℕ
  pub stop : Option Signal

-- The next turn of the loop; the end of a task with the replies to its request, the text of an error
-- and the time it took; a task that starts after the stop and returns; and the stop.
pub data Event : Type 0 where
  launch : Event
  finish : ℕ → (ℕ → Reply) → Text → ℕ → Event
  drop : ℕ → Event
  halt : Signal → Event

abbrev pub is_text : Text → Json → Bool
is_text t (str s) = text_eq s t
is_text t _ = false

-- The name upstream does not show in the results.
abbrev pub renamed : Text → Option Text → Json → Json
renamed model_name (some alias) (obj fs) =
    if is_text model_name (get "model" fs) then obj (put "model" (str alias) fs) else obj fs
renamed model_name _ body = body

-- What `process` writes.
unfoldable pub write_of : Plan → ParsedItem → Text → ℕ → Result → Write
write_of plan item message latency_ms (finished c) =
    success item.index item.custom_id
      (record c { response = renamed plan.model_name plan.alias c.response }) latency_ms
write_of plan item message latency_ms (error status retriable) =
    failure item.index item.custom_id message status (suc plan.max_retries)
write_of plan item message latency_ms raised = failure item.index item.custom_id message none 1

abbrev pub has_index : ℕ → ParsedItem → Bool
has_index i item = item.index == i

abbrev pub without : ℕ → List ParsedItem → List ParsedItem
without i [] = []
without i (item ∷ items) = if has_index i item then items else item ∷ without i items

abbrev pub record_write : Run → Write → Run
record_write r w = record r { writes = r.writes ++ w ∷ []; counters = bump r.counters w }

-- What only happens before the stop.
abbrev pub if_free : {A : Type 0} → Option Signal → Option A → Option A
if_free none x = x
if_free (some s) x = none

module _ (plan : Plan) where
  abbrev pub launched : Run → List ParsedItem → Option Run
  launched r [] = none
  launched r (item ∷ rest) =
      if plan.done item.index
      then some (record r { todo = rest; skipped = suc r.skipped })
      else if ltb (length r.in_flight) (plan.concurrency * 4)
      then some (record r { todo = rest; in_flight = item ∷ r.in_flight })
      else none

  -- The end of a task whose request has returned; a request that never does so has no such event.
  abbrev pub finished_task : Run → ℕ → Text → ℕ → Result → Option ParsedItem → Option Run
  finished_task r i message latency_ms result none = none
  finished_task r i message latency_ms result (some item) = some (
      record_write (record r { in_flight = without i r.in_flight })
        (write_of plan item message latency_ms result))

  abbrev pub dropped_task : Run → ℕ → Option ParsedItem → Option Signal → Option Run
  dropped_task r i (some item) (some s) =
      some (record r { in_flight = without i r.in_flight; dropped = item.index ∷ r.dropped })
  dropped_task r i _ _ = none

  -- One event, or `none` where it cannot happen.
  unfoldable pub step : Run → Event → Option Run
  unfolding write_of complete
  step r launch = if_free r.stop (launched r r.todo)
  step r (finish i replies message latency_ms) =
      finished_task r i message latency_ms (complete plan.max_retries replies)
        (find (has_index i) r.in_flight)
  step r (drop i) = dropped_task r i (find (has_index i) r.in_flight) r.stop
  step r (halt s) = if_free r.stop (some (record r { stop = some s }))

  unfoldable pub run_events : Run → List Event → Option Run
  unfolding step
  run_events r [] = some r
  run_events r (e ∷ es) = elim (step r e) [ none ↦ none | some r' ↦ run_events r' es ]

  abbrev pub count_done : List ParsedItem → ℕ
  count_done [] = 0
  count_done (item ∷ items) = (if plan.done item.index then 1 else 0) + count_done items

  -- How a run that was not stopped short ends.
  abbrev pub all_done : Counters → JobStatus
  all_done c = if c.failed == 0 then succeeded else completed

  abbrev pub end_status : Counters → Option Signal → JobStatus
  end_status c none = all_done c
  end_status c (some s) =
      if ltb (c.completed + c.failed) plan.total_items then stop_status s else all_done c

  -- The status in which the run ends, once it ends: at the next turn of the loop after a stop, or when
  -- all items have been handed out and all tasks are over.
  abbrev pub verdict_of :
      List ParsedItem → List ParsedItem → Counters → Option Signal → Option JobStatus
  verdict_of (item ∷ items) in_flight c none = none
  verdict_of (item ∷ items) in_flight c (some s) = some (stop_status s)
  verdict_of [] (item ∷ items) c stop = none
  verdict_of [] [] c stop = some (end_status c stop)

  unfoldable pub verdict : Run → Option JobStatus
  verdict r = verdict_of r.todo r.in_flight r.counters r.stop

-- A run at its start, with the counters that the result files gave.
abbrev pub start_run : List ParsedItem → Counters → Run
start_run items c = record {
  todo = items;
  in_flight = [];
  writes = [];
  counters = c;
  skipped = 0;
  dropped = [];
  stop = none;
}
