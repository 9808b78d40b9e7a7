-- ===== src/Runner/Ledger.antt =====
-- What stays true of a run while `_dispatch` of backend/app/worker/runner.py goes on: no item is lost,
-- and none is written twice.
use batch_inference_console.Prelude.{
  ℕ, suc, ◌+◌, ◌*◌, ◌≡◌, refl, ap, sym, ◌∙◌, subst, Bool, true, false, Option, none, some, List, [],
  ◌∷◌, length, length-append, find, ltb, if◌then◌else◌, arith, Text, ◌≢◌,
}
use mathlib.Core.Option.{some-injective}
use batch_inference_console.Queue.State.{Signal}
use batch_inference_console.Jsonl.Parse.{ParsedItem}
use batch_inference_console.Inference.Retry.{Result, finished, error, raised}
use batch_inference_console.Results.Writer.{Write}
use batch_inference_console.Runner.Counters.{Counters, bump, bump_all, index_of}
use batch_inference_console.Runner.Dispatch.{
  Plan, Run, Event, launch, finish, drop, halt, write_of, without, has_index, record_write,
  launched, finished_task, dropped_task, if_free, step, run_events, count_done, start_run,
}
use batch_inference_console.Runner.Occurrences.{
  weight, times, times_item, times_written, bump_all-snoc, times_written-snoc, length-without,
  times-without, weightless,
}

-- The run over these items, from these counters, has lost none and written none twice: its counters are
-- those of its writes; an item that was not done at the start is written, dropped, in flight or still to
-- do, each as often as the file has it; an item that was done is never handed out; and nothing is dropped
-- before the stop.
pub record IsLedger (plan : Plan) (items : List ParsedItem) (c : Counters) (r : Run) : Type 0 where
  pub counts : r.counters ≡ bump_all c r.writes
  pub total :
      r.skipped + length r.writes + length r.dropped + length r.in_flight + length r.todo
      ≡ length items
  pub skips : r.skipped + count_done plan r.todo ≡ count_done plan items
  pub quiet : r.stop ≡ none → r.dropped ≡ []
  pub accounted :
      (i : ℕ)
      → plan.done i ≡ false
      → times_written i r.writes
          + times i r.dropped
          + times_item i r.in_flight
          + times_item i r.todo
        ≡ times_item i items
  pub untouched :
      (i : ℕ)
      → plan.done i ≡ true
      → times_written i r.writes + times i r.dropped + times_item i r.in_flight ≡ 0

none-some : (s : Signal) → none ≢ some s
none-some s e = cc

pub by_test :
    (P : Run → Type 0) (b b' : Bool) (x y z : Run)
    → (b ≡ true → P x)
    → (b ≡ false → P y)
    → (if b then some x else if b' then some y else none) ≡ some z
    → P z
by_test P true b' x y z hx hy e = subst P (some-injective _ _ e) (hx refl)
by_test P false true x y z hx hy e = subst P (some-injective _ _ e) (hy refl)
by_test P false false x y z hx hy e = cc

pub if_free-some :
    (o : Option Signal) (x : Option Run) (r : Run) → if_free o x ≡ some r → x ≡ some r
if_free-some none x r e = e
if_free-some (some s) x r e = cc

pub index_of-write_of :
    (plan : Plan) (item : ParsedItem) (message : Text) (latency_ms : ℕ) (result : Result)
    → index_of (write_of plan item message latency_ms result) ≡ item.index
unfolding write_of
index_of-write_of plan item message latency_ms (finished a) = refl
index_of-write_of plan item message latency_ms (error status retriable) = refl
index_of-write_of plan item message latency_ms raised = refl

pub after_event :
    (o : Option Run) (k : Run → Option Run) (r : Run)
    → (elim o [ none ↦ none | some m ↦ k m ]) ≡ some r
    → (m : Run) × (o ≡ some m) × (k m ≡ some r)
after_event none k r e = cc
after_event (some m) k r e = (m, refl, e)

module _ (plan : Plan) (items : List ParsedItem) (c : Counters) where
  IsLedger-start : IsLedger plan items c (start_run items c)
  unfolding bump_all
  IsLedger-start = record {
    counts = refl;
    total = omega arith;
    skips = omega arith;
    quiet = λ e. refl;
    accounted = λ i e. omega arith;
    untouched = λ i e. refl;
  }

  IsLedger-skipped :
      (r : Run) (item : ParsedItem) (rest : List ParsedItem)
      → IsLedger plan items c r
      → r.todo ≡ item ∷ rest
      → plan.done item.index ≡ true
      → IsLedger plan items c (record r { todo = rest; skipped = suc r.skipped })
  IsLedger-skipped r item rest h e d = record {
    counts = h.counts;
    total = omega (arith, h.total, ap length e);
    skips = ground (arith, h.skips, ap (count_done plan) e, d);
    quiet = h.quiet;
    accounted = λ i n.
        omega (
          arith,
          h.accounted i n,
          ap (times_item i) e,
          weightless plan.done i item.index false n d,
        );
    untouched = h.untouched;
  }

  IsLedger-launched :
      (r : Run) (item : ParsedItem) (rest : List ParsedItem)
      → IsLedger plan items c r
      → r.todo ≡ item ∷ rest
      → plan.done item.index ≡ false
      → IsLedger plan items c (record r { todo = rest; in_flight = item ∷ r.in_flight })
  IsLedger-launched r item rest h e d = record {
    counts = h.counts;
    total = omega (arith, h.total, ap length e);
    skips = ground (arith, h.skips, ap (count_done plan) e, d);
    quiet = h.quiet;
    accounted = λ i n. omega (arith, h.accounted i n, ap (times_item i) e);
    untouched = λ i n. omega (arith, h.untouched i n, weightless plan.done i item.index true n d);
  }

  IsLedger-launched_lem :
      (r r' : Run) (ts : List ParsedItem)
      → IsLedger plan items c r
      → r.todo ≡ ts
      → launched plan r ts ≡ some r'
      → IsLedger plan items c r'
  IsLedger-launched_lem r r' [] h e l = cc
  IsLedger-launched_lem r r' (item ∷ rest) h e l =
      by_test (IsLedger plan items c) (plan.done item.index)
        (ltb (length r.in_flight) (plan.concurrency * 4)) _ _ r' (IsLedger-skipped r item rest h e)
        (IsLedger-launched r item rest h e) l

  IsLedger-finished :
      (r : Run) (i : ℕ) (item : ParsedItem) (w : Write)
      → IsLedger plan items c r
      → find (has_index i) r.in_flight ≡ some item
      → index_of w ≡ item.index
      → IsLedger plan items c (record_write (record r { in_flight = without i r.in_flight }) w)
  IsLedger-finished r i item w h e same = record {
    counts = ap (λ d. bump d w) h.counts ∙ sym (bump_all-snoc c r.writes w);
    total =
        omega
          (arith, h.total, length-append r.writes (w ∷ []), length-without i r.in_flight item e);
    skips = h.skips;
    quiet = h.quiet;
    accounted = λ j n. omega (
      arith,
      h.accounted j n,
      times_written-snoc j r.writes w,
      times-without j i r.in_flight item e,
      ap (weight j) same,
    );
    untouched = λ j n. omega (
      arith,
      h.untouched j n,
      times_written-snoc j r.writes w,
      times-without j i r.in_flight item e,
      ap (weight j) same,
    );
  }

  IsLedger-dropped :
      (r : Run) (i : ℕ) (item : ParsedItem) (s : Signal)
      → IsLedger plan items c r
      → find (has_index i) r.in_flight ≡ some item
      → r.stop ≡ some s
      → IsLedger plan items c
          (record r { in_flight = without i r.in_flight; dropped = item.index ∷ r.dropped })
  IsLedger-dropped r i item s h e stopped = record {
    counts = h.counts;
    total = omega (arith, h.total, length-without i r.in_flight item e);
    skips = h.skips;
    quiet = λ n. absurd (none-some s (sym n ∙ stopped));
    accounted = λ j n. omega (arith, h.accounted j n, times-without j i r.in_flight item e);
    untouched = λ j n. omega (arith, h.untouched j n, times-without j i r.in_flight item e);
  }

  IsLedger-finished_task :
      (r r' : Run) (i : ℕ) (message : Text) (latency_ms : ℕ) (result : Result)
      (o : Option ParsedItem)
      → IsLedger plan items c r
      → find (has_index i) r.in_flight ≡ o
      → finished_task plan r i message latency_ms result o ≡ some r'
      → IsLedger plan items c r'
  IsLedger-finished_task r r' i message latency_ms result none h e l = cc
  IsLedger-finished_task r r' i message latency_ms result (some item) h e l =
      subst (IsLedger plan items c) (some-injective _ _ l)
        (IsLedger-finished r i item _ h e (index_of-write_of plan item message latency_ms result))

  IsLedger-dropped_task :
      (r r' : Run) (i : ℕ) (o : Option ParsedItem) (s : Option Signal)
      → IsLedger plan items c r
      → find (has_index i) r.in_flight ≡ o
      → r.stop ≡ s
      → dropped_task plan r i o s ≡ some r'
      → IsLedger plan items c r'
  IsLedger-dropped_task r r' i none s h e f l = cc
  IsLedger-dropped_task r r' i (some item) none h e f l = cc
  IsLedger-dropped_task r r' i (some item) (some s) h e f l =
      subst (IsLedger plan items c) (some-injective _ _ l) (IsLedger-dropped r i item s h e f)

  IsLedger-halted :
      (r : Run) (s : Signal)
      → IsLedger plan items c r
      → IsLedger plan items c (record r { stop = some s })
  IsLedger-halted r s h = record {
    counts = h.counts;
    total = h.total;
    skips = h.skips;
    quiet = λ n. absurd (none-some s (sym n));
    accounted = h.accounted;
    untouched = h.untouched;
  }

  -- Every event keeps the ledger.
  pub step-IsLedger :
      (r r' : Run) (e : Event)
      → IsLedger plan items c r
      → step plan r e ≡ some r'
      → IsLedger plan items c r'
  unfolding step
  step-IsLedger r r' launch h l =
      IsLedger-launched_lem r r' r.todo h refl (if_free-some r.stop (launched plan r r.todo) r' l)
  step-IsLedger r r' (finish i replies message latency_ms) h l =
      IsLedger-finished_task r r' i message latency_ms _ _ h refl l
  step-IsLedger r r' (drop i) h l = IsLedger-dropped_task r r' i _ r.stop h refl refl l
  step-IsLedger r r' (halt s) h l =
      subst (IsLedger plan items c) (some-injective _ _ (if_free-some r.stop _ r' l))
        (IsLedger-halted r s h)

  run-IsLedger :
      (r r' : Run) (es : List Event)
      → IsLedger plan items c r
      → run_events plan r es ≡ some r'
      → IsLedger plan items c r'
  unfolding run_events
  run-IsLedger r r' [] h l = subst (IsLedger plan items c) (some-injective _ _ l) h
  run-IsLedger r r' (e ∷ es) h l =
      let (m, now, later) = after_event (step plan r e) (λ m. run_events plan m es) r' l in
      run-IsLedger m r' es (step-IsLedger r m e h now) later

  -- After any events of a run, the ledger holds.
  pub run_events-IsLedger :
      (es : List Event) (r : Run)
      → run_events plan (start_run items c) es ≡ some r
      → IsLedger plan items c r
  run_events-IsLedger es r l = run-IsLedger (start_run items c) r es IsLedger-start l
