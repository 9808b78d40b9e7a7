-- ===== src/Queue/Score.antt =====
-- `_score` and `priority_of` of backend/app/services/queue.py, and the order that scores give. Times
-- are whole seconds and scores are exact; the source's doubles round the fraction of a second.
use batch_inference_console.Prelude.{
  ℕ, ◌+◌, ◌*◌, ◌/◌, ◌<◌, ◌≡◌, Bool, true, false, if◌then◌else◌, arith, Option, none, some, ◌⊎◌,
}
use batch_inference_console.Prelude.Int.{ℤ, pos, negsuc, sub_ℕ, ◌<ℤ◌}
use batch_inference_console.Models.{Job}

-- 1e12
abbrev pub band : ℕ
band = 1000000000000

-- `PINNED_BASE + ts` for a pinned job, else `priority * 1e12 + ts`
unfoldable pub score : ℕ → Bool → ℕ → ℤ
score priority pinned ts = if pinned then sub_ℕ ts band else pos (priority * band + ts)

-- `max(0, int(score // 1e12))`: the floor of a negative score is below 0
unfoldable pub priority_of : ℤ → ℕ
priority_of (pos s) = s / band
priority_of (negsuc s) = 0

-- The priority can be read back from the score of a job that is not pinned, at any time before the
-- year 33658.
pub priority_of-score :
    (priority ts : ℕ) → ts < band → priority_of (score priority false ts) ≡ priority
unfolding priority_of score
priority_of-score priority ts h = omega arith

-- The time that `enqueue_job` of backend/app/services/pins.py gives: a pinned job goes by when it was
-- pinned, a job that keeps its place by when it was first queued, any other by now. A missing time
-- is now.
abbrev pub ts_or_now : Option ℕ → ℕ → ℕ
ts_or_now none now = now
ts_or_now (some t) now = t

unfoldable pub enqueue_ts : Job → Bool → ℕ → ℕ
enqueue_ts job keep_position now =
    if job.pinned
    then ts_or_now job.pinned_at now
    else if keep_position
    then ts_or_now job.queued_at now
    else now

unfoldable pub enqueue_score : Job → Bool → ℕ → ℤ
unfolding score enqueue_ts
enqueue_score job keep_position now =
    score job.priority job.pinned (enqueue_ts job keep_position now)

-- Which of two waiting jobs is to be taken first, from their pins, priorities and times: pinned jobs
-- come before all others, then the smaller priority, then the earlier time.
abbrev pub Precedes : Bool → ℕ → ℕ → Bool → ℕ → ℕ → Type 0
Precedes true p s true q t = s < t
Precedes true p s false q t = Unit
Precedes false p s true q t = ⊥
Precedes false p s false q t = (p < q) ⊎ ((p ≡ q) × (s < t))

score-order :
    (p s : ℕ) (q t : ℕ) (pin pin' : Bool)
    → s < band
    → t < band
    → Precedes pin p s pin' q t
    → score p pin s <ℤ score q pin' t
unfolding score
score-order p s q t true true h k before = ground arith
score-order p s q t true false h k before = ground arith
score-order p s q t false true h k before = absurd before
score-order p s q t false false h k before = omega arith

-- The time by which a job that is put into the queue at `now` waits: since it was pinned; since it was
-- first queued, if it keeps its place; or since now.
pub data WaitsSince (job : Job) (now : ℕ) : Bool → ℕ → Type 0 where
  since_pinned :
      (keep_position : Bool) (t : ℕ)
      → job.pinned ≡ true
      → job.pinned_at ≡ some t
      → WaitsSince job now keep_position t
  since_queued : (t : ℕ) → job.pinned ≡ false → job.queued_at ≡ some t → WaitsSince job now true t
  since_now : job.pinned ≡ false → WaitsSince job now false now

enqueue_ts-WaitsSince :
    (job : Job) (now : ℕ) {keep_position : Bool} {t : ℕ}
    → WaitsSince job now keep_position t
    → enqueue_ts job keep_position now ≡ t
unfolding enqueue_ts
enqueue_ts-WaitsSince job now (since_pinned keep t pinned at) = rw (pinned, at)
enqueue_ts-WaitsSince job now (since_queued t unpinned at) = rw (unpinned, at)
enqueue_ts-WaitsSince job now (since_now unpinned) = rw unpinned

-- Two jobs that are put into the queue, at any two moments, get scores in the order in which they are to
-- be taken: pinned jobs first, by when they were pinned; then the smaller priority; at one priority the
-- job that came first, where a job that keeps its place counts by when it was first queued. The times
-- are before the year 33658.
pub enqueue_score-order :
    (a b : Job) (now_a now_b : ℕ) {keep_a keep_b : Bool} {s t : ℕ}
    → WaitsSince a now_a keep_a s
    → WaitsSince b now_b keep_b t
    → s < band
    → t < band
    → Precedes a.pinned a.priority s b.pinned b.priority t
    → enqueue_score a keep_a now_a <ℤ enqueue_score b keep_b now_b
unfolding enqueue_score
enqueue_score-order a b now_a now_b {s = s} {t = t} wa wb ha hb before =
    rw (enqueue_ts-WaitsSince a now_a wa, enqueue_ts-WaitsSince b now_b wb)
      (score-order a.priority s b.priority t a.pinned b.pinned ha hb before)
