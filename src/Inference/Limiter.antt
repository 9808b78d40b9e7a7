-- ===== src/Inference/Limiter.antt =====
-- `RateLimiter` of backend/app/services/inference.py. The clock counts milliseconds and a bucket counts
-- 60000ths of a token: a limit of n a minute then adds n for each millisecond, and no number is rounded.
use batch_inference_console.Prelude.{
  ℕ, suc, ◌+◌, ◌-◌, ◌*◌, Bool, true, false, not, ◌&&◌, List, [], ◌∷◌, ◌==◌, ltb, min, if◌then◌else◌,
}

pub record Limiter : Type 0 where
  pub rpm : ℕ
  pub tpm : ℕ
  pub req_tokens : ℕ
  pub tok_tokens : ℕ
  pub last : ℕ

-- `__init__`
abbrev pub new_limiter : ℕ → ℕ → ℕ → Limiter
new_limiter rpm tpm now = record {
  rpm = rpm;
  tpm = tpm;
  req_tokens = rpm * 60000;
  tok_tokens = tpm * 60000;
  last = now;
}

-- A bucket under a limit that is set.
abbrev pub filled : ℕ → ℕ → ℕ → ℕ
filled limit elapsed tokens =
    if limit == 0 then tokens else min (limit * 60000) (tokens + elapsed * limit)

-- `_refill`
unfoldable pub refill : Limiter → ℕ → Limiter
refill l now = record l {
  req_tokens = filled l.rpm (now - l.last) l.req_tokens;
  tok_tokens = filled l.tpm (now - l.last) l.tok_tokens;
  last = now;
}

abbrev pub need_req : Limiter → Bool
need_req l = not (l.rpm == 0) && ltb l.req_tokens 60000

abbrev pub need_tok : Limiter → ℕ → Bool
need_tok l estimated_tokens =
    not (l.tpm == 0) && not (estimated_tokens == 0) && ltb l.tok_tokens (estimated_tokens * 60000)

abbrev pub take_tokens : Limiter → ℕ → Limiter
take_tokens l estimated_tokens = record l {
  req_tokens = if l.rpm == 0 then l.req_tokens else l.req_tokens - 60000;
  tok_tokens =
      if not (l.tpm == 0) && not (estimated_tokens == 0)
      then l.tok_tokens - estimated_tokens * 60000
      else l.tok_tokens;
}

-- Whether the buckets, once refilled, let a request through.
unfoldable pub admit : Limiter → ℕ → Limiter × Bool
admit l estimated_tokens =
    if need_req l
    then (l, false)
    else if need_tok l estimated_tokens
    then (l, false)
    else (take_tokens l estimated_tokens, true)

-- One turn of the loop of `acquire` under the lock, and whether the request is let through.
unfoldable pub try_acquire : Limiter → ℕ → ℕ → Limiter × Bool
unfolding refill admit
try_acquire l now estimated_tokens =
    if l.rpm == 0 && l.tpm == 0 then (l, true) else admit (refill l now) estimated_tokens

-- Turns of any requests, each with the time that the clock has moved since the turn before it; the
-- requests let through, and the tokens that they were estimated at.
pub record Passed : Type 0 where
  pub requests : ℕ
  pub tokens : ℕ

abbrev pub passed_one : Bool → ℕ → Passed → Passed
passed_one ok estimated_tokens p =
    if ok then record { requests = suc p.requests; tokens = p.tokens + estimated_tokens } else p

-- `now` is what the clock shows at first.
unfoldable pub turns : Limiter → ℕ → List (ℕ × ℕ) → Passed → Limiter × Passed
unfolding try_acquire
turns l now [] p = (l, p)
turns l now ((pause, estimated_tokens) ∷ rest) p =
    let (l', ok) = try_acquire l (now + pause) estimated_tokens in
    turns l' (now + pause) rest (passed_one ok estimated_tokens p)

abbrev pub total_pause : List (ℕ × ℕ) → ℕ
total_pause [] = 0
total_pause ((pause, estimated_tokens) ∷ rest) = pause + total_pause rest

-- `acquire` by a request that nobody else disturbs: the times between its turns, the waits of the loop.
unfoldable pub acquire : Limiter → ℕ → List ℕ → Limiter × Bool
unfolding try_acquire
acquire l estimated_tokens [] = (l, false)
acquire l estimated_tokens (pause ∷ pauses) =
    let (l', ok) = try_acquire l (l.last + pause) estimated_tokens in
    let later = acquire l' estimated_tokens pauses in if ok then (l', true) else later
