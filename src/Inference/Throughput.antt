-- ===== src/Inference/Throughput.antt =====
-- How much `RateLimiter` of backend/app/services/inference.py lets through, and what it never does.
use batch_inference_console.Prelude.{
  ℕ, ◌+◌, ◌-◌, ◌*◌, ◌<◌, ◌≤◌, ◌≡◌, refl, ap, sym, ◌∙◌, Bool, true, false, true-false, ◌&&◌, List,
  [], ◌∷◌, ◌==◌, on_if, if◌then◌else◌, arith,
}
use batch_inference_console.Inference.Limiter.{
  Limiter, new_limiter, filled, refill, need_req, need_tok, admit, try_acquire, Passed, passed_one,
  turns, total_pause,
}

filled_le : (limit elapsed tokens : ℕ) → filled limit elapsed tokens ≤ tokens + elapsed * limit
filled_le limit elapsed tokens = grind arith

filled_cap :
    (limit elapsed tokens : ℕ)
    → tokens ≤ limit * 60000
    → filled limit elapsed tokens ≤ limit * 60000
filled_cap limit elapsed tokens h = grind arith

-- What one turn at the time `now` does to the buckets; the turn adds so much to them, and the estimate of
-- its request is so many tokens.
record IsTurn (l : Limiter) (more_req more_tok estimated_tokens : ℕ) (l' : Limiter) (ok : Bool)
    : Type 0 where
  same_rpm : l'.rpm ≡ l.rpm
  same_tpm : l'.tpm ≡ l.tpm
  req : (l.rpm == 0) ≡ false → l'.req_tokens + (if ok then 60000 else 0) ≤ l.req_tokens + more_req
  tok :
      (l.tpm == 0) ≡ false
      → l'.tok_tokens + (if ok then estimated_tokens * 60000 else 0) ≤ l.tok_tokens + more_tok

abbrev TurnOf : Limiter → ℕ → ℕ → ℕ → Limiter × Bool → Type 0
TurnOf l more_req more_tok est x = IsTurn l more_req more_tok est x.0 x.1

refused-IsTurn : (l : Limiter) (est : ℕ) → IsTurn l 0 0 est l false
refused-IsTurn l est = record {
  same_rpm = refl;
  same_tpm = refl;
  req = λ h. omega arith;
  tok = λ h. omega arith;
}

admit-IsTurn : (l : Limiter) (est : ℕ) → TurnOf l 0 0 est (admit l est)
unfolding admit
admit-IsTurn l est =
    on_if (TurnOf l 0 0 est) (need_req l) _ _ (λ e. refused-IsTurn l est)
      (λ e.
        on_if (TurnOf l 0 0 est) (need_tok l est) _ _ (λ f. refused-IsTurn l est)
          (λ f. record {
            same_rpm = refl;
            same_tpm = refl;
            req = λ h. ground (arith, e, h);
            tok = λ h. ground (arith, f, h);
          }))

refilled :
    (l : Limiter) (now est : ℕ) (x : Limiter × Bool)
    → TurnOf (refill l now) 0 0 est x
    → TurnOf l ((now - l.last) * l.rpm) ((now - l.last) * l.tpm) est x
unfolding refill
refilled l now est x t = record {
  same_rpm = t.same_rpm;
  same_tpm = t.same_tpm;
  req = λ h. omega (arith, t.req h, filled_le l.rpm (now - l.last) l.req_tokens);
  tok = λ h. omega (arith, t.tok h, filled_le l.tpm (now - l.last) l.tok_tokens);
}

try_acquire-IsTurn :
    (l : Limiter) (now est : ℕ)
    → TurnOf l ((now - l.last) * l.rpm) ((now - l.last) * l.tpm) est (try_acquire l now est)
unfolding try_acquire
try_acquire-IsTurn l now est =
    on_if (TurnOf l ((now - l.last) * l.rpm) ((now - l.last) * l.tpm) est)
      (l.rpm == 0 && l.tpm == 0) _ _
      (λ e. record {
        same_rpm = refl;
        same_tpm = refl;
        req = λ h. ground (arith, e, h);
        tok = λ h. ground (arith, e, h);
      })
      (λ e. refilled l now est _ (admit-IsTurn (refill l now) est))

admit-last : (l : Limiter) (est : ℕ) → (admit l est).0.last ≡ l.last
unfolding admit
admit-last l est =
    on_if (λ (x : Limiter × Bool). x.0.last ≡ l.last) (need_req l) _ _ (λ e. refl)
      (λ e.
        on_if (λ (x : Limiter × Bool). x.0.last ≡ l.last) (need_tok l est) _ _ (λ f. refl)
          (λ f. refl))

-- A limiter that limits anything notes the time of each turn.
try_acquire-last :
    (l : Limiter) (now est : ℕ)
    → (l.rpm == 0 && l.tpm == 0) ≡ false
    → (try_acquire l now est).0.last ≡ now
unfolding try_acquire refill
try_acquire-last l now est h =
    on_if (λ (x : Limiter × Bool). x.0.last ≡ now) (l.rpm == 0 && l.tpm == 0) _ _
      (λ e. absurd (true-false (sym e ∙ h))) (λ e. admit-last (refill l now) est)

more_requests :
    (ok : Bool) (est : ℕ) (p : Passed)
    → (passed_one ok est p).requests * 60000 ≡ p.requests * 60000 + (if ok then 60000 else 0)
more_requests true est p = omega arith
more_requests false est p = omega arith

more_tokens :
    (ok : Bool) (est : ℕ) (p : Passed)
    → (passed_one ok est p).tokens * 60000 ≡ p.tokens * 60000 + (if ok then est * 60000 else 0)
more_tokens true est p = omega arith
more_tokens false est p = omega arith

spread : (a b n : ℕ) → (a + b) * n ≡ a * n + b * n
spread a b n = grind arith

spread_left : (n a b : ℕ) → n * (a + b) ≡ a * n + b * n
spread_left n a b = grind arith

-- The rate at which a bucket fills, from the turn that was noted on.
since : {last now n m : ℕ} → last ≡ now → n ≡ m → (rest : ℕ) → (now - last + rest) * n ≡ rest * m
since {last} {now} {n} {m} e f rest =
    ap (λ (d : ℕ). d * n) (omega (arith, e)) ∙ ap (λ (d : ℕ). rest * d) f

gone_by :
    (now last pause rest n : ℕ)
    → last ≤ now
    → (now - last + (pause + rest)) * n ≡ (now + pause - last) * n + rest * n
gone_by now last pause rest n le =
    ap (λ (d : ℕ). d * n) (omega (arith, le)) ∙ spread (now + pause - last) rest n

requests_within :
    (l : Limiter) (now : ℕ) (ts : List (ℕ × ℕ)) (p : Passed)
    → (l.rpm == 0) ≡ false
    → l.last ≤ now
    → (turns l now ts p).1.requests * 60000
      ≤ p.requests * 60000 + l.req_tokens + (now - l.last + total_pause ts) * l.rpm
unfolding turns
requests_within l now [] p h le = omega arith
requests_within l now ((pause, est) ∷ ts) p h le =
    let x = try_acquire l (now + pause) est in
    let t = try_acquire-IsTurn l (now + pause) est in
    let noted = try_acquire-last l (now + pause) est (ground (arith, h)) in
    let rest =
      requests_within x.0 (now + pause) ts (passed_one x.1 est p) (ap (λ n. n == 0) t.same_rpm ∙ h)
        (omega (arith, noted)) in
    omega (
      arith,
      rest,
      t.req h,
      since noted t.same_rpm (total_pause ts),
      more_requests x.1 est p,
      gone_by now l.last pause (total_pause ts) l.rpm le,
    )

tokens_within :
    (l : Limiter) (now : ℕ) (ts : List (ℕ × ℕ)) (p : Passed)
    → (l.tpm == 0) ≡ false
    → l.last ≤ now
    → (turns l now ts p).1.tokens * 60000
      ≤ p.tokens * 60000 + l.tok_tokens + (now - l.last + total_pause ts) * l.tpm
unfolding turns
tokens_within l now [] p h le = omega arith
tokens_within l now ((pause, est) ∷ ts) p h le =
    let x = try_acquire l (now + pause) est in
    let t = try_acquire-IsTurn l (now + pause) est in
    let noted = try_acquire-last l (now + pause) est (ground (arith, h)) in
    let rest =
      tokens_within x.0 (now + pause) ts (passed_one x.1 est p) (ap (λ n. n == 0) t.same_tpm ∙ h)
        (omega (arith, noted)) in
    omega (
      arith,
      rest,
      t.tok h,
      since noted t.same_tpm (total_pause ts),
      more_tokens x.1 est p,
      gone_by now l.last pause (total_pause ts) l.tpm le,
    )

abbrev pub none_passed : Passed
none_passed = record { requests = 0; tokens = 0 }

-- The requests and the tokens that pass stay within the limits that are set, over a time in milliseconds.
pub record IsWithin (rpm tpm time : ℕ) (p : Passed) : Type 0 where
  pub requests : (rpm == 0) ≡ false → p.requests * 60000 ≤ rpm * (60000 + time)
  pub tokens : (tpm == 0) ≡ false → p.tokens * 60000 ≤ tpm * (60000 + time)

-- From its start on, over any turns of any requests at the times of a clock that never goes back, a
-- limiter lets through at most `rpm` requests at once and `rpm` more for each minute that has gone by on
-- that clock, and at most `tpm` tokens and `tpm` more for each minute, by the estimates of the requests.
pub turns-IsWithin :
    (rpm tpm now : ℕ) (ts : List (ℕ × ℕ))
    → IsWithin rpm tpm (total_pause ts) (turns (new_limiter rpm tpm now) now ts none_passed).1
turns-IsWithin rpm tpm now ts = record {
  requests = λ h. omega (
    arith,
    requests_within (new_limiter rpm tpm now) now ts none_passed h (omega arith),
    since {last = now} {n = rpm} refl refl (total_pause ts),
    spread_left rpm 60000 (total_pause ts),
  );
  tokens = λ h. omega (
    arith,
    tokens_within (new_limiter rpm tpm now) now ts none_passed h (omega arith),
    since {last = now} {n = tpm} refl refl (total_pause ts),
    spread_left tpm 60000 (total_pause ts),
  );
}

-- The bucket of tokens is never above its limit.
abbrev IsCapped : Limiter → Type 0
IsCapped l = l.tok_tokens ≤ l.tpm * 60000

admit-IsCapped : (l : Limiter) (est : ℕ) → IsCapped l → IsCapped (admit l est).0
unfolding admit
admit-IsCapped l est h =
    on_if (λ (x : Limiter × Bool). IsCapped x.0) (need_req l) _ _ (λ e. h)
      (λ e.
        on_if (λ (x : Limiter × Bool). IsCapped x.0) (need_tok l est) _ _ (λ f. h)
          (λ f. ground arith))

try_acquire-IsCapped : (l : Limiter) (now est : ℕ) → IsCapped l → IsCapped (try_acquire l now est).0
unfolding try_acquire refill
try_acquire-IsCapped l now est h =
    on_if (λ (x : Limiter × Bool). IsCapped x.0) (l.rpm == 0 && l.tpm == 0) _ _ (λ e. h)
      (λ e. admit-IsCapped (refill l now) est (filled_cap l.tpm (now - l.last) l.tok_tokens h))

turns-IsCapped :
    (l : Limiter) (now : ℕ) (ts : List (ℕ × ℕ)) (p : Passed)
    → IsCapped l
    → IsCapped (turns l now ts p).0
unfolding turns
turns-IsCapped l now [] p h = h
turns-IsCapped l now ((pause, est) ∷ ts) p h =
    let x = try_acquire l (now + pause) est in
    turns-IsCapped x.0 (now + pause) ts (passed_one x.1 est p)
      (try_acquire-IsCapped l (now + pause) est h)

same_tpm :
    (l : Limiter) (now : ℕ) (ts : List (ℕ × ℕ)) (p : Passed) → (turns l now ts p).0.tpm ≡ l.tpm
unfolding turns
same_tpm l now [] p = refl
same_tpm l now ((pause, est) ∷ ts) p =
    let x = try_acquire l (now + pause) est in
    same_tpm x.0 (now + pause) ts (passed_one x.1 est p)
    ∙ (try_acquire-IsTurn l (now + pause) est).same_tpm

need_big : (l : Limiter) (est : ℕ) → IsCapped l → 0 < l.tpm → l.tpm < est → need_tok l est ≡ true
need_big l est h some_ big = ground arith

stuck :
    (l : Limiter) (now est : ℕ)
    → IsCapped l
    → 0 < l.tpm
    → l.tpm < est
    → (try_acquire l now est).1 ≡ false
unfolding try_acquire refill admit
stuck l now est h some_ big =
    on_if (λ (x : Limiter × Bool). x.1 ≡ false) (l.rpm == 0 && l.tpm == 0) _ _ (λ e. ground arith)
      (λ e.
        on_if (λ (x : Limiter × Bool). x.1 ≡ false) (need_req (refill l now)) _ _ (λ f. refl)
          (λ f.
            on_if (λ (x : Limiter × Bool). x.1 ≡ false) (need_tok (refill l now) est) _ _
              (λ g. refl)
              (λ g.
                sym (
                  need_big (refill l now) est (filled_cap l.tpm (now - l.last) l.tok_tokens h) some_
                    big)
                ∙ g)))

-- A request whose estimate is above a limit of tokens that is set is never let through, whatever requests
-- the limiter has seen before and however long it waits.
pub oversized :
    (rpm tpm start : ℕ) (ts : List (ℕ × ℕ)) (now estimated_tokens : ℕ)
    → 0 < tpm
    → tpm < estimated_tokens
    → (try_acquire
        (turns (new_limiter rpm tpm start) start ts none_passed).0
        now
        estimated_tokens).1
      ≡ false
oversized rpm tpm start ts now est some_ big =
    let l = (turns (new_limiter rpm tpm start) start ts none_passed).0 in
    let same = same_tpm (new_limiter rpm tpm start) start ts none_passed in
    stuck l now est (turns-IsCapped (new_limiter rpm tpm start) start ts none_passed (omega arith))
      (omega (arith, same, some_)) (omega (arith, same, big))
