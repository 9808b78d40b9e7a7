-- ===== src/Inference/Retry.antt =====
-- `InferenceClient.complete` and `cached_tokens_of`: the attempts of one request. The waits between
-- attempts, the time they take and the texts of the errors are left out.
use batch_inference_console.Prelude.{
  ℕ, zero, suc, ◌+◌, ◌≤◌, ◌<◌, Bool, true, false, ◌≡◌, ap, sym, ◌∙◌, subst, Option, none, some, [],
  ◌∷◌, ltb, ltb→lt, Bool-cases, inl, inr, elem, if◌then◌else◌, arith,
}
use batch_inference_console.Prelude.Int.{ℤ, pos}
use batch_inference_console.Json.{
  Json, Fields, int, obj, end, truthy, get, fields_of, json_or, int_of,
}

-- What the HTTP client gives for one request; a body that is not JSON is `none`.
pub data Reply : Type 0 where
  timeout network : Reply
  response : ℕ → Option Json → Reply

pub record Completion : Type 0 where
  pub response : Json
  pub status_code : ℕ
  pub attempts : ℕ
  pub prompt_tokens : ℤ
  pub completion_tokens : ℤ
  pub cached_tokens : ℤ

-- The result, an `InferenceError` with its status code and whether it is worth another attempt, or
-- another exception, which `complete` lets through.
pub data Result : Type 0 where
  finished : Completion → Result
  error : Option ℕ → Bool → Result
  raised : Result

-- `RETRIABLE_STATUS`
abbrev pub is_retriable_status : ℕ → Bool
is_retriable_status status = elem status (408 ∷ 409 ∷ 425 ∷ 429 ∷ 500 ∷ 502 ∷ 503 ∷ 504 ∷ 529 ∷ [])

-- `int(value or 0)`
abbrev pub count_of : Json → Option ℤ
count_of v = int_of (json_or v (int (pos 0)))

abbrev pub zero_if_none : Option ℤ → ℤ
zero_if_none none = pos 0
zero_if_none (some n) = n

unfoldable pub cached_tokens_of : Fields → Option ℤ
cached_tokens_of usage =
    let cached = get "cached_tokens" (fields_of (get "prompt_tokens_details" usage)) in
    if truthy cached
    then count_of cached
    else some (zero_if_none (count_of (get "prompt_cache_hit_tokens" usage)))

abbrev pub completion : Json → ℕ → ℕ → Option ℤ → Option ℤ → Option ℤ → Result
completion body status attempt (some p) (some c) (some cached) = finished record {
  response = body;
  status_code = status;
  attempts = attempt;
  prompt_tokens = p;
  completion_tokens = c;
  cached_tokens = cached;
}
completion body status attempt _ _ _ = raised

-- The tokens of a response; `.get` on what is not a dict raises.
unfoldable pub read_usage : Json → ℕ → ℕ → Json → Result
unfolding cached_tokens_of
read_usage body status attempt (obj usage) =
    completion body status attempt (count_of (get "prompt_tokens" usage))
      (count_of (get "completion_tokens" usage)) (cached_tokens_of usage)
read_usage body status attempt _ = raised

unfoldable pub read_response : ℕ → ℕ → Json → Result
unfolding read_usage
read_response status attempt (obj fs) =
    read_usage (obj fs) status attempt (json_or (get "usage" fs) (obj end))
read_response status attempt _ = raised

-- One attempt.
unfoldable pub judge : ℕ → Reply → Result
unfolding read_response
judge attempt timeout = error none true
judge attempt network = error none true
judge attempt (response status none) =
    if ltb status 400
    then error (some status) true
    else error (some status) (is_retriable_status status)
judge attempt (response status (some body)) =
    if ltb status 400
    then read_response status attempt body
    else error (some status) (is_retriable_status status)

abbrev pub wants_retry : Result → Bool
wants_retry (error status b) = b
wants_retry _ = false

-- The loop: attempts that are left, the number of the next one, and the last error.
unfoldable pub attempt_from : (ℕ → Reply) → ℕ → ℕ → Result → Result
unfolding judge
attempt_from replies zero attempt last = last
attempt_from replies (suc n) attempt last =
    let now = judge attempt (replies attempt) in
    let rest = attempt_from replies n (suc attempt) now in if wants_retry now then rest else now

unfoldable pub complete : ℕ → (ℕ → Reply) → Result
unfolding attempt_from
complete max_retries replies = attempt_from replies (suc max_retries) 1 (error none false)

module _ (replies : ℕ → Reply) where
  step-retry :
      (n attempt : ℕ) (last : Result)
      → wants_retry (judge attempt (replies attempt)) ≡ true
      → attempt_from replies (suc n) attempt last
        ≡ attempt_from replies n (suc attempt) (judge attempt (replies attempt))
  unfolding attempt_from
  step-retry n attempt last h = rw h

  step-stop :
      (n attempt : ℕ) (last : Result)
      → wants_retry (judge attempt (replies attempt)) ≡ false
      → attempt_from replies (suc n) attempt last ≡ judge attempt (replies attempt)
  unfolding attempt_from
  step-stop n attempt last h = rw h

  attempt_from-stops :
      (m n attempt : ℕ) (last : Result)
      → attempt ≤ m
      → m < attempt + n
      → ((i : ℕ) → attempt ≤ i → i < m → wants_retry (judge i (replies i)) ≡ true)
      → wants_retry (judge m (replies m)) ≡ false
      → attempt_from replies n attempt last ≡ judge m (replies m)
  attempt_from-stops m zero attempt last le lt before now = ground arith
  attempt_from-stops m (suc n) attempt last le lt before now = elim (Bool-cases (ltb attempt m)) [
    | inl e ↦
        (let h = before attempt (omega arith) (ltb→lt attempt m e) in
          step-retry n attempt last h
          ∙ attempt_from-stops m n (suc attempt) (judge attempt (replies attempt))
              (ltb→lt attempt m e) (omega arith) (λ i low high. before i (omega arith) high) now)
    | inr e ↦
        subst (λ a. attempt_from replies (suc n) a last ≡ judge m (replies m)) (sym (at_end e))
          (step-stop n m last now)
  ]
    where
      at_end : ltb attempt m ≡ false → attempt ≡ m
      at_end e = ground arith

  attempt_from-exhausted :
      (m n attempt : ℕ) (last : Result)
      → m ≡ attempt + n
      → ((i : ℕ) → attempt ≤ i → i ≤ m → wants_retry (judge i (replies i)) ≡ true)
      → attempt_from replies (suc n) attempt last ≡ judge m (replies m)
  unfolding attempt_from
  attempt_from-exhausted m zero attempt last e all =
      step-retry 0 attempt last (all attempt (omega arith) (omega arith))
      ∙ ap (λ i. judge i (replies i)) (same_end e)
    where
      same_end : m ≡ attempt + 0 → attempt ≡ m
      same_end h = omega arith
  attempt_from-exhausted m (suc n) attempt last e all =
      step-retry (suc n) attempt last (all attempt (omega arith) (omega arith))
      ∙ attempt_from-exhausted m n (suc attempt) (judge attempt (replies attempt)) (omega arith)
          (λ i low high. all i (omega arith) high)

-- The first attempt whose outcome is not an error worth another attempt decides the result, if it is
-- among the first `max_retries + 1`.
pub complete-first :
    (replies : ℕ → Reply) (max_retries m : ℕ)
    → 1 ≤ m
    → m ≤ suc max_retries
    → ((i : ℕ) → 1 ≤ i → i < m → wants_retry (judge i (replies i)) ≡ true)
    → wants_retry (judge m (replies m)) ≡ false
    → complete max_retries replies ≡ judge m (replies m)
unfolding complete
complete-first replies max_retries m low high before now =
    attempt_from-stops replies m (suc max_retries) 1 (error none false) low (omega arith) before now

-- If each of the first `max_retries + 1` attempts fails with an error worth another attempt, the
-- result is the error of the last of them.
pub complete-exhausted :
    (replies : ℕ → Reply) (max_retries : ℕ)
    → ((i : ℕ) → 1 ≤ i → i ≤ suc max_retries → wants_retry (judge i (replies i)) ≡ true)
    → complete max_retries replies ≡ judge (suc max_retries) (replies (suc max_retries))
unfolding complete
complete-exhausted replies max_retries all =
    attempt_from-exhausted replies (suc max_retries) max_retries 1 (error none false) (omega arith)
      all
