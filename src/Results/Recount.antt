-- ===== src/Results/Recount.antt =====
-- What a rescan of the result files finds (`scan_resume_state` of backend/app/services/results.py),
-- against what the run counted in memory (`_bump` of backend/app/worker/runner.py).
use batch_inference_console.Prelude.{
  ℕ, suc, ◌==◌, ◌≡◌, refl, ap, ◌∙◌, Bool, true, false, ◌||◌, Option, some, List, [], ◌∷◌, map, elem,
  arith, Text,
}
use batch_inference_console.Prelude.Int.{pos, ◌+ℤ◌}
use batch_inference_console.Json.{Json, Fields, obj, end}
use batch_inference_console.Inference.Retry.{Completion}
use batch_inference_console.Results.Writer.{
  Write, success, failure, successes, failures, success_line, failure_line,
}
use batch_inference_console.Results.Resume.{
  Line, value, Hashed, number, is_in, hash_eq, ResumeState, tokens_of_line, add_failure, count_line,
  scan_line, scan_file,
}
use batch_inference_console.Runner.Counters.{Counters, bump, index_of}
use batch_inference_console.Results.Reported.{tokens_of, IsCounted}

-- The index of a line as a set holds it.
abbrev pub key : ℕ → Hashed
key i = number (pos i) 0

abbrev pub indices : List Write → List ℕ
indices [] = []
indices (x ∷ xs) = index_of x ∷ indices xs

abbrev pub IsDistinct : List ℕ → Type 0
IsDistinct [] = Unit
IsDistinct (i ∷ is) = (elem i is ≡ false) × IsDistinct is

-- Every result that was written has the tokens that its response reports.
abbrev pub AllCounted : List Write → Type 0
AllCounted [] = Unit
AllCounted (success i custom_id c latency_ms ∷ xs) = IsCounted c × AllCounted xs
AllCounted (failure i custom_id message status_code attempts ∷ xs) = AllCounted xs

abbrev line_fields : Json → Fields
line_fields (obj fs) = fs
line_fields _ = end

hash_eq-key : (i j : ℕ) → hash_eq (key i) (key j) ≡ (i == j)
hash_eq-key i j = ground arith

tokens-success_line :
    (i : ℕ) (custom_id : Text) (c : Completion) (latency_ms : ℕ)
    → IsCounted c
    → tokens_of_line (line_fields (success_line i custom_id c latency_ms)) ≡ some (tokens_of c)
unfolding tokens_of_line
tokens-success_line i custom_id c latency_ms h = h

-- After the scan of the lines of some writes: the indices that it knows, and its counts.
pub record IsTally (known : ℕ → Bool) (c : Counters) (st : ResumeState) : Type 0 where
  pub knows : (i : ℕ) → is_in (key i) st.done_indices ≡ known i
  pub same_completed : st.completed ≡ c.completed
  pub same_failed : st.failed ≡ c.failed
  pub same_prompt : st.prompt_tokens ≡ c.prompt_tokens
  pub same_completion : st.completion_tokens ≡ c.completion_tokens
  pub same_cached : st.cached_tokens ≡ c.cached_tokens

scan-success :
    (known : ℕ → Bool) (count : Counters) (st : ResumeState) (i : ℕ) (custom_id : Text)
    (c : Completion) (latency_ms : ℕ)
    → IsTally known count st
    → known i ≡ false
    → IsCounted c
    → (st' : ResumeState) × (scan_line false (value (success_line i custom_id c latency_ms)) st
        ≡ some st')
      × IsTally (λ j. (j == i) || known j) (bump count (success i custom_id c latency_ms)) st'
unfolding scan_line count_line bump
scan-success known count st i custom_id c latency_ms t new h = (
  record st {
    done_indices = key i ∷ st.done_indices;
    completed = suc st.completed;
    prompt_tokens = st.prompt_tokens +ℤ c.prompt_tokens;
    completion_tokens = st.completion_tokens +ℤ c.completion_tokens;
    cached_tokens = st.cached_tokens +ℤ c.cached_tokens;
  },
  rw (t.knows i ∙ new, h),
  record {
    knows = λ j. ground (arith, t.knows j);
    same_completed = ap suc t.same_completed;
    same_failed = t.same_failed;
    same_prompt = ap (λ n. n +ℤ c.prompt_tokens) t.same_prompt;
    same_completion = ap (λ n. n +ℤ c.completion_tokens) t.same_completion;
    same_cached = ap (λ n. n +ℤ c.cached_tokens) t.same_cached;
  },
)

scan-failure :
    (known : ℕ → Bool) (count : Counters) (st : ResumeState) (i : ℕ) (custom_id message : Text)
    (status_code : Option ℕ) (attempts : ℕ)
    → IsTally known count st
    → known i ≡ false
    → (st' : ResumeState) × (scan_line true
          (value (failure_line i custom_id message status_code attempts))
          st
        ≡ some st')
      × IsTally
          (λ j. (j == i) || known j)
          (bump count (failure i custom_id message status_code attempts))
          st'
unfolding scan_line count_line bump
scan-failure known count st i custom_id message status_code attempts t new = (
  add_failure (key i) st,
  rw (t.knows i ∙ new),
  record {
    knows = λ j. ground (arith, t.knows j);
    same_completed = t.same_completed;
    same_failed = ap suc t.same_failed;
    same_prompt = t.same_prompt;
    same_completion = t.same_completion;
    same_cached = t.same_cached;
  },
)

-- The successes, then the failures, of some writes: what is known and counted after them.
abbrev pub known_ok : List Write → (ℕ → Bool) → ℕ → Bool
known_ok [] known = known
known_ok (success i u c l ∷ xs) known = known_ok xs (λ j. (j == i) || known j)
known_ok (failure i u m s a ∷ xs) known = known_ok xs known

abbrev pub known_bad : List Write → (ℕ → Bool) → ℕ → Bool
known_bad [] known = known
known_bad (success i u c l ∷ xs) known = known_bad xs known
known_bad (failure i u m s a ∷ xs) known = known_bad xs (λ j. (j == i) || known j)

unfoldable pub count_ok : Counters → List Write → Counters
count_ok c [] = c
count_ok c (success i u r l ∷ xs) = count_ok (bump c (success i u r l)) xs
count_ok c (failure i u m s a ∷ xs) = count_ok c xs

unfoldable pub count_bad : Counters → List Write → Counters
count_bad c [] = c
count_bad c (success i u r l ∷ xs) = count_bad c xs
count_bad c (failure i u m s a ∷ xs) = count_bad (bump c (failure i u m s a)) xs

abbrev pub FreshOk : List Write → (ℕ → Bool) → Type 0
FreshOk [] known = Unit
FreshOk (success i u c l ∷ xs) known = (known i ≡ false) × FreshOk xs (λ j. (j == i) || known j)
FreshOk (failure i u m s a ∷ xs) known = FreshOk xs known

abbrev pub FreshBad : List Write → (ℕ → Bool) → Type 0
FreshBad [] known = Unit
FreshBad (success i u c l ∷ xs) known = FreshBad xs known
FreshBad (failure i u m s a ∷ xs) known = (known i ≡ false) × FreshBad xs (λ j. (j == i) || known j)

abbrev pub lines : List Json → List Line
lines xs = map value xs

pub scan-successes :
    (xs : List Write) (known : ℕ → Bool) (count : Counters) (st : ResumeState)
    → IsTally known count st
    → FreshOk xs known
    → AllCounted xs
    → (st' : ResumeState) × (scan_file false (lines (successes xs)) (some st) ≡ some st')
      × IsTally (known_ok xs known) (count_ok count xs) st'
unfolding scan_file count_ok
scan-successes [] known count st t f a = (st, refl, t)
scan-successes (success i u c l ∷ xs) known count st t f a =
    let (st', e, t') = scan-success known count st i u c l t f.0 a.0 in
    let (end_, e', t'') = scan-successes xs _ _ st' t' f.1 a.1 in
    (end_, ap (scan_file false (lines (successes xs))) e ∙ e', t'')
scan-successes (failure i u m s b ∷ xs) known count st t f a =
    scan-successes xs known count st t f a

pub scan-failures :
    (xs : List Write) (known : ℕ → Bool) (count : Counters) (st : ResumeState)
    → IsTally known count st
    → FreshBad xs known
    → (st' : ResumeState) × (scan_file true (lines (failures xs)) (some st) ≡ some st')
      × IsTally (known_bad xs known) (count_bad count xs) st'
unfolding scan_file count_bad
scan-failures [] known count st t f = (st, refl, t)
scan-failures (success i u c l ∷ xs) known count st t f = scan-failures xs known count st t f
scan-failures (failure i u m s b ∷ xs) known count st t f =
    let (st', e, t') = scan-failure known count st i u m s b t f.0 in
    let (end_, e', t'') = scan-failures xs _ _ st' t' f.1 in
    (end_, ap (scan_file true (lines (failures xs))) e ∙ e', t'')
