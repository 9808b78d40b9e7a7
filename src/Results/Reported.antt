-- ===== src/Results/Reported.antt =====
-- The tokens of a result are those that its response reports (`complete` of
-- backend/app/services/inference.py, as `scan_resume_state` of backend/app/services/results.py reads it).
use batch_inference_console.Prelude.{
  ℕ, suc, zero, ◌≡◌, refl, ap, ◌∙◌, Bool, true, false, Option, none, some, arith, if◌then◌else◌,
  ltb, subst,
}
use batch_inference_console.Prelude.Int.{ℤ}
use batch_inference_console.Json.{
  Json, as_fields, Fields, obj, end, get, json_or, null, bool, int, float, str, arr,
}
use batch_inference_console.Inference.Retry.{
  Completion, Result, Reply, finished, error, raised, timeout, network, response, completion,
  read_usage, read_response, judge, wants_retry, attempt_from, complete,
}
use batch_inference_console.Results.Resume.{Tokens, three, tokens_of_usage, usage_of_body}

abbrev pub tokens_of : Completion → Tokens
tokens_of c = record {
  prompt = c.prompt_tokens;
  completion = c.completion_tokens;
  cached = c.cached_tokens;
}

-- The tokens of a result are those that its response reports.
abbrev pub IsCounted : Completion → Type 0
IsCounted c =
    tokens_of_usage (usage_of_body (as_fields (json_or c.response (obj end)))) ≡ some (tokens_of c)

pub completion-eq-finished :
    (body : Json) (status attempt : ℕ) (p q h : Option ℤ) (c : Completion)
    → completion body status attempt p q h ≡ finished c
    → (c.response ≡ body) × (three p q h ≡ some (tokens_of c))
completion-eq-finished body s a (some p) (some q) (some h) c e = ground arith
completion-eq-finished body s a (some p) (some q) none c e = cc
completion-eq-finished body s a (some p) none h c e = cc
completion-eq-finished body s a none q h c e = cc

pub read_usage-eq-finished :
    (body : Json) (status attempt : ℕ) (u : Json) (c : Completion)
    → read_usage body status attempt u ≡ finished c
    → (c.response ≡ body) × (tokens_of_usage (as_fields u) ≡ some (tokens_of c))
unfolding read_usage tokens_of_usage
read_usage-eq-finished body s a (obj fs) c e = completion-eq-finished body s a _ _ _ c e
read_usage-eq-finished body s a null c e = cc
read_usage-eq-finished body s a (bool b) c e = cc
read_usage-eq-finished body s a (int n) c e = cc
read_usage-eq-finished body s a (float m d) c e = cc
read_usage-eq-finished body s a (str t) c e = cc
read_usage-eq-finished body s a (arr xs) c e = cc

pub same_fields : (fs : Fields) → as_fields (json_or (obj fs) (obj end)) ≡ some fs
same_fields end = refl
same_fields (Fields.field k v fs) = refl

pub read_response-IsCounted :
    (status attempt : ℕ) (body : Json) (c : Completion)
    → read_response status attempt body ≡ finished c
    → IsCounted c
unfolding read_response
read_response-IsCounted s a (obj fs) c e =
    let (same, counted) =
      read_usage-eq-finished (obj fs) s a (json_or (get "usage" fs) (obj end)) c e in
    ap (λ b. tokens_of_usage (usage_of_body (as_fields (json_or b (obj end))))) same
    ∙ ap (λ o. tokens_of_usage (usage_of_body o)) (same_fields fs)
    ∙ counted
read_response-IsCounted s a null c e = cc
read_response-IsCounted s a (bool b) c e = cc
read_response-IsCounted s a (int n) c e = cc
read_response-IsCounted s a (float m d) c e = cc
read_response-IsCounted s a (str t) c e = cc
read_response-IsCounted s a (arr xs) c e = cc

abbrev pub CountsRight : Result → Type 0
CountsRight (finished c) = IsCounted c
CountsRight (error status retriable) = Unit
CountsRight raised = Unit

pub counts_right : (r : Result) → ((c : Completion) → r ≡ finished c → IsCounted c) → CountsRight r
counts_right (finished c) h = h c refl
counts_right (error status retriable) h = tt
counts_right raised h = tt

pub on_both : (P : Result → Type 0) (b : Bool) (x y : Result) → P x → P y → P (if b then x else y)
on_both P true x y px py = px
on_both P false x y px py = py

pub judge-CountsRight : (attempt : ℕ) (reply : Reply) → CountsRight (judge attempt reply)
unfolding judge
judge-CountsRight attempt timeout = tt
judge-CountsRight attempt network = tt
judge-CountsRight attempt (response status none) = on_both CountsRight (ltb status 400) _ _ tt tt
judge-CountsRight attempt (response status (some body)) =
    on_both CountsRight (ltb status 400) _ _
      (counts_right (read_response status attempt body)
        (read_response-IsCounted status attempt body))
      tt

pub attempt_from-CountsRight :
    (replies : ℕ → Reply) (n attempt : ℕ) (last : Result)
    → CountsRight last
    → CountsRight (attempt_from replies n attempt last)
unfolding attempt_from
attempt_from-CountsRight replies zero attempt last h = h
attempt_from-CountsRight replies (suc n) attempt last h =
    let now = judge-CountsRight attempt (replies attempt) in
    on_both CountsRight (wants_retry (judge attempt (replies attempt))) _ _
      (attempt_from-CountsRight replies n (suc attempt) (judge attempt (replies attempt)) now) now

-- What `complete` returns has the tokens that its response reports.
pub complete-IsCounted :
    (replies : ℕ → Reply) (max_retries : ℕ) (c : Completion)
    → complete max_retries replies ≡ finished c
    → IsCounted c
unfolding complete
complete-IsCounted replies max_retries c e =
    subst CountsRight e (attempt_from-CountsRight replies (suc max_retries) 1 (error none false) tt)
