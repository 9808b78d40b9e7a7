-- ===== src/Results/Resume.antt =====
-- `scan_resume_state` of backend/app/services/results.py. A line of a file is blank, broken, or what
-- `json.loads` makes of it. A result of `none` stands for the exception that the scan lets through.
use batch_inference_console.Prelude.{
  ℕ, suc, ◌*◌, ◌^◌, ◌==◌, Bool, true, false, ◌||◌, Option, none, some, List, [], ◌∷◌, String,
  text_eq, if◌then◌else◌,
}
use batch_inference_console.Prelude.Int.{ℤ, pos, negsuc, ◌+ℤ◌}
use batch_inference_console.Json.{
  Json, Fields, null, bool, int, float, str, arr, obj, end, get, has_key, json_or, as_fields,
}
use batch_inference_console.Inference.Retry.{count_of, cached_tokens_of}

pub data Line : Type 0 where
  blank broken : Line
  value : Json → Line

-- A number as a mantissa over a power of ten; `True` and `False` are 1 and 0.
pub data Hashed : Type 0 where
  nothing : Hashed
  number : ℤ → ℕ → Hashed
  text : List ℕ → Hashed

-- What a set compares of a value; a list or a dict cannot be put into a set.
abbrev pub hash_of : Json → Option Hashed
hash_of null = some nothing
hash_of (bool true) = some (number (pos 1) 0)
hash_of (bool false) = some (number (pos 0) 0)
hash_of (int n) = some (number n 0)
hash_of (float m e) = some (number m e)
hash_of (str s) = some (text s)
hash_of (arr xs) = none
hash_of (obj fs) = none

abbrev pub number_eq : ℤ → ℕ → ℤ → ℕ → Bool
number_eq (pos m) d (pos n) e = m * 10 ^ e == n * 10 ^ d
number_eq (negsuc m) d (negsuc n) e = suc m * 10 ^ e == suc n * 10 ^ d
number_eq _ d _ e = false

abbrev pub hash_eq : Hashed → Hashed → Bool
hash_eq nothing nothing = true
hash_eq (number m d) (number n e) = number_eq m d n e
hash_eq (text s) (text t) = text_eq s t
hash_eq _ _ = false

abbrev pub is_in : Hashed → List Hashed → Bool
is_in h [] = false
is_in h (k ∷ ks) = hash_eq h k || is_in h ks

pub record ResumeState : Type 0 where
  pub done_indices : List Hashed
  pub completed : ℕ
  pub failed : ℕ
  pub prompt_tokens : ℤ
  pub completion_tokens : ℤ
  pub cached_tokens : ℤ

abbrev pub fresh_state : ResumeState
fresh_state = record {
  done_indices = [];
  completed = 0;
  failed = 0;
  prompt_tokens = pos 0;
  completion_tokens = pos 0;
  cached_tokens = pos 0;
}

-- `(fs.get(key) or {})`, where `.get` is called on it next
abbrev pub child : String → Fields → Option Fields
child key fs = as_fields (json_or (get key fs) (obj end))

-- The usage of a response: its prompt, completion and cached tokens.
pub record Tokens : Type 0 where
  pub prompt : ℤ
  pub completion : ℤ
  pub cached : ℤ

abbrev pub three : Option ℤ → Option ℤ → Option ℤ → Option Tokens
three (some p) (some c) (some h) = some record { prompt = p; completion = c; cached = h }
three _ _ _ = none

unfoldable pub tokens_of_usage : Option Fields → Option Tokens
unfolding cached_tokens_of
tokens_of_usage none = none
tokens_of_usage (some usage) =
    three (count_of (get "prompt_tokens" usage)) (count_of (get "completion_tokens" usage))
      (cached_tokens_of usage)

abbrev pub usage_of_body : Option Fields → Option Fields
usage_of_body none = none
usage_of_body (some body) = child "usage" body

abbrev pub body_of_response : Option Fields → Option Fields
body_of_response none = none
body_of_response (some response) = child "body" response

unfoldable pub tokens_of_line : Fields → Option Tokens
unfolding tokens_of_usage
tokens_of_line fs = tokens_of_usage (usage_of_body (body_of_response (child "response" fs)))

abbrev pub add_success : Hashed → Option Tokens → ResumeState → Option ResumeState
add_success h none st = none
add_success h (some t) st = some (record st {
  done_indices = h ∷ st.done_indices;
  completed = suc st.completed;
  prompt_tokens = st.prompt_tokens +ℤ t.prompt;
  completion_tokens = st.completion_tokens +ℤ t.completion;
  cached_tokens = st.cached_tokens +ℤ t.cached;
})

abbrev pub add_failure : Hashed → ResumeState → ResumeState
add_failure h st = record st { done_indices = h ∷ st.done_indices; failed = suc st.failed }

-- A line whose index is not known yet.
unfoldable pub count_line : Bool → Fields → Option Hashed → ResumeState → Option ResumeState
unfolding tokens_of_line
count_line is_error fs none st = none
count_line is_error fs (some h) st =
    if is_in h st.done_indices
    then some st
    else if is_error
    then some (add_failure h st)
    else add_success h (tokens_of_line fs) st

unfoldable pub scan_line : Bool → Line → ResumeState → Option ResumeState
unfolding count_line
scan_line is_error (value (obj fs)) st =
    if has_key "_index" fs then count_line is_error fs (hash_of (get "_index" fs)) st else some st
scan_line is_error _ st = some st

unfoldable pub scan_file : Bool → List Line → Option ResumeState → Option ResumeState
unfolding scan_line
scan_file is_error lines none = none
scan_file is_error [] (some st) = some st
scan_file is_error (line ∷ lines) (some st) = scan_file is_error lines (scan_line is_error line st)

-- A file that does not exist has no lines.
unfoldable pub scan_resume_state : List Line → List Line → Option ResumeState
unfolding scan_file
scan_resume_state output errors = scan_file true errors (scan_file false output (some fresh_state))
