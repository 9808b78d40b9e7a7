-- ===== src/Billing/Outcome.antt =====
-- `post_billing`, `build_payload`, `describe` and `_backoff` of backend/app/services/billing.py: how
-- a reply of the gateway is read.
use batch_inference_console.Prelude.{
  ℕ, suc, ◌-◌, ◌*◌, ◌^◌, ◌<◌, ◌≡◌, refl, Bool, true, false, not, ◌&&◌, ◌||◌, Option, none, some, [],
  ◌∷◌, ◌++◌, Text, codes, text_eq, take, is_empty, leb, ltb, ◌==◌, if◌then◌else◌, min, arith, ◌↔◌,
}
use batch_inference_console.Prelude.Int.{pos, negsuc}
use batch_inference_console.Json.{
  Json, null, bool, int, float, str, arr, obj, Fields, end, get, put, fields_of, json_or,
}
use batch_inference_console.Billing.RequestId.{decimal}
use batch_inference_console.Models.{BillingRecord}

-- What the HTTP client answers: an exception with its text, or a status with the text of the body
-- and what `resp.json()` makes of it (`none` where it raises).
pub data Reply : Type 0 where
  no_connection : Text → Reply
  response : ℕ → Text → Option Json → Reply

pub record Outcome : Type 0 where
  pub ok : Bool
  pub retriable : Bool
  pub code : Option Text
  pub message : Option Text
  pub reply : Fields

pub is_retriable_code : Text → Bool
is_retriable_code code =
    text_eq code (codes "request_in_progress") || text_eq code (codes "internal_error")

abbrev pub is_soft_status : ℕ → Bool
is_soft_status status = leb 500 status || (status == 429)

-- `code not in (None, "", False, True)`: 0 and 1 are equal to the Booleans.
abbrev pub has_code : Json → Bool
has_code null = false
has_code (bool b) = false
has_code (int (pos n)) = not (n == 0) && not (n == 1)
has_code (float (pos m) e) = not (m == 0) && not (m == 10 ^ e)
has_code (str s) = not (is_empty s)
has_code _ = true

-- `str(value)`, with Python's text of a fraction, a list or a dict as a parameter
abbrev pub text_of_json : (Json → Text) → Json → Text
text_of_json repr null = codes "None"
text_of_json repr (bool true) = codes "True"
text_of_json repr (bool false) = codes "False"
text_of_json repr (int (pos n)) = decimal n
text_of_json repr (int (negsuc n)) = b'-' ∷ decimal (suc n)
text_of_json repr (str s) = s
text_of_json repr v = repr v

abbrev pub some_text : Text → Option Text
some_text [] = none
some_text (c ∷ s) = some (c ∷ s)

abbrev pub is_true : Json → Bool
is_true (bool b) = b
is_true _ = false

http_code : ℕ → Text
http_code status = codes "http_" ++ decimal status

module _ (repr : Json → Text) where
  -- A reply whose body is a JSON object.
  unfoldable pub read_body : ℕ → Fields → Outcome
  unfolding http_code is_retriable_code
  read_body status body =
      let code =
        if has_code (get "code" body)
        then text_of_json repr (get "code" body)
        else http_code status in
      if ltb status 300 && is_true (get "success" body)
      then record {
        ok = true;
        retriable = false;
        code = none;
        message = none;
        reply = fields_of (get "data" body);
      }
      else record {
        ok = false;
        retriable = is_retriable_code code || is_soft_status status;
        code = some code;
        message = some_text (take 500 (text_of_json repr (json_or (get "message" body) (str []))));
        reply = end;
      }

  unfoldable pub post_billing : Reply → Outcome
  unfolding read_body http_code
  post_billing (no_connection exc) = record {
    ok = false;
    retriable = true;
    code = some (codes "network");
    message = some (codes "无法连接计费接口：" ++ exc);
    reply = end;
  }
  post_billing (response status text (some (obj body))) = read_body status body
  post_billing (response status text body) = record {
    ok = false;
    retriable = is_soft_status status;
    code = some (http_code status);
    message = some (codes "计费接口返回 HTTP " ++ (decimal status ++ (codes "：" ++ take 200 text)));
    reply = end;
  }

abbrev pub put_number : ℕ → Json
put_number n = int (pos n)

abbrev add_note : Option Text → Fields → Fields
add_note none payload = payload
add_note (some []) payload = payload
add_note (some (c ∷ s)) payload = put "note" (str (c ∷ s)) payload

unfoldable pub build_payload : BillingRecord → Text → Fields
build_payload r key =
    let base = put "completion_tokens" (put_number r.completion_tokens) (
      put "prompt_tokens" (put_number r.prompt_tokens) (
        put "model_name" (str r.model_name)
          (put "request_id" (str r.request_id) (put "key" (str key) end)))) in
    add_note r.note
      (if r.cached_tokens == 0 then base else put "cached_tokens" (put_number r.cached_tokens) base)

abbrev pub max_backoff_seconds : ℕ
max_backoff_seconds = 600

-- `min(10 * 2 ** max(0, attempts - 1), MAX_BACKOFF_SECONDS)`
unfoldable pub backoff : ℕ → ℕ
backoff attempts = min (10 * 2 ^ (attempts - 1)) max_backoff_seconds

-- A reply that says that the charge went through.
abbrev pub IsPaid : Reply → Type 0
IsPaid (no_connection exc) = ⊥
IsPaid (response status text none) = ⊥
IsPaid (response status text (some (obj body))) = (status < 300) × (get "success" body ≡ bool true)
IsPaid (response status text (some v)) = ⊥

is_true-bool : (v : Json) → is_true v ≡ true → v ≡ bool true
is_true-bool (bool true) h = refl
is_true-bool (bool false) h = cc
is_true-bool null h = cc
is_true-bool (int n) h = cc
is_true-bool (float m e) h = cc
is_true-bool (str s) h = cc
is_true-bool (arr xs) h = cc
is_true-bool (obj fs) h = cc

-- Only a 2xx reply whose body is a JSON object that says `success: true` counts as paid.
pub post_billing-IsPaid :
    (repr : Json → Text) (r : Reply) → ((post_billing repr r).ok ≡ true) ↔ IsPaid r
unfolding post_billing
post_billing-IsPaid repr (no_connection exc) = (λ h. cc, λ h. absurd h)
post_billing-IsPaid repr (response status text none) = (λ h. cc, λ h. absurd h)
post_billing-IsPaid repr (response status text (some (obj body))) =
    (λ h. (ground arith, ground (arith, is_true-bool (get "success" body))), λ h. ground arith)
post_billing-IsPaid repr (response status text (some null)) = (λ h. cc, λ h. absurd h)
post_billing-IsPaid repr (response status text (some (bool b))) = (λ h. cc, λ h. absurd h)
post_billing-IsPaid repr (response status text (some (int n))) = (λ h. cc, λ h. absurd h)
post_billing-IsPaid repr (response status text (some (float m e))) = (λ h. cc, λ h. absurd h)
post_billing-IsPaid repr (response status text (some (str s))) = (λ h. cc, λ h. absurd h)
post_billing-IsPaid repr (response status text (some (arr xs))) = (λ h. cc, λ h. absurd h)
