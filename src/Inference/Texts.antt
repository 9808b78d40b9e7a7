-- ===== src/Inference/Texts.antt =====
-- `extract_output_text` and `estimate_tokens` of backend/app/services/inference.py. `none` stands for an
-- exception: a method, an index or a length that a value does not have.
use batch_inference_console.Prelude.{
  ℕ, suc, ◌+◌, ◌/◌, Option, none, some, [], ◌++◌, Text, length, max, if◌then◌else◌,
}
use batch_inference_console.Json.{
  Json, Items, Fields, str, arr, obj, nil, cons, end, field, get, has_key, json_or, as_fields,
}

module _ {A : Type 0} where
  abbrev pub both : (A → A → A) → Option A → Option A → Option A
  both f (some a) (some b) = some (f a b)
  both f _ _ = none

abbrev pub as_text : Json → Option Text
as_text (str t) = some t
as_text _ = none

-- `p.get("text", "")`
abbrev pub text_value : Fields → Json
text_value p = if has_key "text" p then get "text" p else str []

-- `"".join(p.get("text", "") for p in content if isinstance(p, dict))`
unfoldable pub joined : Items → Option Text
joined nil = some []
joined (cons (obj p) items) = both (λ s t. s ++ t) (as_text (text_value p)) (joined items)
joined (cons _ items) = joined items

abbrev pub content_text : Fields → Json → Option Json
unfolding joined
content_text choice (str t) = some (str t)
content_text choice (arr items) = elim (joined items) [ none ↦ none | some t ↦ some (str t) ]
content_text choice _ = some (json_or (get "text" choice) (str []))

abbrev pub message_text : Fields → Option Fields → Option Json
message_text choice none = none
message_text choice (some message) = content_text choice (get "content" message)

-- `choices[0]` of what `or []` leaves; a dict has no key 0, and a number or `True` no index.
abbrev pub choice_text : Json → Option Json
choice_text (arr (cons (obj choice) choices)) =
    message_text choice (as_fields (json_or (get "message" choice) (obj end)))
choice_text (arr _) = some (str [])
choice_text (str s) = some (str [])
choice_text _ = none

unfoldable pub extract_output_text : Fields → Option Json
unfolding joined
extract_output_text response = choice_text (json_or (get "choices" response) (arr nil))

abbrev pub count_items : Items → ℕ
count_items nil = 0
count_items (cons x xs) = suc (count_items xs)

abbrev pub count_fields : Fields → ℕ
count_fields end = 0
count_fields (field k v fs) = suc (count_fields fs)

-- `len`
abbrev pub len : Json → Option ℕ
len (str t) = some (length t)
len (arr items) = some (count_items items)
len (obj fs) = some (count_fields fs)
len _ = none

unfoldable pub parts_length : Items → Option ℕ
parts_length nil = some 0
parts_length (cons (obj p) items) = both (λ a b. a + b) (len (text_value p)) (parts_length items)
parts_length (cons _ items) = parts_length items

abbrev pub content_length : Json → Option ℕ
content_length (str t) = some (length t)
content_length (arr items) = parts_length items
content_length _ = some 0

-- The loop over `body.get("messages") or []`
unfoldable pub chars_of : Items → Option ℕ
unfolding parts_length
chars_of nil = some 0
chars_of (cons (obj m) items) =
    both (λ a b. a + b) (content_length (get "content" m)) (chars_of items)
chars_of (cons _ items) = none

abbrev pub message_chars : Json → Option ℕ
message_chars (arr items) = chars_of items
message_chars _ = none

unfoldable pub estimate_tokens : Fields → Option ℕ
unfolding chars_of
estimate_tokens body = elim (message_chars (json_or (get "messages" body) (arr nil))) [
  | none ↦ none
  | some chars ↦ some (max 1 (chars / 4))
]
