-- ===== src/Jsonl/Parse.antt =====
-- `normalize_line`, `iter_items`, `validate_file` and `count_duplicate_custom_ids` of
-- backend/app/services/jsonl.py, on lines that are decoded already; Files has the readers of a file. An
-- error keeps its kind and its line, without the text around them.
use batch_inference_console.Prelude.{
  ℕ, ◌==◌, suc, Bool, true, false, not, ◌&&◌, ◌||◌, Option, none, some, List, [], ◌∷◌, ◌++◌, String,
  Text, codes, str_eq, is_empty, strip, ltb, length, if◌then◌else◌,
}
use batch_inference_console.Prelude.Int.{pos}
use batch_inference_console.Json.{
  Json, Items, Fields, int, str, arr, obj, nil, cons, end, field, get, has_key, put, keep, truthy,
}
use batch_inference_console.Inference.Params.{elem_str, elem_text}

-- `json.loads`, with `none` for a `JSONDecodeError`, and `str` on the values that it gives.
pub record Libraries : Type 0 where
  pub loads : Text → Option Json
  pub str_of : Json → Text

pub data Fault : Type 0 where
  not_json not_object prompt_not_text missing bad_messages bad_message : Fault

-- `JsonlError`
pub record JsonlError : Type 0 where
  pub line : ℕ
  pub kind : Fault

pub record ParsedItem : Type 0 where
  pub index : ℕ
  pub custom_id : Text
  pub body : Fields

pub data Outcome (A : Type 0) : Type 0 where
  done : A → Outcome A
  fault : Fault → Outcome A

abbrev pub is_envelope : String → Bool
is_envelope k = elem_str k ("custom_id" ∷ "id" ∷ "method" ∷ "url" ∷ [])

abbrev pub user_message : Text → Json
user_message prompt = obj (field "role" (str (codes "user")) (field "content" (str prompt) end))

abbrev pub prompt_body : Fields → Json → Outcome Fields
prompt_body fs (str prompt) = done (
    put "messages" (arr (cons (user_message prompt) nil))
      (keep (λ k. not (is_envelope k || str_eq k "prompt")) fs))
prompt_body fs _ = fault prompt_not_text

-- The three forms of a line.
unfoldable pub body_of : Fields → Json → Outcome Fields
body_of fs (obj body) = done body
body_of fs _ =
    if has_key "messages" fs
    then done (keep (λ k. not (is_envelope k)) fs)
    else if has_key "prompt" fs
    then prompt_body fs (get "prompt" fs)
    else fault missing

abbrev pub is_message : Json → Bool
is_message (obj m) = has_key "role" m && has_key "content" m
is_message _ = false

abbrev pub all_messages : Items → Bool
all_messages nil = true
all_messages (cons m ms) = is_message m && all_messages ms

-- The checks on `messages`.
abbrev pub check_messages : Fields → Json → Outcome Fields
check_messages body (arr (cons m ms)) =
    if all_messages (cons m ms) then done body else fault bad_message
check_messages body _ = fault bad_messages

abbrev pub checked : Outcome Fields → Outcome Fields
checked (done body) = check_messages body (get "messages" body)
checked (fault f) = fault f

abbrev pub with_id : ℕ → Text → Outcome Fields → Outcome ParsedItem
with_id index custom_id (done body) =
    done record { index = index; custom_id = custom_id; body = body }
with_id index custom_id (fault f) = fault f

abbrev pub yield_item :
    Outcome ParsedItem
    → ℕ
    → List ParsedItem × Option JsonlError
    → List ParsedItem × Option JsonlError
yield_item (done item) index rest = (item ∷ rest.0, rest.1)
yield_item (fault f) index rest = ([], some record { line = suc index; kind = f })

module _ (lib : Libraries) where
  abbrev pub custom_id_of : ℕ → Fields → Text
  custom_id_of index fs =
      if truthy (get "custom_id" fs)
      then lib.str_of (get "custom_id" fs)
      else if truthy (get "id" fs)
      then lib.str_of (get "id" fs)
      else codes "request-" ++ lib.str_of (int (pos (suc index)))

  abbrev pub normalize_value : Option Json → ℕ → Outcome ParsedItem
  unfolding body_of
  normalize_value none index = fault not_json
  normalize_value (some (obj fs)) index =
      with_id index (custom_id_of index fs) (checked (body_of fs (get "body" fs)))
  normalize_value (some _) index = fault not_object

  unfoldable pub normalize_line : Text → ℕ → Outcome ParsedItem
  unfolding body_of
  normalize_line raw index = normalize_value (lib.loads raw) index

  -- The items that are yielded before the end or before the error that is raised.
  unfoldable pub iter_from : ℕ → List Text → List ParsedItem × Option JsonlError
  unfolding normalize_line
  iter_from index [] = ([], none)
  iter_from index (raw ∷ lines) = elim (is_empty (strip raw)) [
    | true ↦ iter_from index lines
    | false ↦ yield_item (normalize_line (strip raw) index) index (iter_from (suc index) lines)
  ]

  unfoldable pub iter_lines : List Text → List ParsedItem × Option JsonlError
  unfolding iter_from
  iter_lines lines = iter_from 0 lines

-- `MAX_PREVIEW_ERRORS`
abbrev pub max_preview_errors : ℕ
max_preview_errors = 20

pub data FileError : Type 0 where
  bad_line : JsonlError → FileError
  too_many : ℕ → FileError
  no_lines : FileError

pub record ValidationResult : Type 0 where
  pub total : ℕ
  pub errors : List FileError
  pub preview : List ParsedItem

abbrev pub add_error : Outcome ParsedItem → ℕ → List FileError → List FileError
add_error (done item) index errors = errors
add_error (fault f) index errors =
    if ltb (length errors) max_preview_errors
    then errors ++ bad_line record { line = suc index; kind = f } ∷ []
    else errors

abbrev pub add_preview : Outcome ParsedItem → ℕ → List ParsedItem → List ParsedItem
add_preview (done item) size preview =
    if ltb (length preview) size then preview ++ item ∷ [] else preview
add_preview (fault f) size preview = preview

abbrev pub flag_empty : ValidationResult → ValidationResult
flag_empty r = record r { errors = if r.total == 0 then no_lines ∷ r.errors else r.errors }

module _ (lib : Libraries) (max_items preview_size : ℕ) where
  -- The loop of `validate_file`, which stops at the first line beyond `max_items`.
  unfoldable pub scan_lines : ℕ → List FileError → List ParsedItem → List Text → ValidationResult
  unfolding normalize_line
  scan_lines total errors preview [] = record { total = total; errors = errors; preview = preview }
  scan_lines total errors preview (raw ∷ lines) =
      let read = normalize_line lib (strip raw) total in
      elim (is_empty (strip raw)) [
        | true ↦ scan_lines total errors preview lines
        | false ↦ elim (ltb max_items (suc total)) [
          | true ↦ record {
            total = suc total;
            errors = add_error read total errors ++ too_many max_items ∷ [];
            preview = add_preview read preview_size preview;
          }
          | false ↦
              scan_lines (suc total) (add_error read total errors)
                (add_preview read preview_size preview) lines
        ]
      ]

  unfoldable pub validate_lines : List Text → ValidationResult
  unfolding scan_lines
  validate_lines lines = flag_empty (scan_lines 0 [] [] lines)

-- The loop of `count_duplicate_custom_ids`
unfoldable pub duplicates_from : ℕ → List Text → List Text → List ParsedItem → List Text
duplicates_from limit seen dupes [] = dupes
duplicates_from limit seen dupes (item ∷ items) = elim (elem_text item.custom_id seen) [
  | true ↦
      duplicates_from limit seen
        (if ltb (length dupes) limit then dupes ++ item.custom_id ∷ [] else dupes) items
  | false ↦ duplicates_from limit (item.custom_id ∷ seen) dupes items
]
