-- ===== src/Results/Pages.antt =====
-- The readers of the result files of backend/app/services/results.py: `read_page` and the exports. A
-- result of `none` stands for the exception that a line which is no record raises.
use batch_inference_console.Prelude.{
  ℕ, suc, Bool, ◌||◌, Option, none, some, List, [], ◌∷◌, ◌++◌, length, ltb, leb, if◌then◌else◌,
}
use batch_inference_console.Json.{Json, Fields, null, obj, end, get, json_or, as_fields, truthy}
use batch_inference_console.Inference.Texts.{extract_output_text}
use batch_inference_console.Results.Resume.{Line, value, child, body_of_response}

pub record Row : Type 0 where
  pub index : Json
  pub custom_id : Json
  pub output : Json
  pub error : Json
  pub status_code : Json
  pub attempts : Json
  pub usage : Json

-- `(obj.get("response") or {}).get("body") or {}`
abbrev pub body_of_line : Fields → Option Fields
body_of_line fs = body_of_response (child "response" fs)

-- `extract_output_text(body) if body else None`
abbrev pub output_of : Fields → Option Json
output_of body = if truthy (obj body) then extract_output_text body else some null

abbrev pub row_with :
    Fields → Option Fields → Option Fields → Option Fields → Option Json → Option Row
row_with fs (some body) (some error) (some status) (some output) = some record {
  index = get "_index" fs;
  custom_id = get "custom_id" fs;
  output = output;
  error = get "message" error;
  status_code = get "status_code" status;
  attempts = get "attempts" fs;
  usage = get "usage" body;
}
row_with fs _ _ _ _ = none

abbrev pub output_if : Option Fields → Option Json
output_if none = none
output_if (some body) = output_of body

-- A row of a page
unfoldable pub row_of : Fields → Option Row
unfolding extract_output_text
row_of fs =
    row_with fs (body_of_line fs) (child "error" fs)
      (as_fields (json_or (json_or (get "response" fs) (get "error" fs)) (obj end)))
      (output_if (body_of_line fs))

abbrev pub add_row : List Row → Option Row → Option (List Row)
add_row rows none = none
add_row rows (some r) = some (rows ++ r ∷ [])

abbrev pub read_line : List Row → Line → Option (List Row)
read_line rows (value (obj fs)) = add_row rows (row_of fs)
read_line rows (value _) = none
read_line rows _ = some rows

-- The loop of `read_page`, at the i-th line, over the rows so far
unfoldable pub page_from : ℕ → ℕ → ℕ → List Row → List Line → Option (List Row)
unfolding row_of
page_from offset limit i rows [] = some rows
page_from offset limit i rows (line ∷ lines) =
    elim (if ltb i offset || leb limit (length rows) then some rows else read_line rows line) [
      | none ↦ none
      | some rows' ↦ page_from offset limit (suc i) rows' lines
    ]

-- `read_page`: the total and the rows
unfoldable pub read_page : List Line → ℕ → ℕ → Option (ℕ × List Row)
unfolding page_from
read_page lines offset limit = elim (page_from offset limit 0 [] lines) [
  | none ↦ none
  | some rows ↦ some (length lines, rows)
]

-- A line of the simple export
pub record Simple : Type 0 where
  pub custom_id : Json
  pub output : Json
  pub error : Json
  pub usage : Json

abbrev pub simple_with : Fields → Option Fields → Option Json → Option Json → Option Simple
simple_with fs (some body) (some error) (some output) = some record {
  custom_id = get "custom_id" fs;
  output = output;
  error = error;
  usage = get "usage" body;
}
simple_with fs _ _ _ = none

abbrev pub message_of : Option Fields → Option Json
message_of none = none
message_of (some error) = some (get "message" error)

-- `_simplify`
unfoldable pub simplify : Fields → Bool → Option Simple
unfolding extract_output_text
simplify fs is_error =
    simple_with fs (body_of_line fs)
      (if is_error || truthy (get "error" fs) then message_of (child "error" fs) else some null)
      (output_if (body_of_line fs))

-- `_safe_load`
abbrev pub safe_load : Line → Option Fields
safe_load (value (obj fs)) = some fs
safe_load _ = none

abbrev pub export_line : Bool → Option Fields → Option (List Simple) → Option (List Simple)
export_line is_error none rest = rest
export_line is_error (some fs) none = none
export_line is_error (some fs) (some rest) = elim (simplify fs is_error) [
  | none ↦ none
  | some s ↦ some (s ∷ rest)
]

-- `iter_export` of one file in the simple form, read to its end
unfoldable pub export_simple : Bool → List Line → Option (List Simple)
unfolding simplify
export_simple is_error [] = some []
export_simple is_error (line ∷ lines) =
    export_line is_error (safe_load line) (export_simple is_error lines)
