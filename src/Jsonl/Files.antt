-- ===== src/Jsonl/Files.antt =====
-- How `iter_items` and `validate_file` of backend/app/services/jsonl.py open a file: the first decodes it
-- strictly, the second with errors="replace".
use batch_inference_console.Prelude.{ℕ, Bool, true, false, ◌≡◌, Option, none, some, List, [], Text}
use batch_inference_console.Jsonl.Parse.{
  Libraries, ParsedItem, JsonlError, ValidationResult, iter_lines, validate_lines, duplicates_from,
}

-- `open` in text mode, as UTF-8.
pub record Codec : Type 1 where
  pub File : Type 0
  -- the lines that are read before the end or before a `UnicodeDecodeError`, and whether there is one
  pub strict : File → List Text × Bool
  -- the lines with errors="replace", which raises nothing
  pub replaced : File → List Text
  -- nothing is replaced in a file that can be decoded
  pub replaced-strict : (f : File) → (strict f).1 ≡ false → replaced f ≡ (strict f).0

-- What stops a reader.
pub data Failure : Type 0 where
  bad_line : JsonlError → Failure
  undecodable : Failure

abbrev pub failure_of : Option JsonlError → Bool → Option Failure
failure_of (some e) broken = some (bad_line e)
failure_of none true = some undecodable
failure_of none false = none

module _ (codec : Codec) (lib : Libraries) where
  -- The items that are yielded, and what is raised after them.
  unfoldable pub iter_items : codec.File → List ParsedItem × Option Failure
  unfolding iter_lines
  iter_items f =
      let (lines, broken) = codec.strict f in
      let (items, raised) = iter_lines lib lines in (items, failure_of raised broken)

  unfoldable pub validate_file : ℕ → ℕ → codec.File → ValidationResult
  unfolding validate_lines
  validate_file max_items preview_size f =
      validate_lines lib max_items preview_size (codec.replaced f)

  -- `none` where an error of `iter_items` passes through.
  unfoldable pub count_duplicate_custom_ids : ℕ → codec.File → Option (List Text)
  unfolding iter_items duplicates_from
  count_duplicate_custom_ids limit f =
      let (items, failure) = iter_items f in
      elim failure [ none ↦ some (duplicates_from limit [] [] items) | some e ↦ none ]
