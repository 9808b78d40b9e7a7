-- ===== src/Jsonl/Validate.antt =====
-- What `validate_file` at upload says of the run: the items that `iter_lines` yields to the runner.
use mathlib.Core.Path.{subst₂}
use batch_inference_console.Prelude.{
  ℕ, suc, ◌+◌, ◌≤◌, Bool, true, false, ◌≢◌, ◌≡◌, refl, ap, sym, ◌∙◌, Option, none, List, [], ◌∷◌,
  ◌++◌, Text, strip, is_empty, ltb, length, arith, Bool-cases, inl, inr,
}
use batch_inference_console.Jsonl.Files.{Codec, iter_items, validate_file}
use batch_inference_console.Jsonl.Parse.{
  Libraries, ParsedItem, JsonlError, Fault, Outcome, done, fault, normalize_line, iter_from,
  iter_lines, yield_item, FileError, too_many, flag_empty, add_error, add_preview, scan_lines,
  validate_lines, ValidationResult,
}

add_error-empty :
    (r : Outcome ParsedItem) (n : ℕ) (e : List FileError) → add_error r n e ≡ [] → e ≡ []
add_error-empty (done item) n e h = h
add_error-empty (fault f) n [] h = refl
add_error-empty (fault f) n (x ∷ e) h = ground arith

add_error-fault : (f : Fault) (n : ℕ) (e : List FileError) → add_error (fault f) n e ≢ []
add_error-fault f n [] h = cc
add_error-fault f n (x ∷ e) h = ground arith

snoc-nonempty : (e : List FileError) (x : FileError) → e ++ x ∷ [] ≢ []
snoc-nonempty [] x h = cc
snoc-nonempty (y ∷ e) x h = cc

-- What a clean result says of the items that are yielded from a line on.
record IsClean (total bound : ℕ) (items : List ParsedItem × Option JsonlError)
    (r : ValidationResult) : Type 0 where
  no_raise : items.1 ≡ none
  counted : r.total ≡ total + length items.0
  bounded : r.total ≤ bound

yield-IsClean :
    (read : Outcome ParsedItem) (total bound : ℕ) (errors : List FileError)
    (rest : List ParsedItem × Option JsonlError) (r : ValidationResult)
    → add_error read total errors ≡ []
    → IsClean (suc total) bound rest r
    → IsClean total bound (yield_item read total rest) r
yield-IsClean (done item) total bound errors rest r h c = record {
  no_raise = c.no_raise;
  counted = c.counted ∙ omega arith;
  bounded = c.bounded;
}
yield-IsClean (fault f) total bound errors rest r h c = elim (add_error-fault f total errors h) [ ]

pick-true {ℓ} : {A : Type ℓ} (b : Bool) (x y : A) → b ≡ true → (elim b [ true ↦ x | false ↦ y ]) ≡ x
pick-true true x y h = refl
pick-true false x y h = cc

pick-false {ℓ} :
    {A : Type ℓ} (b : Bool) (x y : A) → b ≡ false → (elim b [ true ↦ x | false ↦ y ]) ≡ y
pick-false true x y h = cc
pick-false false x y h = refl

module _ (lib : Libraries) (max_items preview_size : ℕ) where
  abbrev scan : ℕ → List FileError → List ParsedItem → List Text → ValidationResult
  scan = scan_lines lib max_items preview_size

  abbrev read_at : Text → ℕ → Outcome ParsedItem
  read_at raw total = normalize_line lib (strip raw) total

  scan-skip :
      (total : ℕ) (errors : List FileError) (preview : List ParsedItem) (raw : Text)
      (lines : List Text)
      → is_empty (strip raw) ≡ true
      → scan total errors preview (raw ∷ lines) ≡ scan total errors preview lines
  unfolding scan_lines
  scan-skip total errors preview raw lines h = pick-true (is_empty (strip raw)) _ _ h

  scan-stop :
      (total : ℕ) (errors : List FileError) (preview : List ParsedItem) (raw : Text)
      (lines : List Text)
      → is_empty (strip raw) ≡ false
      → ltb max_items (suc total) ≡ true
      → (scan total errors preview (raw ∷ lines)).errors
        ≡ add_error (read_at raw total) total errors ++ too_many max_items ∷ []
  unfolding scan_lines
  scan-stop total errors preview raw lines h k =
      ap (λ (r : ValidationResult). r.errors)
        (pick-false (is_empty (strip raw)) _ _ h ∙ pick-true (ltb max_items (suc total)) _ _ k)

  scan-next :
      (total : ℕ) (errors : List FileError) (preview : List ParsedItem) (raw : Text)
      (lines : List Text)
      → is_empty (strip raw) ≡ false
      → ltb max_items (suc total) ≡ false
      → scan total errors preview (raw ∷ lines)
        ≡ scan
            (suc total)
            (add_error (read_at raw total) total errors)
            (add_preview (read_at raw total) preview_size preview)
            lines
  unfolding scan_lines
  scan-next total errors preview raw lines h k =
      pick-false (is_empty (strip raw)) _ _ h ∙ pick-false (ltb max_items (suc total)) _ _ k

  iter-skip :
      (total : ℕ) (raw : Text) (lines : List Text)
      → is_empty (strip raw) ≡ true
      → iter_from lib total (raw ∷ lines) ≡ iter_from lib total lines
  unfolding iter_from
  iter-skip total raw lines h = pick-true (is_empty (strip raw)) _ _ h

  iter-next :
      (total : ℕ) (raw : Text) (lines : List Text)
      → is_empty (strip raw) ≡ false
      → iter_from lib total (raw ∷ lines)
        ≡ yield_item (read_at raw total) total (iter_from lib (suc total) lines)
  unfolding iter_from
  iter-next total raw lines h = pick-false (is_empty (strip raw)) _ _ h

  scan-errors :
      (total : ℕ) (errors : List FileError) (preview : List ParsedItem) (lines : List Text)
      → (scan total errors preview lines).errors ≡ []
      → errors ≡ []
  unfolding scan_lines
  scan-errors total errors preview [] h = h
  scan-errors total errors preview (raw ∷ lines) h = elim (Bool-cases (is_empty (strip raw))) [
    | inl e ↦
        scan-errors total errors preview lines
          (sym (ap (λ r. r.errors) (scan-skip total errors preview raw lines e)) ∙ h)
    | inr e ↦ elim (Bool-cases (ltb max_items (suc total))) [
      | inl k ↦
          elim (snoc-nonempty _ _ (sym (scan-stop total errors preview raw lines e k) ∙ h)) [ ]
      | inr k ↦ add_error-empty (read_at raw total) total errors (
          scan-errors (suc total) (add_error (read_at raw total) total errors)
            (add_preview (read_at raw total) preview_size preview) lines
            (sym (ap (λ r. r.errors) (scan-next total errors preview raw lines e k)) ∙ h))
    ]
  ]

  scan-IsClean :
      (total : ℕ) (errors : List FileError) (preview : List ParsedItem) (lines : List Text)
      → total ≤ max_items
      → (scan total errors preview lines).errors ≡ []
      → IsClean total max_items (iter_from lib total lines) (scan total errors preview lines)
  unfolding scan_lines iter_from
  scan-IsClean total errors preview [] le h = record {
    no_raise = refl;
    counted = omega arith;
    bounded = le;
  }
  scan-IsClean total errors preview (raw ∷ lines) le h = elim (Bool-cases (is_empty (strip raw))) [
    | inl e ↦
        subst₂ (IsClean total max_items) (sym (iter-skip total raw lines e))
          (sym (scan-skip total errors preview raw lines e))
          (scan-IsClean total errors preview lines le
            (sym (ap (λ r. r.errors) (scan-skip total errors preview raw lines e)) ∙ h))
    | inr e ↦ elim (Bool-cases (ltb max_items (suc total))) [
      | inl k ↦
          elim (snoc-nonempty _ _ (sym (scan-stop total errors preview raw lines e k) ∙ h)) [ ]
      | inr k ↦
          (let g = sym (ap (λ r. r.errors) (scan-next total errors preview raw lines e k)) ∙ h in
            subst₂ (IsClean total max_items) (sym (iter-next total raw lines e))
              (sym (scan-next total errors preview raw lines e k))
              (yield-IsClean (read_at raw total) total max_items errors _ _
                (scan-errors (suc total) _ _ lines g)
                (scan-IsClean (suc total) (add_error (read_at raw total) total errors)
                  (add_preview (read_at raw total) preview_size preview) lines (ground arith) g)))
    ]
  ]

-- The reader raises nothing, and its items are as many as the check says, at least one and no more than
-- the bound.
abbrev pub IsReadable : {E : Type 0} → ℕ → List ParsedItem × Option E → ValidationResult → Type 0
IsReadable bound read r =
    (read.1 ≡ none) × (r.total ≡ length read.0) × (1 ≤ r.total) × (r.total ≤ bound)

-- `flag_empty` adds an error to a file without items, so a result without errors has one.
flag_empty-clean :
    (r : ValidationResult) → (flag_empty r).errors ≡ [] → (r.errors ≡ []) × (1 ≤ r.total)
flag_empty-clean r h = ground arith

-- Lines without errors are all read, and give as many items as `total` says.
validate_lines-IsReadable :
    (lib : Libraries) (max_items preview_size : ℕ) (lines : List Text)
    → (validate_lines lib max_items preview_size lines).errors ≡ []
    → IsReadable max_items (iter_lines lib lines) (validate_lines lib max_items preview_size lines)
unfolding validate_lines iter_lines
validate_lines-IsReadable lib max_items preview_size lines h =
    let (clean, some_item) =
      flag_empty-clean (scan_lines lib max_items preview_size 0 [] [] lines) h in
    let c = scan-IsClean lib max_items preview_size 0 [] [] lines (omega arith) clean in
    (c.no_raise, c.counted ∙ omega arith, some_item, c.bounded)

-- A file that can be decoded as UTF-8 and in which the check at upload finds no error is read to its end
-- by the runner, which gets as many items as `total` says, at least one and at most `max_items`.
pub validate_file-IsReadable :
    (codec : Codec) (lib : Libraries) (max_items preview_size : ℕ) (f : codec.File)
    → (codec.strict f).1 ≡ false
    → (validate_file codec lib max_items preview_size f).errors ≡ []
    → IsReadable max_items
        (iter_items codec lib f)
        (validate_file codec lib max_items preview_size f)
unfolding validate_file iter_items
validate_file-IsReadable codec lib max_items preview_size f decodes h =
    let same = codec.replaced-strict f decodes in
    let (no_raise, counted, some_item, bounded) =
      validate_lines-IsReadable lib max_items preview_size (codec.strict f).0
        (sym (ap (λ ls. (validate_lines lib max_items preview_size ls).errors) same) ∙ h) in
    let kept = ap (λ ls. (validate_lines lib max_items preview_size ls).total) same in
    (
      rw (no_raise, decodes),
      kept ∙ counted,
      omega (arith, kept, some_item),
      omega (arith, kept, bounded),
    )
