-- ===== src/Results/Slices.antt =====
-- A page of results is a slice of them, and an export says what the page says (`read_page` and `_simplify`
-- of backend/app/services/results.py).
use batch_inference_console.Prelude.{
  ℕ, suc, zero, ◌-◌, ◌≤◌, ◌≡◌, refl, ap, sym, ◌∙◌, Bool, true, false, ◌||◌, Option, none, some,
  List, [], ◌∷◌, ◌++◌, map, length, length-append, take, drop, ltb, leb, if◌then◌else◌, Bool-cases,
  inl, inr, arith,
}
use mathlib.Core.List.{append-nil, append_assoc}
use batch_inference_console.Table.{option_map}
use batch_inference_console.Json.{Json, Fields, null, obj, end, get, as_fields, truthy}
use batch_inference_console.Results.Resume.{Line, value, child}
use batch_inference_console.Results.Pages.{
  Row, row_of, row_with, add_row, page_from, read_page, Simple, simplify, simple_with, message_of,
  body_of_line, output_if,
}

-- These records have these rows.
abbrev pub AreRows : List Fields → List Row → Type 0
AreRows [] [] = Unit
AreRows (fs ∷ fss) (r ∷ rs) = (row_of fs ≡ some r) × AreRows fss rs
AreRows _ _ = ⊥

abbrev pub records : List Fields → List Line
records fss = map (λ fs. value (obj fs)) fss

length-rows :
    (fss : List Fields) (rs : List Row) → AreRows fss rs → length (records fss) ≡ length rs
length-rows [] [] h = refl
length-rows (fs ∷ fss) (r ∷ rs) h = ap suc (length-rows fss rs h.1)
length-rows [] (r ∷ rs) h = absurd h
length-rows (fs ∷ fss) [] h = absurd h

-- What the loop adds: the slice that is left of the page.
abbrev rest_of : ℕ → ℕ → ℕ → List Row → List Row → List Row
rest_of offset limit i rows rs = take (limit - length rows) (drop (offset - i) rs)

take_none : (n : ℕ) (rs : List Row) → n ≡ 0 → take n rs ≡ []
take_none n rs e = ap (λ m. take m rs) e

skip_one : (n m : ℕ) (r : Row) (rs : List Row) → n ≡ suc m → drop n (r ∷ rs) ≡ drop m rs
skip_one n m r rs e = ap (λ k. drop k (r ∷ rs)) e

empty_slice : (n m : ℕ) → take {A = Row} n (drop m []) ≡ []
empty_slice zero zero = refl
empty_slice zero (suc m) = refl
empty_slice (suc n) zero = refl
empty_slice (suc n) (suc m) = refl

module _ {A : Type 0} where
  if_true : (b : Bool) (x y : A) → b ≡ true → (if b then x else y) ≡ x
  if_true b x y e = rw e

  if_false : (b : Bool) (x y : A) → b ≡ false → (if b then x else y) ≡ y
  if_false b x y e = rw e

minus_zero : (n : ℕ) → n - 0 ≡ n
minus_zero n = omega arith

late : (offset i : ℕ) → offset ≤ i → offset - suc i ≡ 0
late offset i h = omega (arith, h)

started : (offset i : ℕ) → offset ≤ i → offset - i ≡ 0
started offset i h = omega (arith, h)

room : (limit n : ℕ) → suc n ≤ limit → limit - n ≡ suc (limit - suc n)
room limit n h = omega (arith, h)

rest_skip :
    (offset limit i : ℕ) (rows : List Row) (r : Row) (rs : List Row)
    → ltb i offset || leb limit (length rows) ≡ true
    → rest_of offset limit (suc i) rows rs ≡ rest_of offset limit i rows (r ∷ rs)
rest_skip offset limit i rows r rs e = elim (Bool-cases (ltb i offset)) [
  | inl before ↦
      ap (take (limit - length rows))
        (sym (skip_one (offset - i) (offset - suc i) r rs (ground (arith, before))))
  | inr after ↦
      take_none (limit - length rows) (drop (offset - suc i) rs) (ground (arith, e, after))
      ∙ sym
          (take_none (limit - length rows) (drop (offset - i) (r ∷ rs)) (ground (arith, e, after)))
]

rest_take :
    (offset limit i : ℕ) (rows : List Row) (r : Row) (rs : List Row)
    → ltb i offset || leb limit (length rows) ≡ false
    → (rows ++ r ∷ []) ++ rest_of offset limit (suc i) (rows ++ r ∷ []) rs
      ≡ rows ++ rest_of offset limit i rows (r ∷ rs)
rest_take offset limit i rows r rs e =
    append_assoc rows (r ∷ []) _
    ∙ ap (λ ys. rows ++ r ∷ ys)
        (ap (λ n. take n (drop (offset - suc i) rs))
            (ap (λ n. limit - n) (length-append rows (r ∷ []) ∙ omega arith))
          ∙ ap (λ n. take (limit - suc (length rows)) (drop n rs))
              (late offset i (ground (arith, e))))
    ∙ ap (λ ys. rows ++ ys)
        (ap (λ n. take n (r ∷ rs)) (sym (room limit (length rows) (ground (arith, e))))
          ∙ ap (λ n. take (limit - length rows) (drop n (r ∷ rs)))
              (sym (started offset i (ground (arith, e)))))

page_from-slice :
    (offset limit i : ℕ) (rows : List Row) (fss : List Fields) (rs : List Row)
    → AreRows fss rs
    → page_from offset limit i rows (records fss) ≡ some (rows ++ rest_of offset limit i rows rs)
unfolding page_from
page_from-slice offset limit i rows [] [] h = ap some (
    sym (append-nil rows)
    ∙ ap (λ ys. rows ++ ys) (sym (empty_slice (limit - length rows) (offset - i))))
page_from-slice offset limit i rows (fs ∷ fss) (r ∷ rs) h =
    let stop = ltb i offset || leb limit (length rows) in
    elim (Bool-cases stop) [
      | inl e ↦
          ap
            (λ o. elim o [
              | none ↦ none
              | some rows' ↦ page_from offset limit (suc i) rows' (records fss)
            ])
            (if_true stop (some rows) (add_row rows (row_of fs)) e)
          ∙ page_from-slice offset limit (suc i) rows fss rs h.1
          ∙ ap (λ ys. some (rows ++ ys)) (rest_skip offset limit i rows r rs e)
      | inr e ↦
          ap
            (λ o. elim o [
              | none ↦ none
              | some rows' ↦ page_from offset limit (suc i) rows' (records fss)
            ])
            (if_false stop (some rows) (add_row rows (row_of fs)) e ∙ ap (add_row rows) h.0)
          ∙ page_from-slice offset limit (suc i) (rows ++ r ∷ []) fss rs h.1
          ∙ ap some (rest_take offset limit i rows r rs e)
    ]
page_from-slice offset limit i rows [] (r ∷ rs) h = absurd h
page_from-slice offset limit i rows (fs ∷ fss) [] h = absurd h

-- Over a file whose lines all are records that have rows, a page is the slice of these rows that its
-- offset and its limit ask for, and the total is the number of the rows.
pub read_page-slice :
    (fss : List Fields) (rs : List Row) (offset limit : ℕ)
    → AreRows fss rs
    → read_page (records fss) offset limit ≡ some (length rs, take limit (drop offset rs))
unfolding read_page
read_page-slice fss rs offset limit h =
    ap (λ o. elim o [ none ↦ none | some rows ↦ some (length (records fss), rows) ])
      (page_from-slice offset limit 0 [] fss rs h)
    ∙ ap (λ n. some (length (records fss), take n (drop (offset - 0) rs))) (minus_zero limit)
    ∙ ap (λ n. some (length (records fss), take limit (drop n rs))) (minus_zero offset)
    ∙ ap (λ n. some (n, take limit (drop offset rs))) (length-rows fss rs h)

-- What the export takes over from a row.
abbrev pub simple_of : Row → Simple
simple_of r = record {
  custom_id = r.custom_id;
  output = r.output;
  error = r.error;
  usage = r.usage;
}

same_error :
    (is_error b : Bool) (e : Json)
    → truthy e ≡ b
    → (if is_error || b then message_of (as_fields (if b then e else obj end)) else some null)
      ≡ message_of (as_fields (if b then e else obj end))
same_error true b e t = refl
same_error false true e t = refl
same_error false false e t = refl

simple_with-row :
    (fs : Fields) (body error status : Option Fields) (output : Option Json) (r : Row)
    → row_with fs body error status output ≡ some r
    → simple_with fs body (message_of error) output ≡ some (simple_of r)
simple_with-row fs (some body) (some error) (some status) (some output) r e =
    ap (option_map simple_of) e
simple_with-row fs none error status output r e = cc
simple_with-row fs (some body) none status output r e = cc
simple_with-row fs (some body) (some error) none output r e = cc
simple_with-row fs (some body) (some error) (some status) none r e = cc

-- Of a record that has a row, the simple export gives the id, the output, the error and the usage that
-- the page shows, from either file.
pub simplify-row :
    (fs : Fields) (is_error : Bool) (r : Row)
    → row_of fs ≡ some r
    → simplify fs is_error ≡ some (simple_of r)
unfolding simplify row_of
simplify-row fs is_error r e =
    ap (λ m. simple_with fs (body_of_line fs) m (output_if (body_of_line fs)))
      (same_error is_error (truthy (get "error" fs)) (get "error" fs) refl)
    ∙ simple_with-row fs (body_of_line fs) (child "error" fs) _ (output_if (body_of_line fs)) r e
