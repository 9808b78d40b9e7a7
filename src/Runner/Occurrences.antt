-- ===== src/Runner/Occurrences.antt =====
-- How often an index occurs among items and writes: what the proofs on runs of
-- backend/app/worker/runner.py count.
use batch_inference_console.Prelude.{
  not_self, ℕ, suc, ◌+◌, ◌==◌, ◌≡◌, refl, ap, sym, ◌∙◌, Bool, true, false, some, List, [], ◌∷◌,
  ◌++◌, length, find, if◌then◌else◌, arith, Bool-cases, inl, inr, or_else, not, ==_eq,
}
use batch_inference_console.Jsonl.Parse.{ParsedItem}
use batch_inference_console.Results.Writer.{Write}
use batch_inference_console.Results.Recount.{indices}
use batch_inference_console.Runner.Counters.{Counters, bump, bump_all, index_of}
use batch_inference_console.Runner.Dispatch.{without, has_index}

abbrev pub weight : ℕ → ℕ → ℕ
weight i j = if i == j then 1 else 0

-- How often an index occurs.
abbrev pub times : ℕ → List ℕ → ℕ
times i [] = 0
times i (j ∷ js) = weight i j + times i js

abbrev pub times_item : ℕ → List ParsedItem → ℕ
times_item i [] = 0
times_item i (item ∷ items) = weight i item.index + times_item i items

abbrev pub times_written : ℕ → List Write → ℕ
times_written i xs = times i (indices xs)

pub bump_all-snoc :
    (c : Counters) (xs : List Write) (x : Write)
    → bump_all c (xs ++ x ∷ []) ≡ bump (bump_all c xs) x
unfolding bump_all
bump_all-snoc c [] x = refl
bump_all-snoc c (y ∷ ys) x = bump_all-snoc (bump c y) ys x

pub times_written-snoc :
    (i : ℕ) (xs : List Write) (x : Write)
    → times_written i (xs ++ x ∷ []) ≡ times_written i xs + weight i (index_of x)
times_written-snoc i [] x = omega arith
times_written-snoc i (y ∷ ys) x = omega (arith, times_written-snoc i ys x)

pub length-without :
    (i : ℕ) (items : List ParsedItem) (item : ParsedItem)
    → find (has_index i) items ≡ some item
    → suc (length (without i items)) ≡ length items
length-without i [] item e = ground arith
length-without i (x ∷ xs) item e = ground (arith, length-without i xs item)

pub times_split :
    (j i : ℕ) (b : Bool) (x : ParsedItem) (xs : List ParsedItem) (item : ParsedItem)
    → (find (has_index i) xs ≡ some item
        → weight j item.index + times_item j (without i xs) ≡ times_item j xs)
    → (if b then some x else find (has_index i) xs) ≡ some item
    → weight j item.index + times_item j (if b then xs else x ∷ without i xs)
      ≡ weight j x.index + times_item j xs
times_split j i true x xs item h e =
    ap (λ o. weight j (or_else o x).index + times_item j xs) (sym e)
times_split j i false x xs item h e = omega (arith, h e)

pub times-without :
    (j i : ℕ) (items : List ParsedItem) (item : ParsedItem)
    → find (has_index i) items ≡ some item
    → weight j item.index + times_item j (without i items) ≡ times_item j items
times-without j i [] item e = ground arith
times-without j i (x ∷ xs) item e =
    times_split j i (has_index i x) x xs item (times-without j i xs item) e

-- Two indices that a test tells apart are not the same.
pub weightless :
    (done : ℕ → Bool) (i j : ℕ) (b : Bool) → done i ≡ b → done j ≡ not b → weight i j ≡ 0
weightless done i j b p q = elim (Bool-cases (i == j)) [
  | inl e ↦ absurd (not_self b (sym p ∙ ap done (==_eq i j e) ∙ q))
  | inr e ↦ rw e
]
