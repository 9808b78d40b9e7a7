-- ===== src/Table/Rows.antt =====
-- A table as a list of rows, each under its position: the laws of `Table` can be met.
use batch_inference_console.Prelude.{
  ℕ, zero, suc, ◌<◌, Bool, false, elem, ◌+◌, ◌≡◌, refl, List, [], ◌∷◌, ◌++◌, Option, none, some,
  length, sum_of, arith, ◌==◌, if◌then◌else◌,
}
use batch_inference_console.Table.{Table, option_map, at, holds}

module _ {R : Type 0} where
  abbrev get_row : ℕ → List R → Option R
  get_row k [] = none
  get_row zero (x ∷ xs) = some x
  get_row (suc k) (x ∷ xs) = get_row k xs

  abbrev update_row : ℕ → (R → R) → List R → List R
  update_row k f [] = []
  update_row zero f (x ∷ xs) = f x ∷ xs
  update_row (suc k) f (x ∷ xs) = x ∷ update_row k f xs

  pub get_row-update :
      (j k : ℕ) (f : R → R) (t : List R)
      → get_row j (update_row k f t) ≡ (if j == k then option_map f (get_row j t) else get_row j t)
  get_row-update j k f [] = ground arith
  get_row-update zero zero f (x ∷ xs) = refl
  get_row-update zero (suc k) f (x ∷ xs) = ground arith
  get_row-update (suc j) zero f (x ∷ xs) = ground arith
  get_row-update (suc j) (suc k) f (x ∷ xs) = ground (arith, get_row-update j k f xs)

  pub get_row-length : (t : List R) → get_row (length t) t ≡ none
  get_row-length [] = refl
  get_row-length (x ∷ xs) = get_row-length xs

  pub get_row-insert :
      (j : ℕ) (r : R) (t : List R)
      → get_row j (t ++ (r ∷ [])) ≡ (if j == length t then some r else get_row j t)
  get_row-insert zero r [] = refl
  get_row-insert (suc j) r [] = ground arith
  get_row-insert zero r (x ∷ xs) = ground arith
  get_row-insert (suc j) r (x ∷ xs) = ground (arith, get_row-insert j r xs)

  pub sum_of-insert : (f : R → ℕ) (r : R) (t : List R) → sum_of f (t ++ (r ∷ [])) ≡ sum_of f t + f r
  sum_of-insert f r [] = omega arith
  sum_of-insert f r (x ∷ xs) = omega (arith, sum_of-insert f r xs)

  pub sum_of-update :
      (f : R → ℕ) (g : R → R) (k : ℕ) (t : List R)
      → sum_of f (update_row k g t) + at f (get_row k t)
        ≡ sum_of f t + at (λ r. f (g r)) (get_row k t)
  sum_of-update f g k [] = refl
  sum_of-update f g zero (x ∷ xs) = omega arith
  sum_of-update f g (suc k) (x ∷ xs) = omega (arith, sum_of-update f g k xs)

  abbrev select_from : ℕ → (R → Bool) → List R → List ℕ
  select_from i p [] = []
  select_from i p (x ∷ xs) = let rest = select_from (suc i) p xs in if p x then i ∷ rest else rest

  select_from-below :
      (i k : ℕ) (p : R → Bool) (t : List R) → k < i → elem k (select_from i p t) ≡ false
  select_from-below i k p [] h = refl
  select_from-below i k p (x ∷ xs) h = ground (arith, select_from-below (suc i) k p xs)

  select_from-elem :
      (i m k : ℕ) (p : R → Bool) (t : List R)
      → k ≡ i + m
      → elem k (select_from i p t) ≡ holds p (get_row m t)
  select_from-elem i m k p [] e = refl
  select_from-elem i zero k p (x ∷ xs) e = ground (arith, select_from-below (suc i) k p xs)
  select_from-elem i (suc m) k p (x ∷ xs) e =
      let ih = select_from-elem (suc i) m k p xs (omega arith) in ground (arith, ih)

  pub select-elem :
      (k : ℕ) (p : R → Bool) (t : List R) → elem k (select_from 0 p t) ≡ holds p (get_row k t)
  select-elem k p t = select_from-elem 0 k k p t (omega arith)

  pub select-sum :
      (i : ℕ) (p : R → Bool) (t : List R)
      → sum_of (λ r. if p r then 1 else 0) t ≡ length (select_from i p t)
  select-sum i p [] = refl
  select-sum i p (x ∷ xs) = ground (arith, select-sum (suc i) p xs)

  abbrev pub list_table : Table R
  list_table = record {
    Rows = List R;
    get = get_row;
    update = update_row;
    fresh = length;
    insert = λ r t. t ++ (r ∷ []);
    select = select_from 0;
    sum = sum_of;
    get-update = get_row-update;
    get-fresh = get_row-length;
    get-insert = get_row-insert;
    sum-insert = sum_of-insert;
    sum-update = sum_of-update;
    elem-select = select-elem;
    sum-select = select-sum 0;
  }
