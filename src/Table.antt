-- ===== src/Table.antt =====
-- What the code relies on of a table of its database (SQLAlchemy over MySQL, Postgres or SQLite,
-- none of which is part of the repository): rows under primary keys, `UPDATE` and `INSERT` of one
-- row, and `SUM`. The laws are the documented meaning of these statements.
pub mod Rows
use batch_inference_console.Prelude.{
  ℕ, ◌+◌, ◌≡◌, Bool, false, List, elem, Option, none, some, ◌==◌, if◌then◌else◌, length,
}

abbrev pub option_map {ℓ κ} : {A : Type ℓ} {B : Type κ} → (A → B) → Option A → Option B
option_map f none = none
option_map f (some a) = some (f a)

-- The value of a measure on a row that may be missing.
abbrev pub at {ℓ} : {R : Type ℓ} → (R → ℕ) → Option R → ℕ
at f none = 0
at f (some r) = f r

-- Whether a row is there and passes a test.
abbrev pub holds {ℓ} : {R : Type ℓ} → (R → Bool) → Option R → Bool
holds p none = false
holds p (some r) = p r

pub record Table (R : Type 0) : Type 1 where
  pub Rows : Type 0
  -- `db.get(R, k)`, `select(R).where(R.id == k)`
  pub get : ℕ → Rows → Option R
  -- `update(R).where(R.id == k)`
  pub update : ℕ → (R → R) → Rows → Rows
  -- `db.add(r)` with an autoincremented key, which `fresh` gives
  pub fresh : Rows → ℕ
  pub insert : R → Rows → Rows
  -- `select(R.id).where(p).order_by(R.id)`
  pub select : (R → Bool) → Rows → List ℕ
  -- `select(func.sum(f(R)))`
  pub sum : (R → ℕ) → Rows → ℕ
  pub get-update :
      (j k : ℕ) (f : R → R) (t : Rows)
      → get j (update k f t) ≡ (if j == k then option_map f (get j t) else get j t)
  pub get-fresh : (t : Rows) → get (fresh t) t ≡ none
  pub get-insert :
      (j : ℕ) (r : R) (t : Rows) → get j (insert r t) ≡ (if j == fresh t then some r else get j t)
  pub sum-insert : (f : R → ℕ) (r : R) (t : Rows) → sum f (insert r t) ≡ sum f t + f r
  pub sum-update :
      (f : R → ℕ) (g : R → R) (k : ℕ) (t : Rows)
      → sum f (update k g t) + at f (get k t) ≡ sum f t + at (λ r. f (g r)) (get k t)
  pub elem-select : (k : ℕ) (p : R → Bool) (t : Rows) → elem k (select p t) ≡ holds p (get k t)
  pub sum-select :
      (p : R → Bool) (t : Rows) → sum (λ r. if p r then 1 else 0) t ≡ length (select p t)
