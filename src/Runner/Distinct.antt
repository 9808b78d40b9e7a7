-- ===== src/Runner/Distinct.antt =====
-- Indices that occur at most once (the items of a run of backend/app/worker/runner.py).
use batch_inference_console.Prelude.{
  ℕ, ◌≤◌, ◌≡◌, refl, ap, Bool, false, List, [], ◌∷◌, elem, if◌then◌else◌, arith, Bool-cases, inl,
  inr, ◌==◌, ==_eq,
}
use batch_inference_console.Results.Recount.{IsDistinct}
use batch_inference_console.Runner.Occurrences.{times, weight}

pub weight_self : (j : ℕ) → weight j j ≡ 1
weight_self j = ground arith

abbrev pub count : Bool → ℕ
count b = if b then 1 else 0

pub absent : (j : ℕ) (js : List ℕ) → times j js ≡ 0 → elem j js ≡ false
absent j [] e = refl
absent j (k ∷ ks) e = ground (arith, e, absent j ks)

pub present : (j : ℕ) (js : List ℕ) → elem j js ≡ false → times j js ≡ 0
present j [] e = refl
present j (k ∷ ks) e = ground (arith, e, present j ks)

pub once : (is : List ℕ) (j : ℕ) → IsDistinct is → times j is ≤ 1
once [] j d = omega arith
once (k ∷ ks) j d = elim (Bool-cases (j == k)) [
  | inl e ↦ omega (
    arith,
    ap (λ i. times i ks) (==_eq j k e),
    present k ks d.0,
    ap (λ i. weight i k) (==_eq j k e),
    weight_self k,
  )
  | inr e ↦ omega (arith, once ks j d.1, ap (λ b. count b) e)
]

-- An index that occurs at most once each time is distinct.
pub IsDistinct-of_times : (is : List ℕ) → ((i : ℕ) → times i is ≤ 1) → IsDistinct is
IsDistinct-of_times [] h = tt
IsDistinct-of_times (j ∷ js) h = (
  absent j js (omega (arith, h j, weight_self j)),
  IsDistinct-of_times js (λ i. omega (arith, h i)),
)
