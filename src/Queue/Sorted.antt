-- ===== src/Queue/Sorted.antt =====
-- What the sort of `_REORDER_LUA` (backend/app/services/queue.py) gives.
use batch_inference_console.Prelude.{
  suc, ◌≡◌, refl, ap, ◌∙◌, Bool, List, [], ◌∷◌, All, length, count_if, arith, on_if,
}
use batch_inference_console.Prelude.Int.{ℤ, ◌≤ℤ◌, leb_ℤ}
use batch_inference_console.Queue.Reorder.{insert, sort}

abbrev pub IsSorted : List ℤ → Type 0
IsSorted [] = Unit
IsSorted (s ∷ ts) = All (λ t. s ≤ℤ t) ts × IsSorted ts

pub All-trans : (s t : ℤ) (ts : List ℤ) → s ≤ℤ t → All (λ u. t ≤ℤ u) ts → All (λ u. s ≤ℤ u) ts
All-trans s t [] h k = tt
All-trans s t (u ∷ us) h k = (omega (arith, h, k.0), All-trans s t us h k.1)

pub All-insert :
    (s t : ℤ) (ts : List ℤ) → s ≤ℤ t → All (λ u. s ≤ℤ u) ts → All (λ u. s ≤ℤ u) (insert t ts)
All-insert s t [] h k = (h, tt)
All-insert s t (u ∷ us) h k =
    on_if (All (λ v. s ≤ℤ v)) (leb_ℤ t u) (t ∷ u ∷ us) (u ∷ insert t us) (λ e. (h, k))
      (λ e. (k.0, All-insert s t us h k.1))

pub insert-IsSorted : (s : ℤ) (ts : List ℤ) → IsSorted ts → IsSorted (insert s ts)
insert-IsSorted s [] h = (tt, tt)
insert-IsSorted s (t ∷ ts) h =
    on_if IsSorted (leb_ℤ s t) (s ∷ t ∷ ts) (t ∷ insert s ts)
      (λ e. ((ground (arith, e), All-trans s t ts (ground (arith, e)) h.0), h))
      (λ e. (All-insert t s ts (ground (arith, e)) h.0, insert-IsSorted s ts h.1))

pub count-insert :
    (p : ℤ → Bool) (s : ℤ) (ts : List ℤ) → count_if p (insert s ts) ≡ count_if p (s ∷ ts)
count-insert p s [] = refl
count-insert p s (t ∷ ts) = ground (arith, count-insert p s ts)

pub length-insert : (s : ℤ) (ts : List ℤ) → length (insert s ts) ≡ suc (length ts)
length-insert s [] = refl
length-insert s (t ∷ ts) = ground (arith, length-insert s ts)

pub sort-IsSorted : (ss : List ℤ) → IsSorted (sort ss)
unfolding sort
sort-IsSorted [] = tt
sort-IsSorted (s ∷ ts) = insert-IsSorted s (sort ts) (sort-IsSorted ts)

pub count-sort : (p : ℤ → Bool) (ss : List ℤ) → count_if p (sort ss) ≡ count_if p ss
unfolding sort
count-sort p [] = refl
count-sort p (s ∷ ts) = omega (arith, count-insert p s (sort ts), count-sort p ts)

pub length-sort : (ss : List ℤ) → length (sort ss) ≡ length ss
unfolding sort
length-sort [] = refl
length-sort (s ∷ ts) = length-insert s (sort ts) ∙ ap suc (length-sort ts)
