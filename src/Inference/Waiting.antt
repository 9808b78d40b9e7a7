-- ===== src/Inference/Waiting.antt =====
-- A request that waits in `acquire` of `RateLimiter` (backend/app/services/inference.py) is let through.
use batch_inference_console.Prelude.{
  ℕ, ◌+◌, ◌-◌, ◌*◌, ◌<◌, ◌≤◌, ◌≡◌, ◌⊎◌, refl, ap, sym, ◌∙◌, subst, Bool, true, false, ◌&&◌, ◌||◌,
  List, [], ◌∷◌, ◌==◌, leb, min, on_if, if◌then◌else◌, Bool-cases, inl, inr, arith,
}
use batch_inference_console.Inference.Limiter.{
  Limiter, filled, refill, need_req, need_tok, admit, try_acquire, acquire,
}

abbrev pub sum : List ℕ → ℕ
sum [] = 0
sum (n ∷ ns) = n + sum ns

-- A bucket that has filled for so long at least.
abbrev HasFilled : ℕ → ℕ → ℕ → Type 0
HasFilled limit time tokens = (limit == 0) ≡ false → min (limit * 60000) (time * limit) ≤ tokens

abbrev BothFilled : Limiter → ℕ → Type 0
BothFilled l time = HasFilled l.rpm time l.req_tokens × HasFilled l.tpm time l.tok_tokens

spread : (a b n : ℕ) → (a + b) * n ≡ a * n + b * n
spread a b n = grind arith

fill_on :
    (limit time pause tokens : ℕ)
    → HasFilled limit time tokens
    → HasFilled limit (time + pause) (filled limit pause tokens)
fill_on limit time pause tokens h on = ground (arith, h on, on, spread time pause limit)

minus_self : (a b : ℕ) → a + b - a ≡ b
minus_self a b = omega arith

refill-BothFilled :
    (l : Limiter) (time pause : ℕ)
    → BothFilled l time
    → BothFilled (refill l (l.last + pause)) (time + pause)
unfolding refill
refill-BothFilled l time pause (r, t) = (
  subst (λ p. HasFilled l.rpm (time + pause) (filled l.rpm p l.req_tokens))
      (sym (minus_self l.last pause)) (fill_on l.rpm time pause l.req_tokens r),
  subst (λ p. HasFilled l.tpm (time + pause) (filled l.tpm p l.tok_tokens))
      (sym (minus_self l.last pause)) (fill_on l.tpm time pause l.tok_tokens t),
)

-- The estimate is within the limit of tokens, if one is set.
abbrev pub fits : Limiter → ℕ → Bool
fits l est = (l.tpm == 0) || leb est l.tpm

rejoin : (t : ℕ) → 60000 ≤ t → 60000 + (t - 60000) ≡ t
rejoin t h = omega (arith, h)

full :
    (limit time tokens : ℕ)
    → HasFilled limit time tokens
    → 60000 ≤ time
    → (limit == 0) ≡ false
    → limit * 60000 ≤ tokens
full limit time tokens h long on =
    omega (arith, h on, spread 60000 (time - 60000) limit, ap (λ n. n * limit) (rejoin time long))

no_need_req :
    (l : Limiter) → ((l.rpm == 0) ≡ false → l.rpm * 60000 ≤ l.req_tokens) → need_req l ≡ false
no_need_req l h = ground (arith, h)

no_need_tok :
    (l : Limiter) (est : ℕ)
    → fits l est ≡ true
    → ((l.tpm == 0) ≡ false → l.tpm * 60000 ≤ l.tok_tokens)
    → need_tok l est ≡ false
no_need_tok l est f h = ground (arith, h, f)

admit_full :
    (l : Limiter) (time est : ℕ)
    → BothFilled l time
    → 60000 ≤ time
    → fits l est ≡ true
    → (admit l est).1 ≡ true
unfolding admit
admit_full l time est (r, t) long h =
    on_if (λ (x : Limiter × Bool). x.1 ≡ true) (need_req l) _ _
      (λ e. sym (no_need_req l (full l.rpm time l.req_tokens r long)) ∙ e)
      (λ e.
        on_if (λ (x : Limiter × Bool). x.1 ≡ true) (need_tok l est) _ _
          (λ f. sym (no_need_tok l est h (full l.tpm time l.tok_tokens t long)) ∙ f) (λ f. refl))

-- A turn lets the request through, or only refills the buckets.
abbrev Turned : Limiter → ℕ → Limiter × Bool → Type 0
Turned l now x = (x.1 ≡ true) ⊎ ((x.0 ≡ refill l now) × (x.1 ≡ false))

admit-Turned : (l : Limiter) (now est : ℕ) → Turned l now (admit (refill l now) est)
unfolding admit
admit-Turned l now est =
    on_if (Turned l now) (need_req (refill l now)) _ _ (λ e. inr (refl, refl))
      (λ e.
        on_if (Turned l now) (need_tok (refill l now) est) _ _ (λ f. inr (refl, refl))
          (λ f. inl refl))

try_acquire-Turned : (l : Limiter) (now est : ℕ) → Turned l now (try_acquire l now est)
unfolding try_acquire
try_acquire-Turned l now est =
    on_if (Turned l now) (l.rpm == 0 && l.tpm == 0) _ _ (λ e. inl refl)
      (λ e. admit-Turned l now est)

try_full :
    (l : Limiter) (now time est : ℕ)
    → BothFilled (refill l now) time
    → 60000 ≤ time
    → fits l est ≡ true
    → (try_acquire l now est).1 ≡ true
unfolding try_acquire refill
try_full l now time est b long h =
    on_if (λ (x : Limiter × Bool). x.1 ≡ true) (l.rpm == 0 && l.tpm == 0) _ _ (λ e. refl)
      (λ e. admit_full (refill l now) time est b long h)

either :
    (x later : Limiter × Bool)
    → (x.1 ≡ true) ⊎ (later.1 ≡ true)
    → (if x.1 then (x.0, true) else later).1 ≡ true
either (l, true) later h = refl
either (l, false) later (inl e) = cc
either (l, false) later (inr e) = e

still_fits :
    (l m : Limiter) (now est : ℕ) → m ≡ refill l now → fits l est ≡ true → fits m est ≡ true
unfolding refill
still_fits l m now est e h = ap (λ (n : Limiter). fits n est) e ∙ h

waits :
    (l : Limiter) (est : ℕ) (pauses : List ℕ) (time : ℕ)
    → BothFilled l time
    → time < 60000
    → 60000 ≤ time + sum pauses
    → fits l est ≡ true
    → (acquire l est pauses).1 ≡ true
unfolding acquire
waits l est [] time b short long h = absurd (omega (arith, short, long))
waits l est (pause ∷ pauses) time b short long h =
    let x = try_acquire l (l.last + pause) est in
    let b' = refill-BothFilled l time pause b in
    either x (acquire x.0 est pauses) (elim (Bool-cases (leb 60000 (time + pause))) [
      | inl e ↦ inl (try_full l (l.last + pause) (time + pause) est b' (ground (arith, e)) h)
      | inr e ↦ elim (try_acquire-Turned l (l.last + pause) est) [
        | inl ok ↦ inl ok
        | inr same ↦ inr (
            waits x.0 est pauses (time + pause)
              (subst (λ m. BothFilled m (time + pause)) (sym same.0) b') (ground (arith, e))
              (omega (arith, long)) (still_fits l x.0 (l.last + pause) est same.0 h))
      ]
    ])

-- A request whose estimate is within the limit of tokens, if one is set, is let through within its waits,
-- once these add up to a minute at least, when no other request has its turn in between, however empty
-- the buckets were.
pub acquire-passes :
    (l : Limiter) (estimated_tokens : ℕ) (pauses : List ℕ)
    → fits l estimated_tokens ≡ true
    → 60000 ≤ sum pauses
    → (acquire l estimated_tokens pauses).1 ≡ true
acquire-passes l est pauses h long =
    waits l est pauses 0 ((λ on. omega arith), (λ on. omega arith)) (omega arith)
      (omega (arith, long)) h
