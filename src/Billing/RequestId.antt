-- ===== src/Billing/RequestId.antt =====
-- `request_id` of backend/app/services/billing.py, and the ids that it writes out: `new_id` of
-- backend/app/models.py gives 32 lower-case hexadecimal digits. Texts are lists of code points.
use native.Mathlib.Nat.{pow-suc}
use batch_inference_console.Prelude.{
  ℕ, zero, suc, ◌+◌, ◌-◌, ◌*◌, ◌/◌, ◌%◌, ◌^◌, ◌<◌, ◌≡◌, refl, ap, List, [], ◌∷◌, ◌++◌, arith, ltb,
  if◌then◌else◌, inl, inr, Bool-cases,
}

-- one lower-case hexadecimal digit
hex_digit : ℕ → ℕ
hex_digit d = if ltb d 10 then 48 + d else 87 + d

-- the last `w` hexadecimal digits of a number: `uuid.uuid4().hex` is the case of 32
hex_text : ℕ → ℕ → List ℕ
hex_text zero n = []
hex_text (suc w) n = hex_text w (n / 16) ++ (hex_digit (n % 16) ∷ [])

-- a number in decimal, as an f-string writes it
decimal_fuel : ℕ → ℕ → List ℕ
decimal_fuel zero n = []
decimal_fuel (suc f) n =
    let rest = decimal_fuel f (n / 10) in
    if ltb n 10 then (48 + n) ∷ [] else rest ++ ((48 + n % 10) ∷ [])

pub decimal : ℕ → List ℕ
unfolding decimal_fuel
decimal n = decimal_fuel (suc n) n

abbrev request_prefix : List ℕ
request_prefix = b'b' ∷ b'i' ∷ b'c' ∷ []

-- `f"{REQUEST_PREFIX}-{job_id}-{seq}"`
unfoldable pub request_id : ℕ → ℕ → List ℕ
unfolding hex_text hex_digit decimal
request_id job_id seq = request_prefix ++ (b'-' ∷ (hex_text 32 job_id ++ (b'-' ∷ decimal seq)))

hex_digit-injective : (a b : ℕ) → a < 16 → b < 16 → hex_digit a ≡ hex_digit b → a ≡ b
unfolding hex_digit
hex_digit-injective a b h k e = ground arith

append_assoc_snoc : (xs : List ℕ) (d : ℕ) (ys : List ℕ) → (xs ++ (d ∷ [])) ++ ys ≡ xs ++ (d ∷ ys)
append_assoc_snoc [] d ys = refl
append_assoc_snoc (x ∷ xs) d ys = ap (λ t. x ∷ t) (append_assoc_snoc xs d ys)

head_eq : {a b : ℕ} {xs ys : List ℕ} → a ∷ xs ≡ b ∷ ys → (a ≡ b) × (xs ≡ ys)
head_eq e = (cc, cc)

-- Fixed-width digits can be cut off the front of a text in one way.
hex_text-injective :
    (w a b : ℕ) (xs ys : List ℕ)
    → a < 16 ^ w
    → b < 16 ^ w
    → hex_text w a ++ xs ≡ hex_text w b ++ ys
    → (a ≡ b) × (xs ≡ ys)
unfolding hex_text
hex_text-injective zero a b xs ys h k e = (omega arith, e)
hex_text-injective (suc w) a b xs ys h k e =
    let e' : hex_text w (a / 16) ++ (hex_digit (a % 16) ∷ xs)
        ≡ hex_text w (b / 16) ++ (hex_digit (b % 16) ∷ ys) =
      rw
        (
          ← append_assoc_snoc (hex_text w (a / 16)) (hex_digit (a % 16)) xs,
          ← append_assoc_snoc (hex_text w (b / 16)) (hex_digit (b % 16)) ys,
        )
        e in
    let ih =
      hex_text-injective w (a / 16) (b / 16) (hex_digit (a % 16) ∷ xs) (hex_digit (b % 16) ∷ ys)
        (omega (arith, pow-suc 16 w)) (omega (arith, pow-suc 16 w)) e' in
    let d = hex_digit-injective (a % 16) (b % 16) (omega arith) (omega arith) (head_eq ih.1).0 in
    (omega (arith, ih.0, d), (head_eq ih.1).1)

-- What a decimal text stands for.
value_from : ℕ → List ℕ → ℕ
value_from acc [] = acc
value_from acc (c ∷ cs) = value_from (acc * 10 + (c - 48)) cs

value_from-snoc :
    (acc : ℕ) (xs : List ℕ) (c : ℕ)
    → value_from acc (xs ++ (c ∷ [])) ≡ value_from acc xs * 10 + (c - 48)
unfolding value_from
value_from-snoc acc [] c = refl
value_from-snoc acc (x ∷ xs) c = value_from-snoc (acc * 10 + (x - 48)) xs c

value_from-decimal : (f n : ℕ) → n < f → value_from 0 (decimal_fuel f n) ≡ n
unfolding decimal_fuel
value_from-decimal zero n h = absurd (omega arith)
value_from-decimal (suc f) n h = elim (Bool-cases (ltb n 10)) [
  | inl small ↦ rw small (unfold value_from in omega arith)
  | inr big ↦ rw big (
      rw
        (
          value_from-snoc 0 (decimal_fuel f (n / 10)) (48 + n % 10),
          value_from-decimal f (n / 10) (ground arith),
        )
        (omega arith))
]

decimal-injective : (s t : ℕ) → decimal s ≡ decimal t → s ≡ t
unfolding decimal
decimal-injective s t e =
    cc (value_from-decimal (suc s) s (omega arith), value_from-decimal (suc t) t (omega arith))

-- Two cuts have one request id only if they are the same cut of the same job: the gateway, which
-- tells charges apart by this id, never mistakes one for another. Job ids are 128-bit numbers.
pub request_id-injective :
    (j k s t : ℕ) → j < 16 ^ 32 → k < 16 ^ 32 → request_id j s ≡ request_id k t → (j ≡ k) × (s ≡ t)
unfolding request_id
request_id-injective j k s t h l e =
    let tails = (head_eq (head_eq (head_eq (head_eq e).1).1).1).1 in
    let (same_job, rest) =
      hex_text-injective 32 j k (b'-' ∷ decimal s) (b'-' ∷ decimal t) h l tails in
    (same_job, decimal-injective s t (head_eq rest).1)
