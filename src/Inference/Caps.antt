-- ===== src/Inference/Caps.antt =====
-- What the user's parameters can change in `resolve_params`: the barred keys and the cap on tokens.
use batch_inference_console.Prelude.{
  subst, ℕ, ◌≤◌, true, false, not, ◌||◌, ◌≡◌, refl, ap, sym, ◌∙◌, Option, none, some, String,
  str_eq, str_eq_iff, if◌then◌else◌, arith, ◌==◌, Bool-cases, inl, inr,
}
use mathlib.Core.Option.{some-injective}
use batch_inference_console.Prelude.Int.{pos, negsuc}
use batch_inference_console.Json.{
  Json, Fields, bool, int, str, arr, obj, end, field, get, has_key, put, update, keep, last_or,
  get-put, get-update,
}
use batch_inference_console.Inference.Params.{
  ModelConfig, is_barred, set_user_params, cap_key, cap_tokens, at_most, merge_payload, joined,
  capped_params, resolve_params, reasoning_fragment, is_control, merge_some,
}
use batch_inference_console.Inference.Keys.{str_eq→eq, get-set_user_params, has_key-get}

at_most-null : (c : ℕ) (w : Json) → w ≡ Json.null → at_most c w ≡ w
at_most-null c w h = rw h

get-cap_key :
    (c : ℕ) (j k : String) (p : Fields)
    → get k (cap_key c j p) ≡ (if str_eq k j then at_most c (get k p) else get k p)
unfolding cap_key
get-cap_key c j k p = elim (Bool-cases (str_eq k j)) [
  | inl e ↦
      subst
        (λ i.
          get k (if has_key i p then put i (at_most c (get i p)) p else p)
          ≡ (if str_eq k i then at_most c (get k p) else get k p))
        (str_eq→eq k j e)
        (ground (
          arith,
          str_eq_iff k k,
          get-put k k (at_most c (get k p)) p,
          at_most-null c (get k p),
          has_key-get k p,
        ))
  | inr e ↦ ground (arith, get-put j k (at_most c (get j p)) p)
]

-- The value that the fragment gives a key that has the value `w`.
abbrev merged : String → Fields → Json → Json
merged k end w = w
merged k (field j v fs) w = merged k fs (if str_eq k j then joined w v else w)

get-put-joined :
    (k j : String) (v : Json) (p : Fields)
    → get k (put j (joined (get j p) v) p) ≡ (if str_eq k j then joined (get k p) v else get k p)
get-put-joined k j v p = elim (Bool-cases (str_eq k j)) [
  | inl e ↦
      subst
        (λ i.
          get k (put i (joined (get i p) v) p)
          ≡ (if str_eq k i then joined (get k p) v else get k p))
        (str_eq→eq k j e) (get-put k k _ p)
  | inr e ↦ ground (arith, get-put j k (joined (get j p) v) p)
]

get-merge_payload : (k : String) (p f : Fields) → get k (merge_payload p f) ≡ merged k f (get k p)
unfolding merge_payload
get-merge_payload k p end = refl
get-merge_payload k p (field j v fs) =
    get-merge_payload k (put j (joined (get j p) v) p) fs
    ∙ ap (merged k fs) (get-put-joined k j v p)

merged-missing : (k : String) (f : Fields) (w : Json) → has_key k f ≡ false → merged k f w ≡ w
merged-missing k end w h = refl
merged-missing k (field j v fs) w h = ground (arith, merged-missing k fs w)

abbrev capped_value : ModelConfig → String → Json → Json
capped_value mc k w =
    if mc.max_tokens_cap == 0
    then w
    else if str_eq k "max_tokens" || str_eq k "max_completion_tokens"
    then at_most mc.max_tokens_cap w
    else w

apart : (k : String) → str_eq k "max_tokens" ≡ true → str_eq k "max_completion_tokens" ≡ false
apart k e =
    subst (λ i. str_eq i "max_completion_tokens" ≡ false) (sym (str_eq→eq k "max_tokens" e)) refl

two_caps :
    (c : ℕ) (k : String) (p : Fields)
    → get k (cap_key c "max_completion_tokens" (cap_key c "max_tokens" p)) ≡ (
        if str_eq k "max_tokens" || str_eq k "max_completion_tokens"
        then at_most c (get k p)
        else get k p)
two_caps c k p =
    get-cap_key c "max_completion_tokens" k (cap_key c "max_tokens" p)
    ∙ ground (arith, get-cap_key c "max_tokens" k p, apart k)

get-cap_tokens :
    (mc : ModelConfig) (k : String) (p : Fields)
    → get k (cap_tokens mc p) ≡ capped_value mc k (get k p)
unfolding cap_tokens
get-cap_tokens mc k p = ground (arith, two_caps mc.max_tokens_cap k p)

get-capped_params :
    (mc : ModelConfig) (k : String) (user : Fields)
    → is_barred mc k ≡ true
    → get k (capped_params mc user)
      ≡ capped_value mc k (last_or k mc.forced_params (get k mc.default_params))
unfolding capped_params
get-capped_params mc k user h =
    get-cap_tokens mc k _
    ∙ ap (capped_value mc k) (
        get-update k _ mc.forced_params
        ∙ ap (last_or k mc.forced_params)
            (get-set_user_params mc k mc.default_params (keep (λ i. not (is_control mc i)) user) h))

abbrev pub value_of : String → Option Fields → Option Json
value_of k none = none
value_of k (some d) = some (get k d)

value-merge_some :
    (k : String) (p q : Fields) (f : Option Fields)
    → get k p ≡ get k q
    → value_of k (merge_some p f) ≡ value_of k (merge_some q f)
unfolding merge_some
value-merge_some k p q none h = refl
value-merge_some k p q (some f) h =
    ap some (get-merge_payload k p f ∙ ap (merged k f) h ∙ sym (get-merge_payload k q f))

-- Two users whose reasoning choices lead to the same fragment get the same value of a key that is
-- protected, outside the model's list of allowed keys, or a temperature that the model does not take.
pub resolve_params-barred :
    (mc : ModelConfig) (k : String) (user other : Fields)
    → is_barred mc k ≡ true
    → reasoning_fragment mc user ≡ reasoning_fragment mc other
    → value_of k (resolve_params mc user) ≡ value_of k (resolve_params mc other)
unfolding resolve_params
resolve_params-barred mc k user other h e =
    value-merge_some k (capped_params mc user) (capped_params mc other) (reasoning_fragment mc user)
      (get-capped_params mc k user h ∙ sym (get-capped_params mc k other h))
    ∙ ap (λ f. value_of k (merge_some (capped_params mc other) f)) e

at_most-le : (c : ℕ) (w : Json) (n : ℕ) → at_most c w ≡ int (pos n) → n ≤ c
at_most-le c (int (pos m)) n h = ground arith
at_most-le c (int (negsuc m)) n h = ground arith
at_most-le c Json.null n h = cc
at_most-le c (bool b) n h = cc
at_most-le c (Json.float m e) n h = cc
at_most-le c (str s) n h = cc
at_most-le c (arr xs) n h = cc
at_most-le c (obj fs) n h = cc

capped_value-token :
    (mc : ModelConfig) (k : String) (w : Json)
    → (mc.max_tokens_cap == 0) ≡ false
    → str_eq k "max_tokens" || str_eq k "max_completion_tokens" ≡ true
    → capped_value mc k w ≡ at_most mc.max_tokens_cap w
capped_value-token mc k w h e = rw (h, e)

value-merge_missing :
    (k : String) (p f : Fields)
    → has_key k f ≡ false
    → value_of k (merge_some p (some f)) ≡ some (get k p)
unfolding merge_some
value-merge_missing k p f h = ap some (get-merge_payload k p f ∙ merged-missing k f (get k p) h)

-- Where the model caps tokens and the reasoning fragment does not set the key, an integer that
-- `resolve_params` gives `max_tokens` or `max_completion_tokens` is at most the cap.
pub resolve_params-within :
    (mc : ModelConfig) (k : String) (user fragment : Fields) (n : ℕ)
    → (mc.max_tokens_cap == 0) ≡ false
    → str_eq k "max_tokens" || str_eq k "max_completion_tokens" ≡ true
    → reasoning_fragment mc user ≡ some fragment
    → has_key k fragment ≡ false
    → value_of k (resolve_params mc user) ≡ some (int (pos n))
    → n ≤ mc.max_tokens_cap
unfolding resolve_params capped_params
resolve_params-within mc k user fragment n hc hk hf hm h =
    let base =
      update (set_user_params mc mc.default_params (keep (λ i. not (is_control mc i)) user))
        mc.forced_params in
    at_most-le mc.max_tokens_cap (get k base) n (
      some-injective _ _ (
        ap some (sym (get-cap_tokens mc k base ∙ capped_value-token mc k (get k base) hc hk))
        ∙ sym (value-merge_missing k (capped_params mc user) fragment hm)
        ∙ ap (λ f. value_of k (merge_some (capped_params mc user) f)) (sym hf)
        ∙ h))
