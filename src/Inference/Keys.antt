-- ===== src/Inference/Keys.antt =====
-- Which value of a key wins in `resolve_params` and `build_request_body`.
use batch_inference_console.Prelude.{
  subst, Bool, true, false, not, ◌||◌, ◌≡◌, refl, ◌∙◌, String, Text, str_eq, str_eq_iff,
  if◌then◌else◌, arith, Bool-cases, inl, inr,
}
use batch_inference_console.Json.{
  Json, Fields, bool, str, end, field, get, has_key, put, update, keep, last_or, get-put,
  has_key-put, get-update,
}
use batch_inference_console.Inference.Params.{
  ModelConfig, is_protected, is_barred, set_user_params, lay_under, laid_body, build_request_body,
  is_null,
}

pub has_key-get : (k : String) (d : Fields) → has_key k d ≡ false → get k d ≡ Json.null
has_key-get k end h = refl
has_key-get k (field j v fs) h = ground (arith, has_key-get k fs)

skip_or_put :
    (b : Bool) (k j : String) (v : Json) (p : Fields)
    → (str_eq k j ≡ true → b ≡ true)
    → get k (if b then p else put j v p) ≡ get k p
skip_or_put true k j v p h = refl
skip_or_put false k j v p h = get-put j k v p ∙ ground (arith, h)

pub str_eq→eq : (k j : String) → str_eq k j ≡ true → k ≡ j
str_eq→eq k j e = ground (arith, str_eq_iff k j)

or_true : (b c : Bool) → c ≡ true → b || c ≡ true
or_true b c h = ground arith

barred_or :
    (mc : ModelConfig) (k j : String) (b : Bool)
    → is_barred mc k ≡ true
    → str_eq k j ≡ true
    → b || is_barred mc j ≡ true
barred_or mc k j b h e =
    subst (λ i. b || is_barred mc i ≡ true) (str_eq→eq k j e) (or_true b (is_barred mc k) h)

-- A barred key keeps the value of the model's defaults, whatever the user sends.
pub get-set_user_params :
    (mc : ModelConfig) (k : String) (p user : Fields)
    → is_barred mc k ≡ true
    → get k (set_user_params mc p user) ≡ get k p
unfolding set_user_params
get-set_user_params mc k p end h = refl
get-set_user_params mc k p (field j v fs) h =
    get-set_user_params mc k (if is_null v || is_barred mc j then p else put j v p) fs h
    ∙ skip_or_put (is_null v || is_barred mc j) k j v p (barred_or mc k j (is_null v) h)

laid_one :
    (kept body d : Fields) (k j : String) (v : Json)
    → (let next = if not (has_key j body) || has_key j kept then put j v body else body in
        if has_key k kept
        then last_or k d (get k next)
        else if has_key k next
        then get k next
        else get k d)
      ≡ (if has_key k kept
          then last_or k d (if str_eq k j then v else get k body)
          else if has_key k body
          then get k body
          else if str_eq k j
          then v
          else get k d)
laid_one kept body d k j v = elim (Bool-cases (str_eq k j)) [
  | inl e ↦
      subst
        (λ i.
          (let next = if not (has_key i body) || has_key i kept then put i v body else body in
            if has_key k kept
            then last_or k d (get k next)
            else if has_key k next
            then get k next
            else get k d)
          ≡ (if has_key k kept
              then last_or k d (if str_eq k i then v else get k body)
              else if has_key k body
              then get k body
              else if str_eq k i
              then v
              else get k d))
        (str_eq→eq k j e)
        (ground (arith, get-put k k v body, has_key-put k k v body, str_eq_iff k k))
  | inr e ↦ ground (arith, get-put j k v body, has_key-put j k v body)
]

get-lay_under :
    (kept body d : Fields) (k : String)
    → get k (lay_under kept body d) ≡ (
        if has_key k kept
        then last_or k d (get k body)
        else if has_key k body
        then get k body
        else get k d)
unfolding lay_under
get-lay_under kept body end k = ground (arith, has_key-get k body)
get-lay_under kept body (field j v fs) k =
    get-lay_under kept (if not (has_key j body) || has_key j kept then put j v body else body) fs k
    ∙ laid_one kept body fs k j v

get-keep : (p : String → Bool) (k : String) (d : Fields) → p k ≡ true → get k (keep p d) ≡ get k d
get-keep p k end h = refl
get-keep p k (field j v fs) h = elim (Bool-cases (str_eq k j)) [
  | inl e ↦
      subst (λ i. get k (keep p (field i v fs)) ≡ get k (field i v fs)) (str_eq→eq k j e)
        (ground (arith, str_eq_iff k k))
  | inr e ↦ elim (Bool-cases (p j)) [
    | inl q ↦ rw (q, e, get-keep p k fs h)
    | inr q ↦ rw (q, e, get-keep p k fs h)
  ]
]

has_key-keep :
    (p : String → Bool) (k : String) (d : Fields) → p k ≡ true → has_key k (keep p d) ≡ has_key k d
has_key-keep p k end h = refl
has_key-keep p k (field j v fs) h = elim (Bool-cases (str_eq k j)) [
  | inl e ↦
      subst (λ i. has_key k (keep p (field i v fs)) ≡ has_key k (field i v fs)) (str_eq→eq k j e)
        (ground (arith, str_eq_iff k k))
  | inr e ↦ elim (Bool-cases (p j)) [
    | inl q ↦ rw (q, e, has_key-keep p k fs h)
    | inr q ↦ rw (q, e, has_key-keep p k fs h)
  ]
]

last_or-missing : (k : String) (d : Fields) (w : Json) → has_key k d ≡ false → last_or k d w ≡ w
last_or-missing k end w h = refl
last_or-missing k (field j v fs) w h = ground (arith, last_or-missing k fs w)

pub get-update_missing :
    (k : String) (d e : Fields) → has_key k e ≡ false → get k (update d e) ≡ get k d
get-update_missing k d e h = get-update k d e ∙ last_or-missing k e (get k d) h

pub get-put_other :
    (k j : String) (v : Json) (d : Fields) → str_eq k j ≡ false → get k (put j v d) ≡ get k d
get-put_other k j v d h = get-put j k v d ∙ ground arith

has_key-put_other :
    (k j : String) (v : Json) (d : Fields)
    → str_eq k j ≡ false
    → has_key k (put j v d) ≡ has_key k d
has_key-put_other k j v d h = has_key-put j k v d ∙ ground arith

not_model : (k : String) → is_protected k ≡ false → str_eq k "model" ≡ false
not_model k h = ground arith

not_stream : (k : String) → is_protected k ≡ false → str_eq k "stream" ≡ false
not_stream k h = ground arith

unprotected : (k : String) → is_protected k ≡ false → not (is_protected k) ≡ true
unprotected k h = rw h

get-own :
    (item : Fields) (v : Json) (k : String)
    → is_protected k ≡ false
    → str_eq k "messages" ≡ false
    → get k (put "messages" v (keep (λ i. not (is_protected i)) item)) ≡ get k item
get-own item v k np nm =
    get-put_other k "messages" v _ nm
    ∙ get-keep (λ i. not (is_protected i)) k item (unprotected k np)

has_key-own :
    (item : Fields) (v : Json) (k : String)
    → is_protected k ≡ false
    → str_eq k "messages" ≡ false
    → has_key k (put "messages" v (keep (λ i. not (is_protected i)) item)) ≡ has_key k item
has_key-own item v k np nm =
    has_key-put_other k "messages" v _ nm
    ∙ has_key-keep (λ i. not (is_protected i)) k item (unprotected k np)

own_value :
    (mc : ModelConfig) (item resolved : Fields) (v : Json) (k : String)
    → is_protected k ≡ false
    → str_eq k "messages" ≡ false
    → (let own = put "messages" v (keep (λ i. not (is_protected i)) item) in
        if has_key k mc.forced_params
        then last_or k resolved (get k own)
        else if has_key k own
        then get k own
        else get k resolved)
      ≡ (if has_key k mc.forced_params
          then last_or k resolved (get k item)
          else if has_key k item
          then get k item
          else get k resolved)
own_value mc item resolved v k np nm = rw (get-own item v k np nm, has_key-own item v k np nm)

-- The value of a key that is neither `messages` nor protected, in a body whose marker does not set
-- it: a key that the model forces has the task's value, if the task has one; a key that the item
-- has keeps the item's value; any other key has the task's value.
pub build_request_body-key :
    (mc : ModelConfig) (item resolved : Fields) (prompt : Text) (k : String)
    → is_protected k ≡ false
    → str_eq k "messages" ≡ false
    → has_key k mc.body_marker ≡ false
    → get k (build_request_body mc item resolved prompt) ≡ (
        if has_key k mc.forced_params
        then last_or k resolved (get k item)
        else if has_key k item
        then get k item
        else get k resolved)
unfolding build_request_body laid_body
build_request_body-key mc item resolved prompt k np nm nb =
    get-update_missing k _ mc.body_marker nb
    ∙ get-put_other k "stream" _ _ (not_stream k np)
    ∙ get-put_other k "model" _ _ (not_model k np)
    ∙ get-lay_under mc.forced_params _ resolved k
    ∙ own_value mc item resolved _ k np nm

model_set :
    (marker d : Fields) (m : Json)
    → has_key "model" marker ≡ false
    → get "model" (update (put "stream" (bool false) (put "model" m d)) marker) ≡ m
model_set marker d m h =
    get-update_missing "model" _ marker h
    ∙ get-put_other "model" "stream" (bool false) (put "model" m d) refl
    ∙ get-put "model" "model" m d

stream_set :
    (marker d : Fields) (v : Json)
    → has_key "stream" marker ≡ false
    → get "stream" (update (put "stream" v d) marker) ≡ v
stream_set marker d v h = get-update_missing "stream" _ marker h ∙ get-put "stream" "stream" v d

-- Whatever the item and the task's parameters say, the body names the model of the configuration and
-- does not stream, unless the marker sets these keys.
pub build_request_body-model :
    (mc : ModelConfig) (item resolved : Fields) (prompt : Text)
    → has_key "model" mc.body_marker ≡ false
    → has_key "stream" mc.body_marker ≡ false
    → (get "model" (build_request_body mc item resolved prompt) ≡ str mc.model_name)
      × (get "stream" (build_request_body mc item resolved prompt) ≡ bool false)
unfolding build_request_body
build_request_body-model mc item resolved prompt hm hs =
    let laid = laid_body mc item resolved prompt in
    (
      model_set mc.body_marker laid (str mc.model_name) hm,
      stream_set mc.body_marker (put "model" (str mc.model_name) laid) (bool false) hs,
    )
