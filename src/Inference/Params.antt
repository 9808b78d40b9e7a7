-- ===== src/Inference/Params.antt =====
-- `_fill_effort`, `resolve_reasoning_payload`, `_merge_payload`, `resolve_params` and
-- `build_request_body`. A result of `none` stands for the `ValueError` that `int(effort)` raises.
-- `str.isdigit` is modelled on the ASCII digits.
use batch_inference_console.Prelude.{
  ℕ, suc, ◌-◌, Bool, true, false, not, ◌&&◌, ◌||◌, Option, none, some, List, [], ◌∷◌, ◌++◌, String,
  Text, codes, str_eq, text_eq, is_empty, leb, ◌==◌, if◌then◌else◌, length, strip_left,
}
use batch_inference_console.Prelude.Int.{ℤ, pos, leb_ℤ}
use batch_inference_console.Json.{
  Json, Items, Fields, bool, int, str, arr, obj, nil, cons, end, field, truthy, get, has_key, put,
  update, keep, fields_of, signed_value,
}

-- `reasoning_mode`
pub data Reasoning : Type 0 where
  off optional forced : Reasoning

pub record ModelConfig : Type 0 where
  pub model_name : Text
  pub default_params : Fields
  pub forced_params : Fields
  pub allowed_param_keys : List String
  pub supports_system_prompt : Bool
  pub supports_temperature : Bool
  pub reasoning_mode : Reasoning
  pub reasoning_payload : Fields
  pub reasoning_off_payload : Fields
  pub reasoning_effort_options : List Text
  pub reasoning_default_effort : Text
  pub max_tokens_cap : ℕ
  pub body_marker : Fields

abbrev pub elem_str : String → List String → Bool
elem_str k [] = false
elem_str k (j ∷ js) = str_eq k j || elem_str k js

abbrev pub elem_text : Text → List Text → Bool
elem_text s [] = false
elem_text s (t ∷ ts) = text_eq s t || elem_text s ts

-- `_PROTECTED_BODY_KEYS`
abbrev pub is_protected : String → Bool
is_protected k = elem_str k ("model" ∷ "stream" ∷ "stream_options" ∷ [])

-- `EFFORT_PLACEHOLDER`
abbrev pub placeholder : Text
placeholder = codes "$effort"

abbrev pub starts_with : Text → Text → Bool
starts_with [] s = true
starts_with (c ∷ p) [] = false
starts_with (c ∷ p) (d ∷ s) = (c == d) && starts_with p s

-- `s.replace(old, new)`, where the number counts the characters of a match that are still to skip
abbrev pub replace_from : ℕ → Text → Text → Text → Text
replace_from n old new [] = []
replace_from (suc n) old new (c ∷ s) = replace_from n old new s
replace_from ℕ.zero old new (c ∷ s) = elim (starts_with old (c ∷ s)) [
  | true ↦ new ++ replace_from (length old - 1) old new s
  | false ↦ c ∷ replace_from 0 old new s
]

abbrev pub all_digits : Text → Bool
all_digits [] = true
all_digits (c ∷ s) = leb b'0' c && leb c b'9' && all_digits s

abbrev pub is_digits : Text → Bool
is_digits s = not (is_empty s) && all_digits s

abbrev pub int_json : Option ℤ → Option Json
int_json none = none
int_json (some n) = some (int n)

-- What a value that is the placeholder becomes.
abbrev pub effort_value : Text → Option Json
effort_value effort =
    if is_digits (strip_left (λ c. c == b'-') effort)
    then int_json (signed_value effort)
    else some (str effort)

abbrev pub some_cons : Option Json → Option Items → Option Items
some_cons (some x) (some xs) = some (cons x xs)
some_cons _ _ = none

abbrev pub some_field : String → Option Json → Option Fields → Option Fields
some_field k (some v) (some fs) = some (field k v fs)
some_field k _ _ = none

abbrev pub some_arr : Option Items → Option Json
some_arr none = none
some_arr (some xs) = some (arr xs)

abbrev pub some_obj : Option Fields → Option Json
some_obj none = none
some_obj (some fs) = some (obj fs)

unfoldable mutual
  pub fill_effort : Text → Json → Option Json
  fill_effort e (str s) =
      if text_eq s placeholder then effort_value e else some (str (replace_from 0 placeholder e s))
  fill_effort e (obj fs) = some_obj (fill_fields e fs)
  fill_effort e (arr xs) = some_arr (fill_items e xs)
  fill_effort e v = some v

  pub fill_items : Text → Items → Option Items
  fill_items e nil = some nil
  fill_items e (cons x xs) = some_cons (fill_effort e x) (fill_items e xs)

  pub fill_fields : Text → Fields → Option Fields
  fill_fields e end = some end
  fill_fields e (field k v fs) = some_field k (fill_effort e v) (fill_fields e fs)

abbrev pub choose : Json → Text → Text → List Text → Text
choose (str effort) default first options =
    if elem_text effort options
    then effort
    else if elem_text default options
    then default
    else first
choose _ default first options = if elem_text default options then default else first

abbrev pub filled : Fields → Text → Json → List Text → Option Fields
unfolding fill_fields
filled payload default effort [] = some payload
filled payload default effort (o ∷ os) = fill_fields (choose effort default o (o ∷ os)) payload

unfoldable pub resolve_reasoning_payload : ModelConfig → Json → Option Fields
resolve_reasoning_payload mc effort =
    filled mc.reasoning_payload mc.reasoning_default_effort effort mc.reasoning_effort_options

-- One value of `_merge_payload`: two dicts are joined, anything else replaces.
abbrev pub joined : Json → Json → Json
joined (obj old) (obj new) = obj (update old new)
joined _ new = new

unfoldable pub merge_payload : Fields → Fields → Fields
merge_payload params end = params
merge_payload params (field k v fs) = merge_payload (put k (joined (get k params) v) params) fs

abbrev pub is_null : Json → Bool
is_null Json.null = true
is_null _ = false

abbrev pub is_nil : List String → Bool
is_nil [] = true
is_nil (_ ∷ _) = false

-- The keys that the user may not set.
abbrev pub is_barred : ModelConfig → String → Bool
is_barred mc k =
    is_protected k
    || (not (is_nil mc.allowed_param_keys) && not (elem_str k mc.allowed_param_keys))
    || (str_eq k "temperature" && not mc.supports_temperature)

-- The loop of `resolve_params` over the user's parameters.
unfoldable pub set_user_params : ModelConfig → Fields → Fields → Fields
set_user_params mc params end = params
set_user_params mc params (field k v fs) =
    set_user_params mc (if is_null v || is_barred mc k then params else put k v params) fs

abbrev pub at_most : ℕ → Json → Json
at_most cap (int n) = int (if leb_ℤ n (pos cap) then n else pos cap)
at_most cap v = v

-- The cap on one key; a Boolean is an `int` below every cap.
unfoldable pub cap_key : ℕ → String → Fields → Fields
cap_key cap k params =
    if has_key k params then put k (at_most cap (get k params)) params else params

unfoldable pub cap_tokens : ModelConfig → Fields → Fields
unfolding cap_key
cap_tokens mc params =
    if mc.max_tokens_cap == 0
    then params
    else cap_key mc.max_tokens_cap "max_completion_tokens"
        (cap_key mc.max_tokens_cap "max_tokens" params)

abbrev pub wants_reasoning : Reasoning → Json → Bool
wants_reasoning forced reasoning = true
wants_reasoning optional reasoning = truthy reasoning
wants_reasoning off reasoning = false

-- `user_params.pop`: the switch, and the effort if the model offers a choice.
abbrev pub is_control : ModelConfig → String → Bool
is_control mc k =
    str_eq k "reasoning"
    || (str_eq k "reasoning_effort"
        && elim mc.reasoning_effort_options [ [] ↦ false | _ ∷ _ ↦ true ])

abbrev pub effort_of : ModelConfig → Fields → Json
effort_of mc user = elim mc.reasoning_effort_options [
  | [] ↦ Json.null
  | _ ∷ _ ↦ get "reasoning_effort" user
]

-- The fragment that `_merge_payload` is called with.
unfoldable pub reasoning_fragment : ModelConfig → Fields → Option Fields
unfolding resolve_reasoning_payload
reasoning_fragment mc user =
    if wants_reasoning mc.reasoning_mode (get "reasoning" user)
    then resolve_reasoning_payload mc (effort_of mc user)
    else some mc.reasoning_off_payload

-- `params` before the reasoning fragment
unfoldable pub capped_params : ModelConfig → Fields → Fields
unfolding set_user_params cap_tokens
capped_params mc user = cap_tokens mc (
    update (set_user_params mc mc.default_params (keep (λ k. not (is_control mc k)) user))
      mc.forced_params)

unfoldable pub merge_some : Fields → Option Fields → Option Fields
unfolding merge_payload
merge_some params none = none
merge_some params (some fragment) = some (merge_payload params fragment)

unfoldable pub resolve_params : ModelConfig → Fields → Option Fields
unfolding capped_params reasoning_fragment merge_some
resolve_params mc user = merge_some (capped_params mc user) (reasoning_fragment mc user)

abbrev pub is_system : Json → Bool
is_system (str role) = text_eq role (codes "system")
is_system _ = false

abbrev pub has_system : Items → Bool
has_system nil = false
has_system (cons m ms) = is_system (get "role" (fields_of m)) || has_system ms

abbrev pub items_of : Json → Items
items_of (arr xs) = xs
items_of _ = nil

-- `messages`, with the system prompt in front unless the item brings one
unfoldable pub messages_with : ModelConfig → Text → Items → Items
messages_with mc prompt messages =
    if not (is_empty prompt) && mc.supports_system_prompt && not (has_system messages)
    then cons (obj (field "role" (str (codes "system")) (field "content" (str prompt) end)))
        messages
    else messages

-- The loop of `build_request_body` over the task's parameters.
unfoldable pub lay_under : Fields → Fields → Fields → Fields
lay_under kept body end = body
lay_under kept body (field k v fs) =
    lay_under kept (if not (has_key k body) || has_key k kept then put k v body else body) fs

-- The body before the keys that no one may set. `messages` is an array: `normalize_line` sees to it.
unfoldable pub laid_body : ModelConfig → Fields → Fields → Text → Fields
unfolding messages_with lay_under
laid_body mc item resolved prompt =
    let body = keep (λ k. not (is_protected k)) item in
    let messages = messages_with mc prompt (items_of (get "messages" body)) in
    lay_under mc.forced_params (put "messages" (arr messages) body) resolved

unfoldable pub build_request_body : ModelConfig → Fields → Fields → Text → Fields
unfolding laid_body
build_request_body mc item resolved prompt =
    update
      (put "stream" (bool false)
        (put "model" (str mc.model_name) (laid_body mc item resolved prompt)))
      mc.body_marker
