-- ===== src/Json.antt =====
-- The values that Python's `json` reads, and what the program does with them: `isinstance`, truth,
-- `or`, `dict.get`, item assignment and `dict.update`. A dict is its items in insertion order. Keys
-- are only compared, so they are native texts; other texts are code points. A number with a fraction
-- or an exponent is kept as its literal, a decimal mantissa over a power of ten.
use batch_inference_console.Prelude.{
  ℕ, suc, zero, ◌+◌, ◌≡◌, refl, ap, ◌∙◌, ◌^◌, ◌*◌, ◌-◌, ◌/◌, strip, leb, Bool, true, false, not,
  ◌&&◌, ◌||◌, Option, none, some, [], ◌∷◌, String, Text, str_eq, str_eq_iff, is_empty,
  if◌then◌else◌, arith, ◌==◌,
}
use batch_inference_console.Prelude.Int.{ℤ, pos, negsuc}

mutual
  pub data Json : Type 0 where
    null : Json
    bool : Bool → Json
    int : ℤ → Json
    float : ℤ → ℕ → Json
    str : Text → Json
    arr : Items → Json
    obj : Fields → Json

  pub data Items : Type 0 where
    nil : Items
    cons : Json → Items → Items

  pub data Fields : Type 0 where
    end : Fields
    field : String → Json → Fields → Fields

-- `bool(value)`
abbrev pub truthy : Json → Bool
truthy null = false
truthy (bool b) = b
truthy (int (pos n)) = not (n == 0)
truthy (int (negsuc n)) = true
truthy (float (pos n) e) = not (n == 0)
truthy (float (negsuc n) e) = true
truthy (str s) = not (is_empty s)
truthy (arr nil) = false
truthy (arr (cons x xs)) = true
truthy (obj end) = false
truthy (obj (field k v fs)) = true

-- `d.get(key)`, where a missing key gives `None`
abbrev pub get : String → Fields → Json
get k end = null
get k (field j v fs) = if str_eq k j then v else get k fs

-- `key in d`
abbrev pub has_key : String → Fields → Bool
has_key k end = false
has_key k (field j v fs) = str_eq k j || has_key k fs

abbrev pub as_fields : Json → Option Fields
as_fields (obj fs) = some fs
as_fields _ = none

-- `d[key] = value`
abbrev pub put : String → Json → Fields → Fields
put k v end = field k v end
put k v (field j w fs) = if str_eq k j then field j v fs else field j w (put k v fs)

-- `d.update(e)`, item by item
abbrev pub update : Fields → Fields → Fields
update d end = d
update d (field k v fs) = update (put k v d) fs

-- `{k: v for k, v in d.items() if p(k)}`
abbrev pub keep : (String → Bool) → Fields → Fields
keep p end = end
keep p (field k v fs) = let rest = keep p fs in if p k then field k v rest else rest

-- `value or {}` where the value is a dict if it is true
abbrev pub fields_of : Json → Fields
fields_of (obj fs) = fs
fields_of _ = end

abbrev pub is_obj : Json → Bool
is_obj (obj fs) = true
is_obj _ = false

abbrev pub json_or : Json → Json → Json
json_or a b = if truthy a then a else b

abbrev pub append_items : Items → Items → Items
append_items nil ys = ys
append_items (cons x xs) ys = cons x (append_items xs ys)

pub get-put :
    (k j : String) (v : Json) (d : Fields) → get j (put k v d) ≡ (if str_eq j k then v else get j d)
get-put k j v end = refl
get-put k j v (field i w fs) =
    ground (arith, str_eq_iff j k, str_eq_iff k i, str_eq_iff j i, get-put k j v fs)

pub has_key-put :
    (k j : String) (v : Json) (d : Fields)
    → has_key j (put k v d) ≡ (if str_eq j k then true else has_key j d)
has_key-put k j v end = ground arith
has_key-put k j v (field i w fs) =
    ground (arith, str_eq_iff j k, str_eq_iff k i, str_eq_iff j i, has_key-put k j v fs)

-- The value that the last item under a key gives it, if there is one.
abbrev pub last_or : String → Fields → Json → Json
last_or k end d = d
last_or k (field j v fs) d = last_or k fs (if str_eq k j then v else d)

pub get-update : (k : String) (d e : Fields) → get k (update d e) ≡ last_or k e (get k d)
get-update k d end = refl
get-update k d (field j v fs) = get-update k (put j v d) fs ∙ ap (last_or k fs) (get-put j k v d)

-- Digits as `int()` reads them: one `_` may stand between two of them. The flag says that the last
-- character was a digit. Only the ASCII digits are read.
abbrev pub digits_value : ℕ → Bool → Text → Option ℕ
digits_value acc last [] = if last then some acc else none
digits_value acc last (c ∷ s) =
    let next = digits_value (acc * 10 + (c - b'0')) true s in
    let skip = digits_value acc false s in
    if leb b'0' c && leb c b'9' then next else if (c == b'_') && last then skip else none

abbrev pub map_int : (ℕ → ℤ) → Option ℕ → Option ℤ
map_int f none = none
map_int f (some n) = some (f n)

abbrev pub negate : ℕ → ℤ
negate zero = pos 0
negate (suc n) = negsuc n

abbrev pub signed_value : Text → Option ℤ
signed_value [] = none
signed_value (c ∷ s) =
    if c == b'-'
    then map_int negate (digits_value 0 false s)
    else if c == b'+'
    then map_int pos (digits_value 0 false s)
    else map_int pos (digits_value 0 false (c ∷ s))

-- `int(value)`, where `none` stands for the `TypeError` or `ValueError` that it raises
abbrev pub int_of : Json → Option ℤ
int_of null = none
int_of (bool true) = some (pos 1)
int_of (bool false) = some (pos 0)
int_of (int n) = some n
int_of (float (pos m) e) = some (pos (m / 10 ^ e))
int_of (float (negsuc m) e) = some (negate (suc m / 10 ^ e))
int_of (str s) = signed_value (strip s)
int_of (arr xs) = none
int_of (obj fs) = none
