-- ===== src/Settings/Merge.antt =====
-- What `write_runtime` of backend/app/services/settings_store.py does to the settings that are read next.
use batch_inference_console.Prelude.{
  true-false, not_self, ◌≡◌, refl, ap, sym, ◌∙◌, Bool, true, false, ◌||◌, not, Option, some, String,
  str_eq, str_eq_iff, if◌then◌else◌, Bool-cases, inl, inr, arith,
}
use batch_inference_console.Prelude.Int.{pos}
use batch_inference_console.Json.{
  Json, Fields, int, end, field, get, put, update, keep, has_key, has_key-put, get-put, get-update,
  last_or,
}
use batch_inference_console.Settings.Store.{
  Environment, defaults, stored_of, read_runtime, write_runtime,
}

-- No key twice.
abbrev pub IsDict : Fields → Type 0
IsDict end = Unit
IsDict (field k v fs) = (has_key k fs ≡ false) × IsDict fs

IsDict-put : (k : String) (v : Json) (d : Fields) → IsDict d → IsDict (put k v d)
IsDict-put k v end h = (refl, tt)
IsDict-put k v (field j w fs) h = elim (Bool-cases (str_eq k j)) [
  | inl e ↦ rw e h
  | inr e ↦ rw e (
    has_key-put k j v fs ∙ ground (arith, str_eq_iff k j, str_eq_iff j k, e, h.0),
    IsDict-put k v fs h.1,
  )
]

IsDict-update : (d e : Fields) → IsDict d → IsDict (update d e)
IsDict-update d end h = h
IsDict-update d (field k v fs) h = IsDict-update (put k v d) fs (IsDict-put k v d h)

has_key-update : (k : String) (d e : Fields) → has_key k (update d e) ≡ has_key k d || has_key k e
has_key-update k d end = ground arith
has_key-update k d (field j v fs) =
    has_key-update k (put j v d) fs ∙ ground (arith, has_key-put j k v d)

apart : (p : String → Bool) (k j : String) (b : Bool) → p k ≡ b → p j ≡ not b → str_eq k j ≡ false
apart p k j b h q = elim (Bool-cases (str_eq k j)) [
  | inl e ↦ absurd (not_self b (sym h ∙ ap p ((str_eq_iff k j).0 e) ∙ q))
  | inr e ↦ e
]

last_or-keep :
    (p : String → Bool) (k : String) (e : Fields) (x : Json)
    → p k ≡ true
    → last_or k (keep p e) x ≡ last_or k e x
last_or-keep p k end x h = refl
last_or-keep p k (field j v fs) x h = elim (Bool-cases (p j)) [
  | inl q ↦ rw q (last_or-keep p k fs (if str_eq k j then v else x) h)
  | inr q ↦ rw (q, apart p k j true h q) (last_or-keep p k fs x h)
]

last_or-ignored :
    (p : String → Bool) (k : String) (e : Fields) (x : Json)
    → p k ≡ false
    → last_or k (keep p e) x ≡ x
last_or-ignored p k end x h = refl
last_or-ignored p k (field j v fs) x h = elim (Bool-cases (p j)) [
  | inl q ↦ rw q (
      ap (λ b. last_or k (keep p fs) (if b then v else x)) (apart p k j false h q)
      ∙ last_or-ignored p k fs x h)
  | inr q ↦ rw q (last_or-ignored p k fs x h)
]

last_or-absent : (k : String) (e : Fields) (x : Json) → has_key k e ≡ false → last_or k e x ≡ x
last_or-absent k end x h = refl
last_or-absent k (field j v fs) x h = elim (Bool-cases (str_eq k j)) [
  | inl e ↦ absurd (true-false (sym (rw e refl) ∙ h))
  | inr e ↦ rw e (last_or-absent k fs x (sym (rw e refl) ∙ h))
]

last_or-present :
    (k : String) (e : Fields) (x y : Json) → has_key k e ≡ true → last_or k e x ≡ last_or k e y
last_or-present k end x y h = cc
last_or-present k (field j v fs) x y h = elim (Bool-cases (str_eq k j)) [
  | inl e ↦ rw e refl
  | inr e ↦ rw e (last_or-present k fs x y (sym (rw e refl) ∙ h))
]

last_or-get :
    (k : String) (d : Fields) (x : Json)
    → IsDict d
    → last_or k d x ≡ (if has_key k d then get k d else x)
last_or-get k end x h = refl
last_or-get k (field j v fs) x h = elim (Bool-cases (str_eq k j)) [
  | inl e ↦ rw e (last_or-absent k fs v (ap (λ i. has_key i fs) ((str_eq_iff k j).0 e) ∙ h.0))
  | inr e ↦ rw e (last_or-get k fs x h.1)
]

pick_else :
    (b c : Bool) (v w x y : Json)
    → b || c ≡ false
    → y ≡ (if c then w else x)
    → (if b then v else y) ≡ x
pick_else false false v w x y h e = e
pick_else false true v w x y h e = cc
pick_else true c v w x y h e = cc

cases :
    (b c : Bool) (k : String) (changes : Fields) (v x : Json)
    → has_key k changes ≡ c
    → (if b || c then last_or k changes v else x) ≡ last_or k changes (if b then v else x)
cases true c k changes v x h = refl
cases false true k changes v x h = last_or-present k changes v x h
cases false false k changes v x h = sym (last_or-absent k changes x h)

kept :
    (p : String → Bool) (k : String) (changes : Fields) (x : Json)
    → last_or k (keep p changes) x ≡ (if p k then last_or k changes x else x)
kept p k changes x = elim (Bool-cases (p k)) [
  | inl e ↦ last_or-keep p k changes x e ∙ sym (rw e refl)
  | inr e ↦ last_or-ignored p k changes x e ∙ sym (rw e refl)
]

-- The keys that the environment decides.
abbrev pub is_fixed : String → Bool
is_fixed k = str_eq k "max_items_per_job" || str_eq k "max_upload_mb"

two_puts :
    (k : String) (v w : Json) (d : Fields)
    → is_fixed k ≡ false
    → get k (put "max_items_per_job" v (put "max_upload_mb" w d)) ≡ get k d
two_puts k v w d h =
    get-put "max_items_per_job" k v (put "max_upload_mb" w d)
    ∙ pick_else (str_eq k "max_items_per_job") (str_eq k "max_upload_mb") v w (get k d) _ h
        (get-put "max_upload_mb" k w d)

read_runtime-get :
    (env : Environment) (row : Option (Option Fields)) (k : String)
    → is_fixed k ≡ false
    → get k (read_runtime env row) ≡ last_or k (stored_of row) (get k defaults)
unfolding read_runtime
read_runtime-get env row k h =
    two_puts k (int (pos env.max_items_per_job)) (int (pos env.max_upload_mb))
      (update defaults (stored_of row)) h
    ∙ get-update k defaults (stored_of row)

-- The value of a key after a merge into stored settings.
merged :
    (k : String) (stored changes : Fields) (x : Json)
    → IsDict stored
    → last_or k (update stored changes) x ≡ last_or k changes (last_or k stored x)
merged k stored changes x h =
    last_or-get k (update stored changes) x (IsDict-update stored changes h)
    ∙ rw (has_key-update k stored changes, get-update k stored changes, last_or-get k stored x h)
        (cases (has_key k stored) (has_key k changes) k changes (get k stored) x refl)

-- A write of changes to settings that are stored as a dict: a setting that `DEFAULTS` has reads as the
-- changes have it, and as before where they do not name it; a key that `DEFAULTS` does not have reads as
-- before, whatever the changes say. The two settings that the environment decides are left aside.
pub write_runtime-get :
    (env : Environment) (row : Option (Option Fields)) (changes : Fields) (k : String)
    → IsDict (stored_of row)
    → is_fixed k ≡ false
    → get k (write_runtime env row changes).1 ≡ (
        if has_key k defaults
        then last_or k changes (get k (read_runtime env row))
        else get k (read_runtime env row))
unfolding write_runtime
write_runtime-get env row changes k h free =
    let known : String → Bool = λ j. has_key j defaults in
    let before = read_runtime-get env row k free in
    read_runtime-get env (some (some (update (stored_of row) (keep known changes)))) k free
    ∙ merged k (stored_of row) (keep known changes) (get k defaults) h
    ∙ ap (last_or k (keep known changes)) (sym before)
    ∙ kept known k changes (get k (read_runtime env row))
