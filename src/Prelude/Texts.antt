-- ===== src/Prelude/Texts.antt =====
-- Texts as code points, where the program cuts, joins or searches them.
use Prim.Native.Char.{code}
use Prim.Native.Nat.{ℕ}
use Prim.Native.String.{String}
use mathlib.Core.Path.{◌≡◌, refl}
use mathlib.Core.Bool.{Bool, true, false, ◌&&◌, ◌||◌}
use mathlib.Core.Option.{Option, none, some}
use mathlib.Core.List.{List, [], ◌∷◌}
use native.Mathlib.Omega.{arith}
use batch_inference_console.Prelude.Tests.{◌==◌, leb, if◌then◌else◌}

abbrev pub Text : Type 0
Text = List ℕ

abbrev pub codes : String → Text
codes String.[] = []
codes (String.◌∷◌ c s) = code c ∷ codes s

abbrev pub text_eq : Text → Text → Bool
text_eq [] [] = true
text_eq [] (d ∷ t) = false
text_eq (c ∷ s) [] = false
text_eq (c ∷ s) (d ∷ t) = (c == d) && text_eq s t

pub text_eq_eq : (s t : Text) → text_eq s t ≡ true → s ≡ t
text_eq_eq [] [] h = refl
text_eq_eq [] (d ∷ t) h = cc
text_eq_eq (c ∷ s) [] h = cc
text_eq_eq (c ∷ s) (d ∷ t) h = ground (arith, text_eq_eq s t)

pub text_eq_self : (s : Text) → text_eq s s ≡ true
text_eq_self [] = refl
text_eq_self (c ∷ s) = ground (arith, text_eq_self s)

-- the characters that `str.strip()` removes
abbrev pub is_space : ℕ → Bool
is_space c =
    (leb 9 c && leb c 13)
    || (leb 28 c && leb c 32)
    || (c == 133)
    || (c == 160)
    || (c == 5760)
    || (leb 8192 c && leb c 8202)
    || (c == 8232)
    || (c == 8233)
    || (c == 8239)
    || (c == 8287)
    || (c == 12288)

module _ (drops : ℕ → Bool) where
  abbrev pub strip_left : Text → Text
  strip_left [] = []
  strip_left (c ∷ s) = let rest = strip_left s in if drops c then rest else c ∷ s

  -- A text of dropped characters alone becomes empty.
  abbrev pub cons_unless : ℕ → Text → Text
  cons_unless c [] = if drops c then [] else c ∷ []
  cons_unless c (d ∷ s) = c ∷ (d ∷ s)

  abbrev pub strip_right : Text → Text
  strip_right [] = []
  strip_right (c ∷ s) = cons_unless c (strip_right s)

-- `s.strip()`
abbrev pub strip : Text → Text
strip s = strip_left is_space (strip_right is_space s)

-- `s.rstrip("/")`
abbrev pub strip_slashes : Text → Text
strip_slashes = strip_right (λ c. c == b'/')

abbrev pub is_empty : Text → Bool
is_empty [] = true
is_empty (_ ∷ _) = false

-- `a or b` on texts
abbrev pub text_or : Text → Text → Text
text_or [] t = t
text_or (c ∷ s) t = c ∷ s

-- `runtime.get(key) or ""`
abbrev pub text_of : Option Text → Text
text_of none = []
text_of (some s) = s
