-- ===== src/Prelude/Texts.antt =====
-- Texts as lists of bytes (`std::string`), their comparison, and ASCII literals.
use Prim.Native.Nat.{ℕ, ◌<◌}
use Prim.Native.Char.{code}
use Prim.Native.String.{String}
use mathlib.Core.Path.{◌≡◌, refl}
use mathlib.Core.List.{List, [], ◌∷◌}
use mathlib.Core.Bool.{Bool, true, false, ◌&&◌, ◌||◌}
use native.Mathlib.Omega.{arith}
use qbrain.Prelude.Tests.{◌==◌, ltb, if◌then◌else◌}
use qbrain.Prelude.Lists.{All}

abbrev pub Bytes : Type 0
Bytes = List ℕ

-- The code points of a literal; these are its bytes when the text is ASCII.
abbrev pub codes : String → Bytes
codes String.[] = []
codes (String.◌∷◌ c s) = code c ∷ codes s

unfoldable pub text_eq : Bytes → Bytes → Bool
text_eq [] [] = true
text_eq (a ∷ s) (b ∷ t) = a == b && text_eq s t
text_eq _ _ = false

pub text_eq_sound : (s t : Bytes) → text_eq s t ≡ true → s ≡ t
unfolding text_eq
text_eq_sound [] [] h = refl
text_eq_sound [] (b ∷ t) h = ground arith
text_eq_sound (a ∷ s) [] h = ground arith
text_eq_sound (a ∷ s) (b ∷ t) h = ground (arith, text_eq_sound s t)

pub text_eq_refl : (s : Bytes) → text_eq s s ≡ true
unfolding text_eq
text_eq_refl [] = refl
text_eq_refl (a ∷ s) = ground (arith, text_eq_refl s)

pub text_eq_comm : (s t : Bytes) → text_eq s t ≡ text_eq t s
unfolding text_eq
text_eq_comm [] [] = refl
text_eq_comm [] (b ∷ t) = refl
text_eq_comm (a ∷ s) [] = refl
text_eq_comm (a ∷ s) (b ∷ t) = ground (arith, text_eq_comm s t)

-- Is the text one of a list?
unfoldable pub text_mem : Bytes → List Bytes → Bool
text_mem s [] = false
text_mem s (t ∷ ts) = text_eq s t || text_mem s ts

-- Does the text begin with a prefix?
unfoldable pub starts_with : Bytes → Bytes → Bool
starts_with s [] = true
starts_with [] (p ∷ ps) = false
starts_with (c ∷ s) (p ∷ ps) = c == p && starts_with s ps

-- `find(part) != npos`, for a part that is not empty.
unfoldable pub contains : Bytes → Bytes → Bool
unfolding starts_with
contains [] part = false
contains (c ∷ s) part = starts_with (c ∷ s) part || contains s part

-- Is every byte a number below 256?
abbrev pub IsByteText : Bytes → Type 0
IsByteText = All (λ c. c < 256)

-- The order of `std::string`.
unfoldable pub text_less : Bytes → Bytes → Bool
text_less [] [] = false
text_less [] (b ∷ t) = true
text_less (a ∷ s) [] = false
text_less (a ∷ s) (b ∷ t) = if a == b then text_less s t else ltb a b

pub text_less_total :
    (s t : Bytes) → text_eq s t ≡ false → text_less t s ≡ false → text_less s t ≡ true
unfolding text_eq text_less
text_less_total [] [] e l = ground arith
text_less_total [] (b ∷ t) e l = refl
text_less_total (a ∷ s) [] e l = ground arith
text_less_total (a ∷ s) (b ∷ t) e l = ground (arith, text_less_total s t)
