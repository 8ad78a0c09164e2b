-- ===== src/Prelude/Strings.antt =====
-- The strings of C, as the bytes before the terminating 0, and the calls of string.h that are used.
use Prim.Native.Nat.{ℕ, ◌+◌, ◌-◌, ◌<◌, ◌≤◌}
use mathlib.Core.Path.{◌≡◌, refl}
use mathlib.Core.Bool.{Bool, true, false, not, ◌&&◌}
use mathlib.Core.List.{List, [], ◌∷◌, map}
use mathlib.Core.Option.{Option, none, some}
use native.Mathlib.Omega.{arith}
use polymarket_trade_engine.Prelude.Tests.{leb, ◌==◌, if◌then◌else◌}
use polymarket_trade_engine.Prelude.Lists.{length, take}

abbrev pub CString : Type 0
CString = List ℕ

abbrev pub is_empty : CString → Bool
is_empty [] = true
is_empty (c ∷ s) = false

-- A pointer that is not NULL, to a string that is not empty.
abbrev pub is_given : Option CString → Bool
is_given none = false
is_given (some s) = not (is_empty s)

-- The string behind a pointer, where it is not NULL.
abbrev pub text_of : Option CString → CString
text_of none = []
text_of (some s) = s

-- `strcmp(a, b) == 0`
unfoldable pub str_eq : CString → CString → Bool
str_eq [] [] = true
str_eq [] (d ∷ t) = false
str_eq (c ∷ s) [] = false
str_eq (c ∷ s) (d ∷ t) = c == d && str_eq s t

abbrev to_lower : ℕ → ℕ
to_lower c = if leb 65 c && leb c 90 then c + 32 else c

-- `strcasecmp(a, b) == 0`, in the C locale.
abbrev pub str_case_eq : CString → CString → Bool
str_case_eq s t = str_eq (map to_lower s) (map to_lower t)

-- `strncpy(dst, s, size - 1)` into a zeroed or longer field, read back as a string.
abbrev pub fit : ℕ → CString → CString
fit size s = take (size - 1) s

pub str_eq_refl : (s : CString) → str_eq s s ≡ true
unfolding str_eq
str_eq_refl [] = refl
str_eq_refl (c ∷ s) = rw (str_eq_refl s) (ground arith)

pub str_eq_sound : (s t : CString) → str_eq s t ≡ true → s ≡ t
unfolding str_eq
str_eq_sound [] [] h = refl
str_eq_sound [] (d ∷ t) h = ground arith
str_eq_sound (c ∷ s) [] h = ground arith
str_eq_sound (c ∷ s) (d ∷ t) h = grind (arith, str_eq_sound s t)

pub length-take : (n : ℕ) (s : CString) → length (take n s) ≤ n
length-take ℕ.zero s = omega arith
length-take (ℕ.suc n) [] = omega arith
length-take (ℕ.suc n) (c ∷ s) = omega (arith, length-take n s)

pub take_all : (n : ℕ) (s : CString) → length s ≤ n → take n s ≡ s
take_all ℕ.zero [] h = refl
take_all ℕ.zero (c ∷ s) h = absurd (omega arith)
take_all (ℕ.suc n) [] h = refl
take_all (ℕ.suc n) (c ∷ s) h = rw (take_all n s (omega arith)) refl

-- Strings of different lengths differ.
pub str_eq-length : (s t : CString) → length s < length t → str_eq s t ≡ false
unfolding str_eq
str_eq-length [] [] h = absurd (omega arith)
str_eq-length [] (d ∷ t) h = refl
str_eq-length (c ∷ s) [] h = absurd (omega arith)
str_eq-length (c ∷ s) (d ∷ t) h = ground (arith, str_eq-length s t)
