-- ===== src/Prelude/Chars.antt =====
-- Text as the list of its code points, so that functions can walk it.
use Prim.Native.Char.{code}
use Prim.Native.Nat.{ℕ, ◌+◌, ◌-◌}
use Prim.Native.String.{String}
use mathlib.Core.Path.{◌≡◌, refl}
use mathlib.Core.Logic.{◌↔◌}
use mathlib.Core.Bool.{Bool, true, false, ◌&&◌, ◌||◌}
use mathlib.Core.List.{List, [], ◌∷◌, ◌++◌}
use native.Mathlib.Omega.{arith}
use mifos_test.Prelude.Tests.{◌==◌, leb, if◌then◌else◌, is_nonempty}

abbrev pub Text : Type 0
Text = List ℕ

abbrev pub text : String → Text
text String.[] = []
text (String.◌∷◌ c s) = code c ∷ text s

-- `a == b` on texts
unfoldable pub same_text : Text → Text → Bool
same_text [] [] = true
same_text [] (_ ∷ _) = false
same_text (_ ∷ _) [] = false
same_text (c ∷ s) (d ∷ t) = c == d && same_text s t

pub same_text_iff : (s t : Text) → (same_text s t ≡ true) ↔ (s ≡ t)
unfolding same_text
same_text_iff [] [] = ground arith
same_text_iff [] (d ∷ t) = ground arith
same_text_iff (c ∷ s) [] = ground arith
same_text_iff (c ∷ s) (d ∷ t) = ground (arith, same_text_iff s t)

pub same_text_refl : (s : Text) → same_text s s ≡ true
same_text_refl s = (same_text_iff s s).1 refl

-- `s.startswith(prefix)`
unfoldable pub starts_with : Text → Text → Bool
starts_with s [] = true
starts_with [] (_ ∷ _) = false
starts_with (c ∷ s) (d ∷ t) = c == d && starts_with s t

-- `part in s`
unfoldable pub contains : Text → Text → Bool
unfolding starts_with
contains [] part = starts_with [] part
contains (c ∷ s) part = starts_with (c ∷ s) part || contains s part

pub starts_with-append : (t s : Text) → starts_with (t ++ s) t ≡ true
unfolding starts_with
starts_with-append [] s = refl
starts_with-append (c ∷ t) s = ground (arith, starts_with-append t s)

-- `s.rstrip(chars)`, for the characters that pass `p`
unfoldable pub rstrip : (ℕ → Bool) → Text → Text
rstrip p [] = []
rstrip p (c ∷ s) = let r = rstrip p s in if is_nonempty r then c ∷ r else if p c then [] else c ∷ []

-- `s.lstrip(chars)`
unfoldable pub lstrip : (ℕ → Bool) → Text → Text
lstrip p [] = []
lstrip p (c ∷ s) = let r = lstrip p s in if p c then r else c ∷ s

-- `s.split(sep)[0]`, for a separator of one character
unfoldable pub split_first : ℕ → Text → Text
split_first sep [] = []
split_first sep (c ∷ s) = let r = split_first sep s in if c == sep then [] else c ∷ r

-- The ASCII characters that `str.strip()` takes off.
abbrev pub is_space : ℕ → Bool
is_space c = c == 32 || (leb 9 c && leb c 13) || (leb 28 c && leb c 31)

-- `s.strip()`
unfoldable pub strip : Text → Text
unfolding lstrip rstrip
strip s = rstrip is_space (lstrip is_space s)

-- `str.lower()`, on the ASCII letters; any other character is left as it is.
unfoldable pub lower_char : ℕ → ℕ
lower_char c = if leb b'A' c && leb c b'Z' then c + 32 else c

unfoldable pub lower : Text → Text
unfolding lower_char
lower [] = []
lower (c ∷ s) = lower_char c ∷ lower s

-- `str.capitalize()`, on the ASCII letters.
unfoldable pub upper_char : ℕ → ℕ
upper_char c = if leb b'a' c && leb c b'z' then c - 32 else c

unfoldable pub capitalize : Text → Text
unfolding upper_char lower
capitalize [] = []
capitalize (c ∷ s) = upper_char c ∷ lower s
