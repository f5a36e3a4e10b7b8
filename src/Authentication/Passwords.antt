-- ===== src/Authentication/Passwords.antt =====
-- backend/authentication/validators.py: PasswordStrengthValidator
use mifos_test.Prelude.{
  Bool, false, ◌&&◌, ◌||◌, not, Option, none, some, List, [], ◌∷◌, Text, text, ◌==◌, leb, length,
  take, exists, contains, lower, if◌then◌else◌, ◌++◌,
}

-- The `code` of the ValidationError that `validate` raises.
pub data Weakness : Type 0 where
  password_repeated password_sequential : Weakness

abbrev pub sequential_patterns : List Text
sequential_patterns =
    text "0123456789"
    ∷ text "abcdefghijklmnopqrstuvwxyz"
    ∷ text "qwertyuiop"
    ∷ text "asdfghjkl"
    ∷ text "zxcvbnm"
    ∷ []

-- `re.fullmatch(r"(.)\1+", password)`: the dot stands for any character but a newline.
unfoldable pub is_repeated : Text → Bool
is_repeated [] = false
is_repeated (c ∷ []) = false
is_repeated (c ∷ d ∷ s) = not (c == 10) && not (exists (λ x. not (x == c)) (d ∷ s))

-- `pattern[i : i + 4] for i in range(len(pattern) - 3)`
unfoldable pub chunks : Text → List Text
chunks [] = []
chunks (c ∷ s) =
    let rest = chunks s in if leb 4 (length (c ∷ s)) then take 4 (c ∷ s) ∷ rest else rest

-- `s[::-1]`
unfoldable pub backwards : Text → Text
backwards [] = []
backwards (c ∷ s) = backwards s ++ c ∷ []

unfoldable pub is_sequential : Text → Text → Bool
unfolding contains backwards
is_sequential lowered chunk = contains lowered chunk || contains lowered (backwards chunk)

-- the inner loop of `validate`, and the outer one
unfoldable pub has_chunk : Text → Text → Bool
unfolding is_sequential chunks
has_chunk lowered pattern = exists (is_sequential lowered) (chunks pattern)

unfoldable pub is_predictable : Text → Bool
unfolding has_chunk
is_predictable lowered = exists (has_chunk lowered) sequential_patterns

unfoldable pub validate : Text → Option Weakness
unfolding is_repeated is_predictable lower
validate password =
    if is_repeated password
    then some Weakness.password_repeated
    else if is_predictable (lower password)
    then some Weakness.password_sequential
    else none
