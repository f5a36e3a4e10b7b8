-- ===== src/Organizations/Codes.antt =====
-- backend/dashboard/views.py `_unique_tenant_code` and backend/organizations/views.py
-- `_suggest_tenant_code`, which are the same: the first free one of base, base2, base3, …
use mifos_test.Prelude.{
  ℕ, zero, suc, ◌+◌, ◌/◌, ◌%◌, Option, none, some, List, [], ◌∷◌, ◌++◌, Text, text, ltb, length,
  map, if◌then◌else◌, same_text, exists, take, or_else,
}
use mifos_test.Models.{Tenant}

-- `str(n)`: one digit for each step of fuel, which `n` itself bounds.
unfoldable pub digits : ℕ → ℕ → Text
digits zero n = []
digits (suc fuel) n =
    let rest = digits fuel (n / 10) in
    if ltb n 10 then (48 + n) ∷ [] else rest ++ (48 + n % 10) ∷ []

abbrev pub decimal : ℕ → Text
decimal n = digits (suc n) n

-- The `while` loop from `code` on, with the codes that are taken; `none` if the fuel runs out.
unfoldable pub first_free : ℕ → Text → ℕ → Text → List Text → Option Text
unfolding digits same_text
first_free zero base suffix code taken = none
first_free (suc fuel) base suffix code taken =
    let rest = first_free fuel base (suffix + 1) (base ++ decimal (suffix + 1)) taken in
    if exists (same_text code) taken then rest else some code

-- `slugify(name)[:24] or "org"`, with `slugify` of Django
unfoldable pub base_code : (Text → Text) → Text → Text
base_code slugify name = or_else (take 24 (slugify name)) (text "org")

abbrev pub codes_of : List Tenant → List Text
codes_of tenants = map (λ (t : Tenant). t.tenant_code) tenants

-- The loop tries one code more than there are tenants.
unfoldable pub suggest_tenant_code : (Text → Text) → Text → List Tenant → Option Text
unfolding first_free base_code
suggest_tenant_code slugify name tenants =
    let base = base_code slugify name in
    first_free (suc (length (codes_of tenants))) base 1 base (codes_of tenants)
