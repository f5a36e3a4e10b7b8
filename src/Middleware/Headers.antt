-- ===== src/Middleware/Headers.antt =====
-- The headers that harden an answer.
use mifos_test.Prelude.{
  true, [], ◌∷◌, ◌≡◌, inl, inr, ◌∙◌, Text, same_text_refl, lower, exists-append, Bool-cases, All,
  arith,
}
use mifos_test.Middleware.{Headers, has_header, set_default, set_defaults}

has_header-set_default :
    (n name value : Text) (headers : Headers)
    → has_header n headers ≡ true
    → has_header n (set_default name value headers) ≡ true
unfolding set_default
has_header-set_default n name value headers h = elim (Bool-cases (has_header name headers)) [
  | inl there ↦ rw there h
  | inr new ↦ rw new (exists-append _ headers _ ∙ ground (arith, h))
]

set_default-has_header :
    (name value : Text) (headers : Headers)
    → has_header name (set_default name value headers) ≡ true
unfolding set_default
set_default-has_header name value headers = elim (Bool-cases (has_header name headers)) [
  | inl there ↦ rw there there
  | inr new ↦ rw new (exists-append _ headers _ ∙ ground (arith, new, same_text_refl (lower name)))
]

has_header-set_defaults :
    (n : Text) (defaults headers : Headers)
    → has_header n headers ≡ true
    → has_header n (set_defaults defaults headers) ≡ true
has_header-set_defaults n [] headers h = h
has_header-set_defaults n ((name, value) ∷ rest) headers h =
    has_header-set_defaults n rest _ (has_header-set_default n name value headers h)

-- Every default is there in the end.
set_defaults-has_header :
    (defaults headers : Headers)
    → All (λ (d : Text × Text). has_header d.0 (set_defaults defaults headers) ≡ true) defaults
set_defaults-has_header [] headers = tt
set_defaults-has_header ((name, value) ∷ rest) headers = (
  has_header-set_defaults name rest _ (set_default-has_header name value headers),
  set_defaults-has_header rest (set_default name value headers),
)
