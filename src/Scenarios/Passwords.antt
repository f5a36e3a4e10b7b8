-- ===== src/Scenarios/Passwords.antt =====
-- The strength check at concrete passwords.
use mifos_test.Prelude.{◌≡◌, refl, none, some, text, ◌↔◌}
use mifos_test.Authentication.{Weakness, validate}
use mifos_test.Authentication.Strength.{IsRepeated, Predictable, validate_iff}

backwards_refused : validate (text "xxREWQ1") ≡ some Weakness.password_sequential
unfolding validate
backwards_refused = refl

one_character_refused : validate (text "77777777") ≡ some Weakness.password_repeated
unfolding validate
one_character_refused = refl

three_in_a_row_accepted : validate (text "abc-ewq-789-Kes") ≡ none
unfolding validate
three_in_a_row_accepted = refl

validate_iff_example :
    ((validate (text "xxREWQ1") ≡ none)
      ↔ ((¬ IsRepeated (text "xxREWQ1")) × (¬ Predictable (text "xxREWQ1"))))
    × ((validate (text "xxREWQ1") ≡ some Weakness.password_repeated) ↔ IsRepeated (text "xxREWQ1"))
    × ((validate (text "xxREWQ1") ≡ some Weakness.password_sequential)
        ↔ ((¬ IsRepeated (text "xxREWQ1")) × Predictable (text "xxREWQ1")))
validate_iff_example = validate_iff (text "xxREWQ1")
