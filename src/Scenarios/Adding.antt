-- ===== src/Scenarios/Adding.antt =====
-- Tenants that are added on their page.
use mifos_test.Prelude.{
  ◌≡◌, refl, false, true, none, some, [], ◌∷◌, text, map, same_text, capitalize,
}
use mifos_test.Exec.{pure}
use mifos_test.Exec.Post.{Post}
use mifos_test.Models.{Tenant, Domain}
use mifos_test.Administration.{TenantForm, clean, clean_admin_email, save_related}
use mifos_test.Administration.Saving.{Added, save_related-Added}
use mifos_test.Scenarios.Toy.{toy, imara}
use mifos_test.Scenarios.Resolve.{online}

-- The form as its fields were cleaned: two required columns are missing.
abbrev filled : TenantForm
filled = record {
  organization = none;
  tenant_code = some (text "juja");
  db_name = none;
  fineract_tenant_identifier = none;
  admin_email = some [];
  admin_password = some [];
  errors = text "db_name" ∷ text "fineract_tenant_identifier" ∷ [];
}

abbrev juja : Tenant
juja = record imara { id = 70; tenant_code = text "juja"; db_name = text "fineract_juja" }

abbrev cleaned : TenantForm
cleaned = clean (toy true).slugify online.users (clean_admin_email online.users filled)

-- The missing columns are filled, and their errors are gone.
cleaned_valid : cleaned.errors ≡ []
unfolding clean clean_admin_email same_text
cleaned_valid = refl

-- An address that somebody has is refused.
taken_address :
    (clean_admin_email online.users
      (record filled { admin_email = some (text "ceo@imara.ke") })).errors
    ≡ text "admin_email" ∷ filled.errors
unfolding clean_admin_email same_text
taken_address = refl

domain_made :
    map (λ (d : Domain). d.hostname) (save_related (pure tt) false cleaned juja online).1.domains
    ≡ text "imara.bank.example" ∷ text "juja.bank.example" ∷ []
unfolding clean clean_admin_email same_text save_related capitalize
domain_made = refl

save_related-Added_example :
    Post
      (save_related (pure tt) false cleaned juja online)
      (Added cleaned juja online)
      (λ _ w'. w'.users ≡ online.users)
unfolding clean clean_admin_email same_text
save_related-Added_example =
    save_related-Added (pure tt) filled juja online (λ _. (refl, refl)) refl refl refl
