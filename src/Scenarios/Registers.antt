-- ===== src/Scenarios/Registers.antt =====
-- Registrations, with the code of the tenant that is there taken.
use mifos_test.Prelude.{
  ◌≡◌, refl, true, false, some, none, [], ◌∷◌, Text, text, map, same_text, exists, lower,
}
use mifos_test.Exec.{ok}
use mifos_test.Exec.Post.{Post}
use mifos_test.Models.{OrgType, Tenant, TenantStatus}
use mifos_test.Organizations.{
  OrganizationForm, Session, suggest_tenant_code, create_organization, register_tenant,
}
use mifos_test.Organizations.Termination.{suggest_tenant_code-found}
use mifos_test.Organizations.Registration.{Registered, Refused, register_tenant-Registered}
use mifos_test.Scenarios.Toy.{toy, fresh, sacco, imara}

suggest_third :
    suggest_tenant_code
      (λ t. t)
      (text "imara")
      (imara ∷ record imara { tenant_code = text "imara2" } ∷ [])
    ≡ some (text "imara3")
unfolding suggest_tenant_code
suggest_third = refl

abbrev umoja : OrganizationForm
umoja = record {
  legal_name = text "Umoja Chama";
  org_type = OrgType.chama;
  registration_number = text "R2";
  contact_email = text "ceo@umoja.ke";
  contact_phone = text "2";
  subdomain = [];
}

abbrev no_session : Session
no_session = record { just_created_password = none; provisioning_error = none }

-- From the form to a tenant that is served.
create_umoja :
    let (r, w) = create_organization umoja no_session (fresh true true) in
    (r ≡ ok (record { just_created_password = some (12 ∷ 2 ∷ []); provisioning_error = none }))
    × (map (λ (t : Tenant). t.tenant_code) w.tenants ≡ text "imara" ∷ text "umojachama" ∷ [])
    × (map (λ (t : Tenant). t.status) w.tenants ≡ TenantStatus.pending ∷ TenantStatus.ready ∷ [])
unfolding create_organization
create_umoja = (refl, refl, refl)

suggest_tenant_code-found_example :
    (code : Text) × ((suggest_tenant_code lower (text "Imara") (imara ∷ []) ≡ some code)
      × (exists (same_text code) (text "imara" ∷ []) ≡ false))
suggest_tenant_code-found_example = suggest_tenant_code-found lower (text "Imara") (imara ∷ [])

register_tenant-Registered_example :
    (code : Text) × ((suggest_tenant_code
          (toy true).slugify
          (text "Imara")
          (fresh true true).tenants
        ≡ some code)
      × Post
          (register_tenant sacco (text "Imara") (fresh true true))
          (λ t w'. (t.tenant_code ≡ code) × Registered sacco (fresh true true) t w')
          (λ e w'. (w' ≡ fresh true true) × Refused code (fresh true true).tenants e))
register_tenant-Registered_example =
    register_tenant-Registered sacco (text "Imara") (fresh true true)
