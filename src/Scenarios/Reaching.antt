-- ===== src/Scenarios/Reaching.antt =====
-- A few requests, one after the other.
use mifos_test.Prelude.{◌≡◌, refl, true, arith, none, some, text, length, same_text}
use mifos_test.World.{World}
use mifos_test.Http.{Framework, view_response}
use mifos_test.Models.{User, Role, OrgType}
use mifos_test.Organizations.{OrganizationForm, Session, create_organization}
use mifos_test.Domains.{add_custom_domain}
use mifos_test.Registry.{Sound}
use mifos_test.Registry.Steps.{still, step, reachable-Sound, domain_added, organization_created}
use mifos_test.Scenarios.Toy.{toy, blank_user}
use mifos_test.Scenarios.Resolve.{online, ready_imara}

abbrev answers : Framework
answers = record {
  denied = view_response 403;
  missing = view_response 404;
  invalid = view_response 400;
  throttled = λ _. none;
}

abbrev manager : User
manager = record blank_user { tenant = some 1; role = Role.ceo }

abbrev application : OrganizationForm
application = record {
  legal_name = text "Juja";
  org_type = OrgType.sacco;
  registration_number = text "R2";
  contact_email = text "ceo@juja.ke";
  contact_phone = text "2";
  subdomain = text "juja";
}

abbrev no_session : Session
no_session = record { just_created_password = none; provisioning_error = none }

-- A custom domain is added, and then an organization is created and provisioned.
abbrev with_domain : World (toy true)
with_domain =
    (add_custom_domain answers.denied (some manager) (some ready_imara) (some (text "pesa.example"))
      online).1

abbrev with_organization : World (toy true)
with_organization = (create_organization application no_session with_domain).1

three_domains : length with_organization.domains ≡ 3
unfolding add_custom_domain create_organization same_text
three_domains = refl

online-Sound : Sound online
online-Sound = record {
  hostnames = (tt, tt);
  primaries = (tt, tt);
  emails = (tt, tt);
  apart = (tt, tt);
  older = (ground arith, tt);
  grown = ground arith;
}

reachable-Sound_example : Sound with_organization
reachable-Sound_example =
    reachable-Sound answers online with_organization
      (step online with_domain with_organization
        (domain_added (some manager) (some ready_imara) (some (text "pesa.example")))
        (step with_domain with_organization with_organization
          (organization_created application no_session) (still with_organization)))
      online-Sound
