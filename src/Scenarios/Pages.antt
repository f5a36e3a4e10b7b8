-- ===== src/Scenarios/Pages.antt =====
-- The dashboard's pages at concrete rows.
use mifos_test.Prelude.{ℕ, Text, All, ◌≡◌, refl, true, Option, none, some, List, [], ◌∷◌, text, map}
use mifos_test.Models.{Tenant, User, ProvisionJob, Step}
use mifos_test.World.{World}
use mifos_test.Organizations.{Session, may_use_dashboard}
use mifos_test.Dashboard.{
  Answer, page, to_login, ListPage, DetailPage, tenant_list, tenant_detail, detail_page,
  newest_first, port_of,
}
use mifos_test.Dashboard.Latest.{IsLatest, tenant_list-Latest}
use mifos_test.Dashboard.Reveal.{Shows, IsSilent, tenant_detail-Once}
use mifos_test.Scenarios.Toy.{toy, imara, blank_user}
use mifos_test.Scenarios.Resolve.{online}

abbrev staff : User
staff = record blank_user { is_platform_staff = true }

abbrev job_at : ℕ → ℕ → ℕ → ProvisionJob
job_at id tenant time = record {
  id = id;
  tenant = tenant;
  current_step = Step.validate;
  is_success = none;
  error_message = [];
  retry_count = 0;
  started_at = time;
  finished_at = none;
  celery_task_id = [];
}

-- Two tenants; the first has two jobs, and the second none.
abbrev busy : World (toy true)
busy = record online {
  tenants = imara ∷ record imara { id = 2; tenant_code = text "upendo" } ∷ [];
  jobs = job_at 81 1 200 ∷ job_at 80 1 100 ∷ [];
}

abbrev latest_ids : Answer ListPage → List (ℕ × Option ℕ)
latest_ids (page p) =
    map
      (λ (row : Tenant × Option ProvisionJob).
        (row.0.id, elim row.1 [ none ↦ none | some j ↦ some j.id ]))
      p.rows
latest_ids answer = []

listed :
    latest_ids (tenant_list (some staff) (text "bank.example:8000") busy)
    ≡ (2, none) ∷ (1, some 81) ∷ []
unfolding tenant_list may_use_dashboard
listed = refl

port : port_of (text "bank.example:8000") ≡ text "8000"
unfolding port_of
port = refl

tenant_list-Latest_example :
    (p : ListPage) × (tenant_list (some staff) (text "bank.example") busy ≡ page p)
    × (map (λ (row : Tenant × Option ProvisionJob). row.0) p.rows ≡ newest_first busy.tenants)
    × All (λ (row : Tenant × Option ProvisionJob). IsLatest busy row.0 row.1) p.rows
unfolding may_use_dashboard
tenant_list-Latest_example = tenant_list-Latest staff (text "bank.example") busy refl

abbrev just_created : Session
just_created = record { just_created_password = some (text "pw"); provisioning_error = none }

abbrev password_on : Answer DetailPage → Option Text
password_on (page p) = p.admin_password
password_on answer = none

-- The password of the tenant that was created is shown on the page of another one.
shown_elsewhere :
    password_on (tenant_detail (some staff) (text "bank.example") 2 just_created busy).0
    ≡ some (text "pw")
unfolding tenant_detail may_use_dashboard
shown_elsewhere = refl

-- Who is not staff sees no page, and the session keeps the password.
kept_for_staff :
    tenant_detail (some blank_user) (text "bank.example") 1 just_created busy
    ≡ (to_login, just_created)
unfolding tenant_detail may_use_dashboard
kept_for_staff = refl

tenant_detail-Once_example :
    Shows just_created 1 (tenant_detail (some staff) (text "bank.example") 1 just_created busy)
    × ((tenant_detail (some staff) (text "bank.example") 1 just_created busy).0
          ≡ page (detail_page (text "bank.example") just_created busy imara)
        → IsSilent
            (tenant_detail
              (some staff)
              (text "bank.example")
              2
              (tenant_detail (some staff) (text "bank.example") 1 just_created busy).1
              busy).0)
tenant_detail-Once_example =
    tenant_detail-Once (some staff) (some staff) (text "bank.example") (text "bank.example") 1 2
      just_created busy busy (detail_page (text "bank.example") just_created busy imara)
