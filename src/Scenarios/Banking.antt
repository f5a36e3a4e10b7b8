-- ===== src/Scenarios/Banking.antt =====
-- Banking calls for a tenant at a concrete environment.
use mifos_test.Prelude.{◌≡◌, refl, text, true}
use mifos_test.Json.{num, str}
use mifos_test.Fineract.{call_for_tenant, client_for_tenant, fineract_client}
use mifos_test.Fineract.ServiceCall.{deposit}
use mifos_test.Fineract.Header.{SendsFor, call_for_tenant-SendsFor}
use mifos_test.Scenarios.Toy.{fresh, imara, served, toy_settings}

-- Without an administrator the client has the platform's name.
platform_name :
    (client_for_tenant imara (fresh true true)).username ≡ toy_settings.fineract_admin_username
unfolding client_for_tenant fineract_client
platform_name = refl

-- With one it has the administrator's address.
administrator_name : (client_for_tenant imara served).username ≡ text "ceo@imara.ke"
unfolding client_for_tenant fineract_client
administrator_name = refl

call_for_tenant-SendsFor_example :
    SendsFor
      (text "imara")
      served
      (call_for_tenant imara (deposit (text "12") (num 500) (str (text "01 May 2026"))) served)
call_for_tenant-SendsFor_example =
    call_for_tenant-SendsFor imara (deposit (text "12") (num 500) (str (text "01 May 2026"))) served
