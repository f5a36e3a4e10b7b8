-- ===== src/Scenarios/Auditing.antt =====
-- Auditing a request at a concrete environment.
use mifos_test.Prelude.{◌≡◌, refl, some, none, text, true, false}
use mifos_test.Exec.{ok, pure}
use mifos_test.Http.{Request, Response}
use mifos_test.Audit.{audit_requests, is_audited}
use mifos_test.Audit.BestEffort.{IsTransparent, audit_requests-IsTransparent}
use mifos_test.Scenarios.Toy.{fresh, blank_user, imara}

abbrev to_suspend : Request
to_suspend = record {
  path = text "/api/v1/tenants/1/suspend";
  host = text "admin.bank.example";
  forwarded_for = none;
  remote_addr = some (text "10.0.0.1");
  tenant = some imara;
}

post_is_audited : is_audited (text "POST") (some blank_user) to_suspend ≡ true
unfolding is_audited
post_is_audited = refl

get_is_not : is_audited (text "GET") (some blank_user) to_suspend ≡ false
unfolding is_audited
get_is_not = refl

login_is_not :
    is_audited
      (text "POST")
      (some blank_user)
      (record to_suspend { path = text "/api/v1/auth/login/" })
    ≡ false
unfolding is_audited
login_is_not = refl

audit_requests-IsTransparent_example :
    IsTransparent
      (text "POST")
      (some blank_user)
      to_suspend
      (ok (Response.view_response 200), fresh true true)
      (audit_requests
        (pure (Response.view_response 200))
        (text "POST")
        (some blank_user)
        to_suspend
        (fresh true true))
audit_requests-IsTransparent_example =
    audit_requests-IsTransparent (pure (Response.view_response 200)) (text "POST") (some blank_user)
      to_suspend (fresh true true)
