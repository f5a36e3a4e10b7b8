-- ===== src/Fineract/Header.antt =====
-- Every call of a tenant's client carries the tenant.
use mifos_test.Prelude.{ℕ, Option, none, some, Text, ◌≡◌, refl}
use mifos_test.Json.{Json, Fields, end}
use mifos_test.Exec.{Result}
use mifos_test.Models.{Tenant}
use mifos_test.Env.{Env, Settings, HttpRequest, Method, get, post}
use mifos_test.World.{World}
use mifos_test.Fineract.Client.{
  FineractClient, fineract_client, interpret, outgoing, request, get_json, post_json,
}
use mifos_test.Fineract.Services.{ServiceCall, client_for_tenant, call_service, call_for_tenant}
use mifos_test.Fineract.Services.ServiceCall.{
  create_client, get_client, list_clients, apply_loan, approve_loan, disburse_loan,
  get_repayment_schedule, open_account, deposit, withdraw, enroll_member, assign_shares,
  post_journal_entry, get_trial_balance,
}

-- A client of that tenant, which signs in with the platform's password.
abbrev IsClientOf : Settings → Text → FineractClient → Type 0
IsClientOf settings identifier c =
    (c.tenant_identifier ≡ identifier) × (c.password ≡ settings.fineract_admin_password)

module _ {env : Env} where
  -- One request goes out for that tenant, with the platform's password, and its reply decides the
  -- result.
  pub record SendsFor (identifier : Text) (w : World env) (r : Result Json × World env)
      : Type 0 where
    pub sent : HttpRequest
    pub path : Text
    pub addressed : sent.tenant_header ≡ identifier
    pub password : sent.password ≡ env.settings.fineract_admin_password
    pub answered : r ≡ (
      interpret path (env.http_send sent w.net).0,
      record w { net = (env.http_send sent w.net).1 },
    )

  request-SendsFor :
      (c : FineractClient) (identifier : Text) (m : Method) (path : Text) (timeout : Option ℕ)
      (params : Fields) (body : Option Json) (w : World env)
      → IsClientOf env.settings identifier c
      → SendsFor identifier w (request c m path timeout params body w)
  unfolding request outgoing
  request-SendsFor c identifier m path timeout params body w (same, platform) = record {
    sent = outgoing env.settings c m path timeout params body;
    path = path;
    addressed = same;
    password = platform;
    answered = refl;
  }

  get_json-SendsFor :
      (c : FineractClient) (identifier path : Text) (params : Fields) (w : World env)
      → IsClientOf env.settings identifier c
      → SendsFor identifier w (get_json c path params w)
  unfolding get_json
  get_json-SendsFor c identifier path params w h =
      request-SendsFor c identifier get path none params none w h

  post_json-SendsFor :
      (c : FineractClient) (identifier path : Text) (body : Json) (w : World env)
      → IsClientOf env.settings identifier c
      → SendsFor identifier w (post_json c path body w)
  unfolding post_json
  post_json-SendsFor c identifier path body w h =
      request-SendsFor c identifier post path none end (some body) w h

  call_service-SendsFor :
      (c : FineractClient) (identifier : Text) (call : ServiceCall) (w : World env)
      → IsClientOf env.settings identifier c
      → SendsFor identifier w (call_service c call w)
  unfolding call_service
  call_service-SendsFor c identifier (create_client _ _ _) w h =
      post_json-SendsFor c identifier _ _ w h
  call_service-SendsFor c identifier (get_client _) w h = get_json-SendsFor c identifier _ _ w h
  call_service-SendsFor c identifier (list_clients _) w h = get_json-SendsFor c identifier _ _ w h
  call_service-SendsFor c identifier (apply_loan _ _ _ _) w h =
      post_json-SendsFor c identifier _ _ w h
  call_service-SendsFor c identifier (approve_loan _ _) w h =
      post_json-SendsFor c identifier _ _ w h
  call_service-SendsFor c identifier (disburse_loan _ _) w h =
      request-SendsFor c identifier _ _ _ _ _ w h
  call_service-SendsFor c identifier (get_repayment_schedule _) w h =
      get_json-SendsFor c identifier _ _ w h
  call_service-SendsFor c identifier (open_account _ _) w h =
      post_json-SendsFor c identifier _ _ w h
  call_service-SendsFor c identifier (deposit _ _ _) w h = post_json-SendsFor c identifier _ _ w h
  call_service-SendsFor c identifier (withdraw _ _ _) w h = post_json-SendsFor c identifier _ _ w h
  call_service-SendsFor c identifier (enroll_member _ _ _) w h =
      post_json-SendsFor c identifier _ _ w h
  call_service-SendsFor c identifier (assign_shares _ _ _) w h =
      post_json-SendsFor c identifier _ _ w h
  call_service-SendsFor c identifier (post_journal_entry _ _ _ _) w h =
      post_json-SendsFor c identifier _ _ w h
  call_service-SendsFor c identifier (get_trial_balance _) w h =
      get_json-SendsFor c identifier _ _ w h

  -- Whatever the banking services are asked for a tenant, one request goes out, with that tenant in
  -- its header and the platform's password, and the result is what its reply is read as.
  pub call_for_tenant-SendsFor :
      (t : Tenant) (call : ServiceCall) (w : World env)
      → SendsFor t.fineract_tenant_identifier w (call_for_tenant t call w)
  unfolding call_for_tenant client_for_tenant fineract_client
  call_for_tenant-SendsFor t call w =
      call_service-SendsFor _ t.fineract_tenant_identifier call w (refl, refl)
