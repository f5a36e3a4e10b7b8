-- ===== src/Organizations/Register.antt =====
-- Registration: backend/organizations/views.py, and `create_organization` and `tenant_retry` of
-- backend/dashboard/views.py.
use mifos_test.Prelude.{
  ℕ, ◌+◌, Bool, true, false, ◌||◌, Option, none, some, [], ◌∷◌, ◌++◌, Text, text, ◌==◌, ltb, length,
  if◌then◌else◌, same_text, exists, find, rewrite, or_else,
}
use mifos_test.Exec.{
  Exec, integrity_error, data_error, does_not_exist, python_error, Result, ok, err, pure, raise,
  gets, modify, or_raise, when, ◌>>=◌, ◌>>◌,
}
use mifos_test.Models.{
  Organization, OrgType, Tenant, TenantStatus, ProvisionJob, Step, User, is_pending,
}
use mifos_test.Env.{Env, Task}
use mifos_test.World.{World, atomic, delay}
use mifos_test.Provisioning.{Run, start, run}
use mifos_test.Organizations.Codes.{suggest_tenant_code}

-- `CreateOrganizationForm.cleaned_data`
pub record OrganizationForm : Type 0 where
  pub legal_name : Text
  pub org_type : OrgType
  pub registration_number : Text
  pub contact_email : Text
  pub contact_phone : Text
  pub subdomain : Text

-- The two keys of the browser session that the dashboard sets.
pub record Session : Type 0 where
  pub just_created_password : Option Text
  pub provisioning_error : Option Text

-- `request.user.is_platform_staff or request.user.is_superuser`
unfoldable pub may_use_dashboard : User → Bool
may_use_dashboard u = u.is_platform_staff || u.is_superuser

abbrev pub organization_too_long : OrganizationForm → Bool
organization_too_long f =
    ltb 255 (length f.legal_name)
    || (ltb 100 (length f.registration_number)
        || (ltb 254 (length f.contact_email) || ltb 20 (length f.contact_phone)))

abbrev new_organization : ℕ → OrganizationForm → Organization
new_organization id f = record {
  id = id;
  legal_name = f.legal_name;
  trading_name = f.legal_name;
  org_type = f.org_type;
  registration_number = f.registration_number;
  country = text "KE";
  contact_email = f.contact_email;
  contact_phone = f.contact_phone;
  kyc_verified = true;
}

abbrev pub new_tenant : ℕ → Organization → Text → Tenant
new_tenant id org code = record {
  id = id;
  organization = org.id;
  tenant_code = code;
  db_name = text "tenant_" ++ code;
  db_user = [];
  db_host = text "localhost";
  db_port = 5432;
  fineract_tenant_identifier = code;
  status = TenantStatus.pending;
  is_active = false;
  provisioned_at = none;
  suspended_at = none;
  suspension_reason = [];
}

-- The three unique columns.
abbrev pub tenant_clashes : Tenant → Tenant → Bool
tenant_clashes t r =
    same_text r.tenant_code t.tenant_code
    || (same_text r.db_name t.db_name
        || same_text r.fineract_tenant_identifier t.fineract_tenant_identifier)

abbrev pub new_job : ℕ → Tenant → ℕ → ProvisionJob
new_job id t now = record {
  id = id;
  tenant = t.id;
  current_step = Step.validate;
  is_success = none;
  error_message = [];
  retry_count = 0;
  started_at = now;
  finished_at = none;
  celery_task_id = [];
}

module _ {env : Env} where
  -- `Organization.objects.create(…)`
  unfoldable pub create_organization_row : OrganizationForm → Exec (World env) Organization
  unfolding same_text
  create_organization_row f w =
      if organization_too_long f
      then raise (data_error (text "organizations_organization")) w
      else if exists (λ (o : Organization). same_text o.registration_number f.registration_number)
          w.organizations
      then raise (integrity_error (text "organizations_organization")) w
      else (
        ok (new_organization w.next_id f),
        record w {
          organizations = w.organizations ++ new_organization w.next_id f ∷ [];
          next_id = w.next_id + 1;
        },
      )

  -- `Tenant.objects.create(…)`; the receiver of the signal returns for a created row.
  unfoldable pub create_tenant_row : Organization → Text → Exec (World env) Tenant
  unfolding same_text
  create_tenant_row org code w =
      let t = new_tenant w.next_id org code in
      if ltb 32 (length code)
      then raise (data_error (text "tenants_tenant")) w
      else if exists (tenant_clashes t) w.tenants
      then raise (integrity_error (text "tenants_tenant")) w
      else (ok t, record w { tenants = w.tenants ++ t ∷ []; next_id = w.next_id + 1 })

  -- The tenant of a new organization, under a code made of `name`.
  unfoldable pub register_tenant : Organization → Text → Exec (World env) Tenant
  unfolding suggest_tenant_code create_tenant_row ◌>>=◌
  register_tenant org name =
      (λ w.
        or_raise (suggest_tenant_code env.slugify name w.tenants) (python_error (text "loop")) w)
      >>= λ code. create_tenant_row org code

  -- `ProvisionJob.objects.create(tenant=tenant)`
  unfoldable pub create_job : Tenant → Exec (World env) ProvisionJob
  create_job t w =
      let job = new_job w.next_id t w.now in
      (ok job, record w { jobs = w.jobs ++ job ∷ []; next_id = w.next_id + 1 })

  -- `service.run()` in its `try`; the handler is given what to do with the message.
  abbrev reported : (Session → Text → Session) → Session → Result (Unit {0}) → Run env → Session
  reported on_error session (ok u) s = record session {
    just_created_password = s.last_created_password;
  }
  reported on_error session (err e) s = on_error session (env.exn_text e)

  unfoldable pub run_job :
      (Session → Text → Session)
      → Session
      → Tenant
      → Organization
      → ProvisionJob
      → Exec (World env) Session
  unfolding run
  run_job on_error session t org job w =
      let (r, s) = run (start w t org job) in (ok (reported on_error session r s), s.world)

  -- `create_organization`, for a valid form that staff posts
  unfoldable pub create_organization : OrganizationForm → Session → Exec (World env) Session
  unfolding create_organization_row register_tenant create_job run_job ◌>>=◌
  create_organization f session = do
    org ← create_organization_row f
    t ← register_tenant org (or_else f.subdomain f.legal_name)
    job ← create_job t
    run_job (λ old e. record { just_created_password = none; provisioning_error = some e }) session
        t org job

  -- `tenant_retry`, for staff; the organization is the tenant's.
  unfoldable pub tenant_retry : ℕ → Session → Exec (World env) Session
  unfolding create_job run_job ◌>>=◌
  tenant_retry id session = do
    t ← λ w. or_raise (find (λ t. t.id == id) w.tenants) does_not_exist w
    job ← create_job t
    org ← λ w. or_raise (find (λ o. o.id == t.organization) w.organizations) does_not_exist w
    run_job (λ old e. record old { provisioning_error = some e }) session t org job

  -- `perform_create`, where `save` is what the serializer does
  unfoldable pub perform_create : Exec (World env) Organization → Exec (World env) Tenant
  unfolding register_tenant atomic ◌>>=◌
  perform_create save =
      atomic (save >>= λ org. register_tenant org (or_else org.trading_name org.legal_name))

  -- `run_provisioning.delay(job.id)` on a new job, as `verify_kyc` and the API's `provision` do
  unfoldable pub queue_provisioning : Tenant → Exec (World env) ProvisionJob
  unfolding create_job delay ◌>>=◌
  queue_provisioning t = do
    job ← create_job t
    delay (Task.provision_tenant_database job.id)
    pure job

  abbrev pub queue_if_pending : Option Tenant → Exec (World env) Unit
  queue_if_pending none = pure tt
  queue_if_pending (some t) = when (is_pending t.status) (queue_provisioning t >> pure tt)

  -- `verify_kyc`
  unfoldable pub verify_kyc : Organization → Exec (World env) Unit
  unfolding queue_provisioning ◌>>=◌
  verify_kyc org = do
    modify λ w. record w {
      organizations =
          rewrite (λ r. r.id == org.id) (λ r. record r { kyc_verified = true }) w.organizations;
    }
    t ← gets (λ w. find (λ t. t.organization == org.id) w.tenants)
    queue_if_pending t
