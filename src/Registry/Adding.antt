-- ===== src/Registry/Adding.antt =====
-- Registrations and domains keep the registry sound.
use mifos_test.Prelude.{
  ℕ, ◌+◌, ◌<◌, Bool, true, false, not, Option, none, some, [], ◌∷◌, Text, ◌==◌, refl, inl, inr,
  Bool-cases, exists, same_text, ltb, length, All-append, is_nonempty, arith,
}
use mifos_test.Exec.{Exec, Result, ok, err, pure, when, gaierror, ◌>>◌}
use mifos_test.Exec.Keeps.{Keeps, Keeps-when, keeps_rules}
use mifos_test.Models.{Organization, Tenant, User, Domain, ProvisionJob}
use mifos_test.Env.{Env}
use mifos_test.World.{World}
use mifos_test.Http.{Response, given, permitted}
use mifos_test.Organizations.{
  OrganizationForm, Session, organization_too_long, new_tenant, tenant_clashes,
  create_organization_row, create_tenant_row, register_tenant, create_job, run_job,
  create_organization, tenant_retry, queue_provisioning,
}
use mifos_test.Provisioning.{start}
use mifos_test.Domains.{register_domain, add_custom_domain, verify_custom_domain, confirm}
use mifos_test.Tenants
use mifos_test.Tenants.{create_domain, domains_of, generate_subdomain}
use mifos_test.Administration.{TenantForm, hand_over, make_admin, ceo_of, ensure_domain, save_new}
use mifos_test.Registry.Keys.{Unique-update, Unique-certified}
use mifos_test.Registry.Tables.{Holds, delay-Holds, create_domain-Holds, create_user-Holds}
use mifos_test.Registry.Columns.{added-Apart}
use mifos_test.Registry.Requests.{bumped}
use mifos_test.Registry.Pipeline.{run-HoldsIn}
use mifos_test.Registry.SigningIn.{or_raise-Holds}

module _ {env : Env} {least : ℕ} where
  organization_row-Holds :
      (f : OrganizationForm) → Keeps (Holds {env = env} least) (create_organization_row f)
  unfolding create_organization_row
  organization_row-Holds f = record {
    kept = λ w h. elim (Bool-cases (organization_too_long f)) [
      | inl long ↦ rw long h
      | inr fits ↦
          elim (Bool-cases (
            exists (λ (o : Organization). same_text o.registration_number f.registration_number)
              w.organizations)) [
                | inl taken ↦ rw (fits, taken) h
                | inr free ↦ rw (fits, free) (bumped w h)
              ]
    ];
  }

  tenant_row-Holds :
      (org : Organization) (code : Text)
      → Keeps (Holds {env = env} least) (create_tenant_row org code)
  unfolding create_tenant_row
  tenant_row-Holds org code = record {
    kept = λ w h. elim (Bool-cases (ltb 32 (length code))) [
      | inl long ↦ rw long h
      | inr fits ↦
          let t = new_tenant w.next_id org code in
          elim (Bool-cases (exists (tenant_clashes t) w.tenants)) [
            | inl clash ↦ rw (fits, clash) h
            | inr clear ↦
                rw (fits, clear)
                  (record {
                    hostnames = h.hostnames;
                    primaries = h.primaries;
                    emails = h.emails;
                    apart = added-Apart t w.tenants h.older clear h.apart;
                    older =
                        All-append (λ r. r.id < w.next_id + 1) w.tenants (t ∷ []) (bumped w h).older
                          (ground arith, tt);
                    grown = (bumped w h).grown;
                  })
          ]
    ];
  }

  register_tenant-Holds :
      (org : Organization) (name : Text)
      → Keeps (Holds {env = env} least) (register_tenant org name)
  unfolding register_tenant
  register_tenant-Holds org name = search (keeps_rules, or_raise-Holds, tenant_row-Holds) depth 8

  create_job-Holds : (t : Tenant) → Keeps (Holds {env = env} least) (create_job t)
  unfolding create_job
  create_job-Holds t = record { kept = λ w h. bumped w h }

  run_job-Holds :
      (on_error : Session → Text → Session) (session : Session) (t : Tenant) (org : Organization)
      (job : ProvisionJob)
      → Keeps (Holds {env = env} least) (run_job on_error session t org job)
  unfolding run_job
  run_job-Holds on_error session t org job = record {
    kept = λ w h. run-HoldsIn.kept (start w t org job) h;
  }

  pub create_organization-Holds :
      (f : OrganizationForm) (session : Session)
      → Keeps (Holds {env = env} least) (create_organization f session)
  unfolding create_organization
  create_organization-Holds f session =
      search
        (
          keeps_rules, organization_row-Holds, register_tenant-Holds, create_job-Holds,
          run_job-Holds,
        )
        depth 8

  pub tenant_retry-Holds :
      (id : ℕ) (session : Session) → Keeps (Holds {env = env} least) (tenant_retry id session)
  unfolding tenant_retry
  tenant_retry-Holds id session =
      search (keeps_rules, or_raise-Holds, create_job-Holds, run_job-Holds) depth 10

  pub queue_provisioning-Holds :
      (t : Tenant) → Keeps (Holds {env = env} least) (queue_provisioning t)
  unfolding queue_provisioning
  queue_provisioning-Holds t = search (keeps_rules, create_job-Holds, delay-Holds) depth 8

  custom_domain-Holds :
      (t : Tenant) (hostname : Text)
      → Keeps (Holds {env = env} least) (Tenants.add_custom_domain t hostname)
  unfolding Tenants.add_custom_domain
  custom_domain-Holds t hostname = create_domain-Holds t hostname false true

  register_domain-Holds :
      (t : Tenant) (hostname : Text) → Keeps (Holds {env = env} least) (register_domain t hostname)
  unfolding register_domain
  register_domain-Holds t hostname = search (keeps_rules, custom_domain-Holds, delay-Holds) depth 8

  pub permitted-Holds :
      (may : Bool) (denied : Response) (view : Exec (World env) Response)
      → Keeps (Holds {env = env} least) view
      → Keeps (Holds {env = env} least) (permitted may denied view)
  permitted-Holds true denied view k = k
  permitted-Holds false denied view k = record { kept = λ w h. h }

  pub given-Holds :
      {A : Type 0} (o : Option A) (answer : Response) (view : A → Exec (World env) Response)
      → ((a : A) → Keeps (Holds {env = env} least) (view a))
      → Keeps (Holds {env = env} least) (given o answer view)
  given-Holds none answer view k = record { kept = λ w h. h }
  given-Holds (some a) answer view k = k a

  pub add_custom_domain-Holds :
      (denied : Response) (user : Option User) (tenant : Option Tenant) (hostname : Option Text)
      → Keeps (Holds {env = env} least) (add_custom_domain denied user tenant hostname)
  unfolding add_custom_domain
  add_custom_domain-Holds denied user tenant hostname =
      search (keeps_rules, permitted-Holds, given-Holds, register_domain-Holds) depth 10

  confirm-Holds :
      (d : Domain) (r : Result (Unit {0})) → Keeps (Holds {env = env} least) (confirm d r)
  confirm-Holds d (ok u) = record {
    kept =
        λ w h. Unique-certified (λ r. r.id == d.id) least w.domains w.users w.tenants w.next_id h;
  }
  confirm-Holds d (err gaierror) = record { kept = λ w h. h }
  confirm-Holds d (err e) = record { kept = λ w h. h }

  confirmed-Holds :
      (d : Domain)
      → Keeps
          (Holds {env = env} least)
          (λ (w : World env). confirm d (env.gethostbyname d.hostname w.now) w)
  confirmed-Holds d = record { kept = λ w h. (confirm-Holds d _).kept w h }

  pub verify_custom_domain-Holds :
      (id : ℕ) → Keeps (Holds {env = env} least) (verify_custom_domain id)
  unfolding verify_custom_domain
  verify_custom_domain-Holds id = search (keeps_rules, or_raise-Holds, confirmed-Holds) depth 8

  hand_over-Holds :
      (t : Tenant) (password : Text) (u : User)
      → Keeps (Holds {env = env} least) (hand_over t password u)
  unfolding hand_over
  hand_over-Holds t password u = record {
    kept = λ w h.
        Unique-update (λ r. r.id == u.id) _ least w.domains w.users w.tenants w.next_id (λ _. refl)
          h;
  }

  make_admin-Holds :
      (t : Tenant) (email password : Text) (found : Option User)
      → Keeps (Holds {env = env} least) (make_admin t email password found)
  make_admin-Holds t email password none = create_user-Holds email password (ceo_of t)
  make_admin-Holds t email password (some u) = hand_over-Holds t password u

  ensured_Holds :
      (t : Tenant) (missing : Bool) (hostname : Text) (w : World env)
      → Holds least w
      → Holds least (when missing (create_domain t hostname true false >> pure tt) w).1
  ensured_Holds t missing hostname w h =
      (Keeps-when {P = Holds least} missing (create_domain t hostname true false >> pure tt)
          (search (keeps_rules, create_domain-Holds) depth 8)).kept
        w h

  ensure_domain-Holds : (t : Tenant) → Keeps (Holds {env = env} least) (ensure_domain t)
  unfolding ensure_domain
  ensure_domain-Holds t = record {
    kept = λ w h.
        ensured_Holds t (not (is_nonempty (domains_of t w)))
          (generate_subdomain env.settings t.tenant_code) w h;
  }

  pub save_new-Holds :
      (f : TenantForm) (t : Tenant) → Keeps (Holds {env = env} least) (save_new f t)
  unfolding save_new
  save_new-Holds f t =
      search (keeps_rules, make_admin-Holds, ensure_domain-Holds, create_job-Holds) depth 10
