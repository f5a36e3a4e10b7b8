-- ===== src/Administration.antt =====
-- backend/tenants/admin.py: the form that adds a tenant, and what saving it does.
pub mod Cleaning
pub mod Parts
pub mod Saving
use mifos_test.Prelude.{
  zero, suc, ◌+◌, Bool, true, false, not, Option, none, some, List, [], ◌∷◌, ◌++◌, Text, text, ◌==◌,
  if◌then◌else◌, same_text, find, keep, rewrite, or_else, is_nonempty, capitalize,
}
use mifos_test.Exec.{Exec, ok, pure, gets, when, ◌>>=◌, ◌>>◌}
use mifos_test.Models.{Organization, Tenant, TenantStatus, User, Role, ProvisionJob}
use mifos_test.Env.{Env, Settings, Task}
use mifos_test.World.{World, atomic}
use mifos_test.Tenants.{domains_of, generate_subdomain, create_domain}
use mifos_test.Authentication.{email_taken, create_user, no_extra_fields, ExtraFields}
use mifos_test.Organizations.{base_code, create_job}

-- The cleaned data of `TenantAdminForm`, as far as the code reads it, with the names of the fields
-- that have an error. A field that failed has no cleaned value.
pub record TenantForm : Type 0 where
  pub organization : Option Organization
  pub tenant_code : Option Text
  pub db_name : Option Text
  pub fineract_tenant_identifier : Option Text
  pub admin_email : Option Text
  pub admin_password : Option Text
  pub errors : List Text

abbrev pub default_email : Text → Text
default_email tenant_code = text "admin@" ++ tenant_code ++ text ".com"

-- `self.add_error("admin_email", …)`: the field loses its cleaned value.
abbrev pub refuse_email : TenantForm → TenantForm
refuse_email f = record f { admin_email = none; errors = text "admin_email" ∷ f.errors }

-- `self.errors.pop(name, None)`
abbrev pub pop_error : Text → List Text → List Text
pop_error name errors = keep (λ e. not (same_text e name)) errors

-- `clean_admin_email`
unfoldable pub clean_admin_email : List User → TenantForm → TenantForm
clean_admin_email users f = elim f.admin_email [
  | none ↦ f
  | some [] ↦ f
  | some (c ∷ s) ↦ if email_taken (c ∷ s) users then refuse_email f else f
]

-- The tenant's code, by the organization's name where it is empty
abbrev pub fall_back_code :
    (Text → Text) → TenantForm → Option Text → Option Organization → TenantForm
fall_back_code slugify f (some (c ∷ s)) org = f
fall_back_code slugify f code (some org) = record f {
  tenant_code = some (base_code slugify org.legal_name);
}
fall_back_code slugify f code none = f

-- The address that stands in for an empty one has to be free too.
abbrev pub check_default : List User → TenantForm → Option Text → Option Text → TenantForm
check_default users f (some (c ∷ s)) (some (d ∷ t)) = f
check_default users f (some (c ∷ s)) email =
    if email_taken (default_email (c ∷ s)) users then refuse_email f else f
check_default users f code email = f

abbrev pub fill_db_name : Text → TenantForm → Option Text → TenantForm
fill_db_name code f (some (c ∷ s)) = f
fill_db_name code f name = record f {
  db_name = some (text "fineract_" ++ code);
  errors = pop_error (text "db_name") f.errors;
}

abbrev pub fill_identifier : Text → TenantForm → Option Text → TenantForm
fill_identifier code f (some (c ∷ s)) = f
fill_identifier code f name = record f {
  fineract_tenant_identifier = some code;
  errors = pop_error (text "fineract_tenant_identifier") f.errors;
}

abbrev pub fill_columns : TenantForm → Option Text → TenantForm
fill_columns f (some (c ∷ s)) =
    let named = fill_db_name (c ∷ s) f f.db_name in
    fill_identifier (c ∷ s) named named.fineract_tenant_identifier
fill_columns f code = f

-- `clean`
unfoldable pub clean : (Text → Text) → List User → TenantForm → TenantForm
clean slugify users f =
    let coded = fall_back_code slugify f f.tenant_code f.organization in
    let checked = check_default users coded coded.tenant_code f.admin_email in
    fill_columns checked checked.tenant_code

-- `form.cleaned_data.get("admin_email") or f"admin@{tenant.tenant_code}.com"`
abbrev pub address : Option Text → Text → Text
address none tenant_code = default_email tenant_code
address (some email) tenant_code = or_else email (default_email tenant_code)

abbrev pub first_password : Option Text → Text
first_password none = text "ChangeMe123!"
first_password (some password) = or_else password (text "ChangeMe123!")

-- The columns that `save_model` fills for a new tenant.
abbrev pub with_defaults : Settings → Tenant → Tenant
with_defaults settings t = record t {
  db_host = or_else t.db_host settings.registry_db_host;
  db_port = elim t.db_port [ zero ↦ settings.registry_db_port | suc n ↦ suc n ];
  status = TenantStatus.pending;
}

abbrev pub ceo_of : Tenant → ExtraFields
ceo_of t = record no_extra_fields {
  tenant = some t.id;
  role = Role.ceo;
  first_name = capitalize t.tenant_code ++ text " Admin";
}

-- What `save_related` leaves to do: the account for its message, and the task that runs once the
-- transaction is committed.
pub record Saved : Type 0 where
  pub admin : User
  pub job : ProvisionJob
  pub on_commit : Task

module _ {env : Env} where
  -- `save_model`, where `save` is the framework's
  unfoldable pub save_model :
      (Tenant → Exec (World env) Unit) → Bool → Tenant → Exec (World env) Unit
  save_model save true t = save t
  save_model save false t = save (with_defaults env.settings t)

  -- The columns `tenant` and `password` of an account that has the address already
  unfoldable pub hand_over : Tenant → Text → User → Exec (World env) User
  hand_over t password u w =
      let v : User = record u {
        tenant = some t.id;
        password = env.make_password w.draws password;
      } in
      (
        ok v,
        record w {
          users =
              rewrite (λ r. r.id == u.id)
                (λ r. record r { tenant = v.tenant; password = v.password }) w.users;
          draws = w.draws + 1;
        },
      )

  abbrev pub make_admin : Tenant → Text → Text → Option User → Exec (World env) User
  make_admin t email password none = create_user email password (ceo_of t)
  make_admin t email password (some u) = hand_over t password u

  -- `if not tenant.domains.exists()`
  unfoldable pub ensure_domain : Tenant → Exec (World env) Unit
  unfolding create_domain generate_subdomain ◌>>=◌
  ensure_domain t w =
      when (not (is_nonempty (domains_of t w)))
        (create_domain t (generate_subdomain env.settings t.tenant_code) true false >> pure tt) w

  -- The block of `save_related` for a new tenant
  unfoldable pub save_new : TenantForm → Tenant → Exec (World env) Saved
  unfolding create_user hand_over ensure_domain create_job ◌>>=◌
  save_new f t =
      let email = address f.admin_email t.tenant_code in
      do
        found ← gets (λ w. find (λ u. same_text u.email email) w.users)
        admin ← make_admin t email (first_password f.admin_password) found
        ensure_domain t
        job ← create_job t
        pure
            (record { admin = admin; job = job; on_commit = Task.provision_tenant_database job.id })

  -- `save_related`, where `related` is the framework's
  unfoldable pub save_related :
      Exec (World env) Unit → Bool → TenantForm → Tenant → Exec (World env) (Option Saved)
  unfolding save_new atomic ◌>>=◌
  save_related related true f t = related >> pure none
  save_related related false f t = related >> (atomic (save_new f t) >>= λ saved. pure (some saved))
