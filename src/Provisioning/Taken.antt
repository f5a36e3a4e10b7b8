-- ===== src/Provisioning/Taken.antt =====
-- A run whose administrator's address is taken.
use mifos_test.Prelude.{ℕ, Bool, true, List, Text, ◌≡◌, inl, inr, arith, Bool-cases}
use mifos_test.Exec.{Exn, Exec}
use mifos_test.Exec.Keeps.{Keeps, keeps_rules}
use mifos_test.Models.{Organization, User, Tenant, TenantStatus, Step}
use mifos_test.Env.{Env, Statement}
use mifos_test.World.{World, token_urlsafe}
use mifos_test.Crypto.{encrypt_secret}
use mifos_test.Tenants.{TenantColumn, any_too_long, any_clash, save_tenant, write_columns}
use mifos_test.Tenants.SaveEffect.{on_tenant_status_change_lem}
use mifos_test.Fineract.{create_tenant}
use mifos_test.Authentication.{email_taken}
use mifos_test.Provisioning.State.{Run, call, set_tenant, save}
use mifos_test.Provisioning.Database.{
  get_superuser_connection, execute, execute_unless, create_role_and_database, ensure_credential,
  store_password, create_database, grant_permissions,
}
use mifos_test.Provisioning.Registrar.{
  record_identifier, set_registration_error, register_in_fineract,
}
use mifos_test.Provisioning.Pipeline.{run_step, set_status, default_db_name}

-- The organization's address belongs to an account.
abbrev pub IsTaken : Env → Organization → List User → Type 0
IsTaken env org users = email_taken (env.normalize_email org.contact_email) users ≡ true

module _ {env : Env} where
  abbrev HasTaken : Organization → World env → Type 0
  HasTaken org w = IsTaken env org w.users

  abbrev pub RunTaken : Run env → Type 0
  RunTaken s = IsTaken env s.organization s.world.users

  module _ (org : Organization) where
    connect-HasTaken : Keeps (HasTaken org) get_superuser_connection
    unfolding get_superuser_connection
    connect-HasTaken = record { kept = λ w h. h }

    execute-HasTaken : (q : Statement) → Keeps (HasTaken org) (execute q)
    unfolding execute
    execute-HasTaken q = record { kept = λ w h. h }

    token-HasTaken : (n : ℕ) → Keeps (HasTaken org) (token_urlsafe n)
    unfolding token_urlsafe
    token-HasTaken n = record { kept = λ w h. h }

    encrypt-HasTaken : (raw : Text) → Keeps (HasTaken org) (encrypt_secret raw)
    unfolding encrypt_secret
    encrypt-HasTaken raw = record { kept = λ w h. ground arith }

    ensure-HasTaken : (id : ℕ) → Keeps (HasTaken org) (ensure_credential id)
    unfolding ensure_credential
    ensure-HasTaken id = record { kept = λ w h. ground arith }

    create_tenant-HasTaken :
        (identifier name host db : Text)
        → Keeps (HasTaken org) (create_tenant identifier name host db)
    unfolding create_tenant
    create_tenant-HasTaken identifier name host db = record { kept = λ w h. ground arith }

    save_tenant-HasTaken :
        (cs : List TenantColumn) (t : Tenant) → Keeps (HasTaken org) (save_tenant cs t)
    unfolding save_tenant
    save_tenant-HasTaken cs t = record {
      kept = λ w h. elim (Bool-cases (any_too_long cs t)) [
        | inl long ↦ rw long h
        | inr fits ↦ elim (Bool-cases (any_clash cs t w.tenants)) [
          | inl clash ↦ rw (fits, clash) h
          | inr free ↦ rw (fits, free, on_tenant_status_change_lem t (write_columns cs t w)) h
        ]
      ];
    }

    store-HasTaken : (id : ℕ) (raw : Text) → Keeps (HasTaken org) (store_password id raw)
    unfolding store_password
    store-HasTaken id raw = record { kept = λ w h. ground arith }

  call-RunTaken :
      {A : Type 0} (m : Exec (World env) A)
      → ((org : Organization) → Keeps (HasTaken org) m)
      → Keeps RunTaken (call m)
  unfolding call
  call-RunTaken m k = record { kept = λ s h. (k s.organization).kept s.world h }

  save-RunTaken : (cs : List TenantColumn) → Keeps RunTaken (save cs)
  unfolding save
  save-RunTaken cs = record {
    kept = λ s h.
        (call-RunTaken (save_tenant cs s.tenant) (λ org. save_tenant-HasTaken org cs s.tenant)).kept
          s h;
  }

  set_tenant-RunTaken : (f : Tenant → Tenant) → Keeps RunTaken (set_tenant f)
  set_tenant-RunTaken f = record { kept = λ s h. h }

  set_registration_error-RunTaken : (e : Exn) → Keeps RunTaken (set_registration_error e)
  unfolding set_registration_error
  set_registration_error-RunTaken e = record { kept = λ s h. h }

  execute_unless-HasTaken :
      (found : Bool) (q : Statement) (org : Organization)
      → Keeps (HasTaken org) (execute_unless found q)
  unfolding execute_unless
  execute_unless-HasTaken found q org = search (keeps_rules, execute-HasTaken) depth 8

  create_role_and_database-HasTaken :
      (role password db : Text) (org : Organization)
      → Keeps (HasTaken org) (create_role_and_database role password db)
  unfolding create_role_and_database
  create_role_and_database-HasTaken role password db org =
      search (keeps_rules, connect-HasTaken, execute-HasTaken, execute_unless-HasTaken) depth 12

  ruleset taken_rules = (
    keeps_rules, call-RunTaken, save-RunTaken, set_tenant-RunTaken, set_registration_error-RunTaken,
    connect-HasTaken, execute-HasTaken, token-HasTaken, ensure-HasTaken, store-HasTaken,
    create_tenant-HasTaken, create_role_and_database-HasTaken,
  )

  pub create_database-RunTaken : Keeps RunTaken create_database
  unfolding create_database
  create_database-RunTaken = search taken_rules depth 14

  pub grant_permissions-RunTaken : Keeps RunTaken grant_permissions
  unfolding grant_permissions
  grant_permissions-RunTaken = search taken_rules depth 10

  record_identifier-RunTaken : Keeps RunTaken record_identifier
  unfolding record_identifier
  record_identifier-RunTaken = search taken_rules depth 8

  pub register_in_fineract-RunTaken : Keeps RunTaken register_in_fineract
  unfolding register_in_fineract
  register_in_fineract-RunTaken = search (taken_rules, record_identifier-RunTaken) depth 10

  pub set_status-RunTaken : (status : TenantStatus) → Keeps RunTaken (set_status status)
  unfolding set_status
  set_status-RunTaken status = search taken_rules depth 8

  pub default_db_name-RunTaken : Keeps RunTaken default_db_name
  unfolding default_db_name
  default_db_name-RunTaken = search taken_rules depth 10

  pub run_step-RunTaken :
      (step : Step) (fn : Exec (Run env) Unit)
      → Keeps RunTaken fn
      → Keeps RunTaken (run_step step fn)
  unfolding run_step
  run_step-RunTaken step fn k = record { kept = λ s h. k.kept _ h }

  pub token-RunTaken : (n : ℕ) → Keeps RunTaken (call (token_urlsafe n))
  token-RunTaken n = search taken_rules depth 6
