-- ===== src/Registry/Run.antt =====
-- The provisioning runs keep the registry sound.
use mifos_test.Prelude.{ℕ, Bool, some, List, [], ◌∷◌, Text, arith}
use mifos_test.Exec.{Exec, Exn, modify}
use mifos_test.Exec.Keeps.{Keeps, Keeps-bind, keeps_rules}
use mifos_test.Models.{Tenant, ProvisionJob, Step, EncryptedCredential}
use mifos_test.Env.{Env, Statement}
use mifos_test.World.{World}
use mifos_test.Tenants.{TenantColumn}
use mifos_test.Provisioning.{
  Run, call, set_tenant, set_job, save, save_job, get_superuser_connection, execute, execute_unless,
  create_role_and_database, ensure_credential, store_password, create_database, grant_permissions,
  drop_quietly, drop_all, record_identifier, set_registration_error, register_in_fineract,
  register_admin_user, create_admin_user, undo_create_admin_user, undo_fineract_registration, undo,
  undo_each, execute_from,
}
use mifos_test.Registry.Tables.{
  Holds, delay-Holds, token_urlsafe-Holds, log-Holds, encrypt_secret-Holds, save_tenant-Holds,
  delay_quietly-Holds, create_tenant-Holds, delete_tenant-Holds, create_tenant_user-Holds,
  create_user-Holds, delete_users_of-Holds,
}

-- The registry of a run.
abbrev pub HoldsIn : {env : Env} → ℕ → Run env → Type 0
HoldsIn least s = Holds least s.world

module _ {env : Env} {least : ℕ} where
  pub call-HoldsIn :
      {A : Type 0} (m : Exec (World env) A)
      → Keeps (Holds {env = env} least) m
      → Keeps (HoldsIn {env = env} least) (call m)
  unfolding call
  call-HoldsIn m k = record { kept = λ s h. k.kept s.world h }

  pub save-HoldsIn : (cs : List TenantColumn) → Keeps (HoldsIn {env = env} least) (save cs)
  unfolding save call
  save-HoldsIn cs = record { kept = λ s h. (save_tenant-Holds cs s.tenant).kept s.world h }

  pub set_tenant-HoldsIn : (f : Tenant → Tenant) → Keeps (HoldsIn {env = env} least) (set_tenant f)
  set_tenant-HoldsIn f = record { kept = λ s h. h }

  pub set_job-HoldsIn :
      (f : ProvisionJob → ProvisionJob) → Keeps (HoldsIn {env = env} least) (set_job f)
  set_job-HoldsIn f = record { kept = λ s h. h }

  pub save_job-HoldsIn :
      (copy : ProvisionJob → ProvisionJob → ProvisionJob)
      → Keeps (HoldsIn {env = env} least) (save_job copy)
  unfolding save_job
  save_job-HoldsIn copy = record { kept = λ s h. h }

  pub connect-Holds : Keeps (Holds {env = env} least) get_superuser_connection
  unfolding get_superuser_connection
  connect-Holds = record { kept = λ w h. h }

  pub execute-Holds : (q : Statement) → Keeps (Holds {env = env} least) (execute q)
  unfolding execute
  execute-Holds q = record { kept = λ w h. h }

  execute_unless-Holds :
      (found : Bool) (q : Statement) → Keeps (Holds {env = env} least) (execute_unless found q)
  unfolding execute_unless
  execute_unless-Holds found q = search (keeps_rules, execute-Holds) depth 8

  role_and_database-Holds :
      (role password db : Text)
      → Keeps (Holds {env = env} least) (create_role_and_database role password db)
  unfolding create_role_and_database
  role_and_database-Holds role password db =
      search (keeps_rules, connect-Holds, execute-Holds, execute_unless-Holds) depth 8

  ensure_credential-Holds :
      (tenant : ℕ) → Keeps (Holds {env = env} least) (ensure_credential tenant)
  unfolding ensure_credential
  ensure_credential-Holds tenant = record { kept = λ w h. ground arith }

  modify_credentials-Holds :
      (f : World env → List EncryptedCredential)
      → Keeps (Holds {env = env} least) (modify λ (w : World env). record w { credentials = f w })
  modify_credentials-Holds f = record { kept = λ w h. h }

  store_password-Holds :
      (tenant : ℕ) (raw : Text) → Keeps (Holds {env = env} least) (store_password tenant raw)
  unfolding store_password
  store_password-Holds tenant raw =
      search (keeps_rules, encrypt_secret-Holds, modify_credentials-Holds) depth 8

  pub ruleset run_rules = (
    keeps_rules, call-HoldsIn, save-HoldsIn, set_tenant-HoldsIn, set_job-HoldsIn, save_job-HoldsIn,
    connect-Holds, execute-Holds, delay-Holds, token_urlsafe-Holds, log-Holds, delay_quietly-Holds,
  )

  pub create_database-HoldsIn : Keeps (HoldsIn {env = env} least) create_database
  unfolding create_database
  create_database-HoldsIn =
      search (run_rules, role_and_database-Holds, ensure_credential-Holds, store_password-Holds)
        depth 12

  pub grant_permissions-HoldsIn : Keeps (HoldsIn {env = env} least) grant_permissions
  unfolding grant_permissions
  grant_permissions-HoldsIn = search run_rules depth 8

  drop_quietly-Holds : (d : Text) → Keeps (Holds {env = env} least) (drop_quietly d)
  unfolding drop_quietly
  drop_quietly-Holds d = search (keeps_rules, execute-Holds) depth 8

  drop_all-HoldsIn : Keeps (HoldsIn {env = env} least) drop_all
  unfolding drop_all
  drop_all-HoldsIn = search (run_rules, drop_quietly-Holds) depth 8

  record_identifier-HoldsIn : Keeps (HoldsIn {env = env} least) record_identifier
  unfolding record_identifier
  record_identifier-HoldsIn = search run_rules depth 8

  registration_error-HoldsIn :
      (e : Exn) → Keeps (HoldsIn {env = env} least) (set_registration_error e)
  unfolding set_registration_error
  registration_error-HoldsIn e = record { kept = λ s h. h }

  pub register_in_fineract-HoldsIn : Keeps (HoldsIn {env = env} least) register_in_fineract
  unfolding register_in_fineract
  register_in_fineract-HoldsIn =
      search (run_rules, create_tenant-Holds, record_identifier-HoldsIn, registration_error-HoldsIn)
        depth 10

  register_admin_user-HoldsIn :
      (email password : Text)
      → Keeps (HoldsIn {env = env} least) (register_admin_user email password)
  unfolding register_admin_user
  register_admin_user-HoldsIn email password =
      search (run_rules, create_tenant_user-Holds, registration_error-HoldsIn) depth 8

  set_password-HoldsIn :
      (password : Text)
      → Keeps
          (HoldsIn {env = env} least)
          (modify λ (s : Run env). record s { last_created_password = some password })
  set_password-HoldsIn password = record { kept = λ s h. h }

  pub create_admin_user-HoldsIn : Keeps (HoldsIn {env = env} least) create_admin_user
  unfolding create_admin_user
  create_admin_user-HoldsIn =
      search (run_rules, create_user-Holds, register_admin_user-HoldsIn, set_password-HoldsIn) depth
        12

  undo_users-HoldsIn : Keeps (HoldsIn {env = env} least) undo_create_admin_user
  unfolding undo_create_admin_user
  undo_users-HoldsIn = search (run_rules, delete_users_of-Holds) depth 8

  undo_fineract-HoldsIn : Keeps (HoldsIn {env = env} least) undo_fineract_registration
  unfolding undo_fineract_registration
  undo_fineract-HoldsIn = search (run_rules, delete_tenant-Holds) depth 8

  undo-HoldsIn : (step : Step) → Keeps (HoldsIn {env = env} least) (undo step)
  unfolding undo
  undo-HoldsIn Step.create_admin_user = undo_users-HoldsIn
  undo-HoldsIn Step.register_fineract_tenant = undo_fineract-HoldsIn
  undo-HoldsIn Step.create_db_user = drop_all-HoldsIn
  undo-HoldsIn Step.create_db = drop_all-HoldsIn
  undo-HoldsIn _ = record { kept = λ s h. h }

  undo_each-HoldsIn : (steps : List Step) → Keeps (HoldsIn {env = env} least) (undo_each steps)
  unfolding undo_each
  undo_each-HoldsIn [] = record { kept = λ s h. h }
  undo_each-HoldsIn (step ∷ steps) =
      Keeps-bind (undo step) (λ _. undo_each steps) (undo-HoldsIn step)
        (λ _. undo_each-HoldsIn steps)

  pub execute_from-HoldsIn : (step : Step) → Keeps (HoldsIn {env = env} least) (execute_from step)
  unfolding execute_from
  execute_from-HoldsIn step = search (run_rules, undo_each-HoldsIn) depth 8
