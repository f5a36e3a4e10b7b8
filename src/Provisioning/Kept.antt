-- ===== src/Provisioning/Kept.antt =====
-- The rollback touches neither the tenant nor the job, as objects or as rows, whether or not the
-- outside services answer.
use mifos_test.Prelude.{ℕ, List, [], ◌∷◌, Text, arith}
use mifos_test.Exec.{Exec}
use mifos_test.Exec.Keeps.{Keeps, Keeps-bind, keeps_rules}
use mifos_test.Models.{Tenant, ProvisionJob, Step}
use mifos_test.Env.{Env, Statement}
use mifos_test.World.{World}
use mifos_test.Audit.{Entry, log}
use mifos_test.Authentication.{delete_users_of}
use mifos_test.Fineract.{delete_tenant}
use mifos_test.Provisioning.State.{Run, call}
use mifos_test.Provisioning.Database.{get_superuser_connection, execute, drop_quietly, drop_all}
use mifos_test.Provisioning.Registrar.{undo_fineract_registration}
use mifos_test.Provisioning.Rollback.{undo_create_admin_user, undo, undo_each, execute_from}

module _ {env : Env} (W : List Tenant → List ProvisionJob → Type 0) where
  -- A property of the two tables.
  abbrev OfTables : World env → Type 0
  OfTables w = W w.tenants w.jobs

  connect-OfTables : Keeps OfTables get_superuser_connection
  unfolding get_superuser_connection
  connect-OfTables = record { kept = λ w h. h }

  execute-OfTables : (q : Statement) → Keeps OfTables (execute q)
  unfolding execute
  execute-OfTables q = record { kept = λ w h. h }

  drop_quietly-OfTables : (d : Text) → Keeps OfTables (drop_quietly d)
  unfolding drop_quietly
  drop_quietly-OfTables d = search (keeps_rules, execute-OfTables) depth 8

  delete_users_of-OfTables : (id : ℕ) → Keeps OfTables (delete_users_of id)
  unfolding delete_users_of
  delete_users_of-OfTables id = record { kept = λ w h. h }

  log-OfTables : (e : Entry) → Keeps OfTables (log e)
  unfolding log
  log-OfTables e = record { kept = λ w h. h }

  delete_tenant-OfTables : (identifier : Text) → Keeps OfTables (delete_tenant identifier)
  unfolding delete_tenant
  delete_tenant-OfTables identifier = record { kept = λ w h. ground arith }

module _ {env : Env} (R : Tenant → ProvisionJob → List Tenant → List ProvisionJob → Type 0) where
  -- A property of the two objects and the two tables.
  abbrev pub OfRecords : Run env → Type 0
  OfRecords s = R s.tenant s.job s.world.tenants s.world.jobs

  call-OfRecords :
      {A : Type 0} (m : Exec (World env) A)
      → ((t : Tenant) (j : ProvisionJob) → Keeps (OfTables (R t j)) m)
      → Keeps OfRecords (call m)
  unfolding call
  call-OfRecords m k = record { kept = λ s h. (k s.tenant s.job).kept s.world h }

  ruleset records_rules = (
    keeps_rules, call-OfRecords, connect-OfTables, drop_quietly-OfTables, delete_users_of-OfTables,
    log-OfTables, delete_tenant-OfTables,
  )

  drop_all-OfRecords : Keeps OfRecords drop_all
  unfolding drop_all
  drop_all-OfRecords = search records_rules depth 8

  undo_users-OfRecords : Keeps OfRecords undo_create_admin_user
  unfolding undo_create_admin_user
  undo_users-OfRecords = search records_rules depth 8

  undo_fineract-OfRecords : Keeps OfRecords undo_fineract_registration
  unfolding undo_fineract_registration
  undo_fineract-OfRecords = search records_rules depth 8

  undo-OfRecords : (step : Step) → Keeps OfRecords (undo step)
  unfolding undo
  undo-OfRecords Step.create_admin_user = undo_users-OfRecords
  undo-OfRecords Step.register_fineract_tenant = undo_fineract-OfRecords
  undo-OfRecords Step.create_db_user = drop_all-OfRecords
  undo-OfRecords Step.create_db = drop_all-OfRecords
  undo-OfRecords _ = record { kept = λ s h. h }

  undo_each-OfRecords : (steps : List Step) → Keeps OfRecords (undo_each steps)
  unfolding undo_each
  undo_each-OfRecords [] = record { kept = λ s h. h }
  undo_each-OfRecords (step ∷ steps) =
      Keeps-bind (undo step) (λ _. undo_each steps) (undo-OfRecords step)
        (λ _. undo_each-OfRecords steps)

  pub execute_from-OfRecords : (step : Step) → Keeps OfRecords (execute_from step)
  unfolding execute_from
  execute_from-OfRecords step = search (records_rules, undo_each-OfRecords) depth 8
