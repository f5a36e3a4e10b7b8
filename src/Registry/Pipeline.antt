-- ===== src/Registry/Pipeline.antt =====
-- The two provisioning runs, step by step, keep the registry sound.
use mifos_test.Prelude.{ℕ, Bool, true, false, Text, arith, ltb, Bool-cases, inl, inr}
use mifos_test.Exec.{Exec, Exn, when, pure, ◌>>◌}
use mifos_test.Exec.Keeps.{Keeps, Keeps-bind, Keeps-when}
use mifos_test.Models.{Tenant, Step, TenantStatus}
use mifos_test.Env.{Statement, Env}
use mifos_test.World.{World}
use mifos_test.Tenants.{create_primary_domain}
use mifos_test.Provisioning.{
  Run, current_step_only, run_step, set_status, send_welcome_email, default_db_name, database_steps,
  application_steps, mark_ready, mark_done, attempt, fail_job, on_failure, run, unless_exists,
  registry_cursor, execute_on_registry, create_postgresql_database, ensure_primary_domain,
  task_steps, complete_job, attempt_task, record_failure, retry, on_task_failure,
  provision_tenant_database_task,
}
use mifos_test.Registry.Tables.{Holds, create_domain-Holds}
use mifos_test.Registry.Run.{
  HoldsIn, run_rules, set_job-HoldsIn, save_job-HoldsIn, create_database-HoldsIn,
  grant_permissions-HoldsIn, register_in_fineract-HoldsIn, create_admin_user-HoldsIn,
  execute_from-HoldsIn,
}

module _ {env : Env} {least : ℕ} where
  primary_domain-Holds : (t : Tenant) → Keeps (Holds {env = env} least) (create_primary_domain t)
  unfolding create_primary_domain
  primary_domain-Holds t = create_domain-Holds t _ true false

  set_status-HoldsIn :
      (status : TenantStatus) → Keeps (HoldsIn {env = env} least) (set_status status)
  unfolding set_status
  set_status-HoldsIn status = search run_rules depth 8

  run_step-HoldsIn :
      (step : Step) (fn : Exec (Run env) Unit)
      → Keeps (HoldsIn {env = env} least) fn
      → Keeps (HoldsIn {env = env} least) (run_step step fn)
  unfolding run_step
  run_step-HoldsIn step fn k =
      Keeps-bind _ _ (set_job-HoldsIn _)
        λ _. Keeps-bind _ _ (save_job-HoldsIn current_step_only) λ _. k

  send_welcome_email-HoldsIn : Keeps (HoldsIn {env = env} least) send_welcome_email
  unfolding send_welcome_email
  send_welcome_email-HoldsIn = search run_rules depth 8

  default_db_name-HoldsIn : Keeps (HoldsIn {env = env} least) default_db_name
  unfolding default_db_name
  default_db_name-HoldsIn = search run_rules depth 8

  mark_ready-HoldsIn : Keeps (HoldsIn {env = env} least) mark_ready
  unfolding mark_ready
  mark_ready-HoldsIn = search run_rules depth 8

  mark_done-HoldsIn : Keeps (HoldsIn {env = env} least) mark_done
  unfolding mark_done
  mark_done-HoldsIn = search run_rules depth 8

  database_steps-HoldsIn : Keeps (HoldsIn {env = env} least) database_steps
  unfolding database_steps
  database_steps-HoldsIn =
      search (run_rules, run_step-HoldsIn, create_database-HoldsIn, grant_permissions-HoldsIn) depth
        10

  application_steps-HoldsIn : Keeps (HoldsIn {env = env} least) application_steps
  unfolding application_steps
  application_steps-HoldsIn =
      search
        (
          run_rules, run_step-HoldsIn, register_in_fineract-HoldsIn, create_admin_user-HoldsIn,
          send_welcome_email-HoldsIn, primary_domain-Holds,
        )
        depth 12

  attempt-HoldsIn : Keeps (HoldsIn {env = env} least) attempt
  unfolding attempt
  attempt-HoldsIn =
      search
        (
          run_rules, database_steps-HoldsIn, set_status-HoldsIn, application_steps-HoldsIn,
          mark_ready-HoldsIn, mark_done-HoldsIn,
        )
        depth 10

  fail_job-HoldsIn : (e : Exn) → Keeps (HoldsIn {env = env} least) (fail_job e)
  unfolding fail_job
  fail_job-HoldsIn e = search run_rules depth 8

  on_failure-HoldsIn : (e : Exn) → Keeps (HoldsIn {env = env} least) (on_failure e)
  unfolding on_failure
  on_failure-HoldsIn e =
      search (run_rules, fail_job-HoldsIn, set_status-HoldsIn, execute_from-HoldsIn) depth 10

  pub run-HoldsIn : Keeps (HoldsIn {env = env} least) run
  unfolding run
  run-HoldsIn =
      search
        (
          run_rules, set_status-HoldsIn, default_db_name-HoldsIn, attempt-HoldsIn,
          on_failure-HoldsIn,
        )
        depth 10

  unless_exists-Holds : (e : Exn) → Keeps (Holds {env = env} least) (unless_exists e)
  unfolding unless_exists
  unless_exists-Holds e = record { kept = λ w h. ground arith }

  registry_cursor-Holds : Keeps (Holds {env = env} least) registry_cursor
  unfolding registry_cursor
  registry_cursor-Holds = record { kept = λ w h. h }

  on_registry-Holds : (q : Statement) → Keeps (Holds {env = env} least) (execute_on_registry q)
  unfolding execute_on_registry
  on_registry-Holds q = record { kept = λ w h. h }

  own_database-Holds : (d : Text) → Keeps (Holds {env = env} least) (create_postgresql_database d)
  unfolding create_postgresql_database
  own_database-Holds d =
      search (run_rules, registry_cursor-Holds, on_registry-Holds, unless_exists-Holds) depth 10

  ensured_Holds :
      (t : Tenant) (missing : Bool) (w : World env)
      → Holds least w
      → Holds least (when missing (create_primary_domain t >> pure tt) w).1
  ensured_Holds t missing w h =
      (Keeps-when {P = Holds least} missing (create_primary_domain t >> pure tt)
          (search (run_rules, primary_domain-Holds) depth 8)).kept
        w h

  ensure_domain-Holds : (t : Tenant) → Keeps (Holds {env = env} least) (ensure_primary_domain t)
  unfolding ensure_primary_domain
  ensure_domain-Holds t = record { kept = λ w h. ensured_Holds t _ w h }

  task_steps-HoldsIn : Keeps (HoldsIn {env = env} least) task_steps
  unfolding task_steps
  task_steps-HoldsIn =
      search (run_rules, run_step-HoldsIn, own_database-Holds, ensure_domain-Holds) depth 12

  complete_job-HoldsIn : Keeps (HoldsIn {env = env} least) complete_job
  unfolding complete_job
  complete_job-HoldsIn = search run_rules depth 8

  attempt_task-HoldsIn : Keeps (HoldsIn {env = env} least) attempt_task
  unfolding attempt_task
  attempt_task-HoldsIn =
      search (run_rules, task_steps-HoldsIn, mark_ready-HoldsIn, complete_job-HoldsIn) depth 8

  record_failure-HoldsIn :
      (n : ℕ) (e : Exn) → Keeps (HoldsIn {env = env} least) (record_failure n e)
  unfolding record_failure
  record_failure-HoldsIn n e = search run_rules depth 8

  retry-HoldsIn : (n : ℕ) (e : Exn) → Keeps (HoldsIn {env = env} least) (retry n e)
  unfolding retry
  retry-HoldsIn n e = elim (Bool-cases (ltb n 3)) [
    | inl again ↦ rw again (search run_rules depth 8)
    | inr over ↦ rw over (search run_rules depth 8)
  ]

  pub task-HoldsIn :
      (request_id : Text) (n : ℕ)
      → Keeps (HoldsIn {env = env} least) (provision_tenant_database_task request_id n)
  unfolding provision_tenant_database_task on_task_failure
  task-HoldsIn request_id n =
      search (run_rules, attempt_task-HoldsIn, record_failure-HoldsIn, retry-HoldsIn) depth 10
