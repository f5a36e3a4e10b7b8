-- ===== src/Provisioning/Pipeline.antt =====
-- backend/provisioning/services.py: class ProvisioningService
use mifos_test.Prelude.{
  true, false, not, Option, none, some, [], ◌∷◌, ◌++◌, Text, text, is_nonempty, if◌then◌else◌,
}
use mifos_test.Exec.{Exn, Exec, pure, raise, gets, catch, when, ◌>>=◌, ◌>>◌}
use mifos_test.Models.{TenantStatus, Step}
use mifos_test.Env.{Env, Task}
use mifos_test.Tenants.{TenantColumn, delay_quietly, create_primary_domain}
use mifos_test.Provisioning.State.{
  Run, call, set_tenant, set_job, save, save_job, current_step_only, every_column,
}
use mifos_test.Provisioning.Database.{create_database, grant_permissions}
use mifos_test.Provisioning.Registrar.{
  bootstrap_fineract_schema, register_in_fineract, create_admin_user,
}
use mifos_test.Provisioning.Rollback.{execute_from}

-- The note that a job keeps when its tenant is ready without Fineract.
abbrev pub degraded_note : Text → Text
degraded_note error =
    text "Tenant is READY, but Fineract registration failed and can be retried later: " ++ error

-- `if error: job.error_message = …`
abbrev pub error_note : Option Text → Text → Text
error_note none old = old
error_note (some error) old = if is_nonempty error then degraded_note error else old

module _ {env : Env} where
  -- `self.tenant.status = status; self.tenant.save(update_fields=["status"])`
  unfoldable pub set_status : TenantStatus → Exec (Run env) Unit
  unfolding save ◌>>=◌
  set_status status = do
    set_tenant (λ t. record t { status = status })
    save (TenantColumn.status ∷ [])

  -- `_step(step, fn)`
  unfoldable pub run_step : Step → Exec (Run env) Unit → Exec (Run env) Unit
  unfolding save_job ◌>>=◌
  run_step step fn = do
    set_job (λ j. record j { current_step = step })
    save_job current_step_only
    fn

  -- `_send_welcome_email`
  unfoldable pub send_welcome_email : Exec (Run env) Unit
  unfolding delay_quietly call ◌>>=◌
  send_welcome_email = do
    t ← gets (λ s. s.tenant)
    call (delay_quietly (Task.send_welcome_email t.organization))

  -- The fallback of `run`: `db_name` is set where it is empty.
  unfoldable pub default_db_name : Exec (Run env) Unit
  unfolding save ◌>>=◌
  default_db_name = do
    t ← gets (λ s. s.tenant)
    when (not (is_nonempty t.db_name)) do
      set_tenant λ t. record t { db_name = text "tenant_" ++ t.tenant_code }
      save (TenantColumn.db_name ∷ [])

  -- The steps up to GRANT_PERMISSIONS, and those after it.
  unfoldable pub database_steps : Exec (Run env) Unit
  unfolding run_step create_database grant_permissions ◌>>=◌
  database_steps = do
    run_step Step.create_db create_database
    run_step Step.create_db_user (pure tt)
    run_step Step.grant_permissions grant_permissions

  unfoldable pub application_steps : Exec (Run env) Unit
  unfolding run_step bootstrap_fineract_schema register_in_fineract create_admin_user
      send_welcome_email create_primary_domain call ◌>>=◌
  application_steps = do
    run_step Step.run_fineract_schema bootstrap_fineract_schema
    run_step Step.register_fineract_tenant register_in_fineract
    run_step Step.create_admin_user create_admin_user
    run_step Step.send_welcome_email send_welcome_email
    run_step Step.activate do t ← gets (λ s. s.tenant); call (create_primary_domain t >> pure tt)

  -- `tenant` and `job` after the last step
  unfoldable pub mark_ready : Exec (Run env) Unit
  unfolding save ◌>>=◌
  mark_ready = do
    now ← gets (λ s. s.world.now)
    set_tenant
        λ t. record t { status = TenantStatus.ready; is_active = true; provisioned_at = some now }
    save (TenantColumn.status ∷ TenantColumn.is_active ∷ TenantColumn.provisioned_at ∷ [])

  unfoldable pub mark_done : Exec (Run env) Unit
  unfolding save_job ◌>>=◌
  mark_done = do
    now ← gets (λ s. s.world.now)
    error ← gets (λ s. s.fineract_registration_error)
    set_job λ j. record j {
      current_step = Step.done;
      is_success = some true;
      error_message = error_note error j.error_message;
      finished_at = some now;
    }
    save_job every_column

  -- The `try` of `run`, and its `except`, which raises again after the rollback.
  unfoldable pub attempt : Exec (Run env) Unit
  unfolding database_steps set_status application_steps mark_ready mark_done ◌>>=◌
  attempt = do
    database_steps
    set_status TenantStatus.initializing
    application_steps
    mark_ready
    mark_done

  unfoldable pub fail_job : Exn → Exec (Run env) Unit
  unfolding save_job ◌>>=◌
  fail_job e = do
    now ← gets (λ s. s.world.now)
    set_job λ j. record j {
      is_success = some false;
      error_message = env.exn_text e;
      finished_at = some now;
    }
    save_job every_column

  unfoldable pub on_failure : Exn → Exec (Run env) Unit
  unfolding fail_job set_status execute_from ◌>>=◌
  on_failure e = do
    fail_job e
    set_status TenantStatus.failed
    failed_step ← gets (λ s. s.job.current_step)
    execute_from failed_step
    raise e

  -- `ProvisioningService.run`
  unfoldable pub run : Exec (Run env) Unit
  unfolding set_status default_db_name attempt on_failure catch ◌>>=◌
  run = do set_status TenantStatus.provisioning; default_db_name; catch attempt on_failure
