-- ===== src/Provisioning/Task.antt =====
-- backend/provisioning/tasks.py: the task that the API queues. It creates the database and the
-- domain, and marks the tenant ready.
use mifos_test.Prelude.{
  Bool, ℕ, true, false, not, ◌&&◌, some, [], ◌∷◌, Text, text, ◌==◌, ltb, if◌then◌else◌, is_nonempty,
  exists, contains, lower,
}
use mifos_test.Exec.{Exec, Exn, external, value_error, pure, raise, gets, catch, when, ◌>>=◌, ◌>>◌}
use mifos_test.Models.{Tenant, TenantStatus, ProvisionJob, Step}
use mifos_test.Env.{Env, Task, Statement, create_own_database}
use mifos_test.World.{World, delay}
use mifos_test.Tenants.{TenantColumn, create_primary_domain}
use mifos_test.Provisioning.State.{Run, call, set_tenant, set_job, save, save_job}
use mifos_test.Provisioning.Pipeline.{run_step, mark_ready}

-- What the task's three saves of the job write.
abbrev pub celery_task_id_only : ProvisionJob → ProvisionJob → ProvisionJob
celery_task_id_only job row = record row { celery_task_id = job.celery_task_id }

abbrev pub completion : ProvisionJob → ProvisionJob → ProvisionJob
completion job row = record row {
  current_step = job.current_step;
  is_success = job.is_success;
  finished_at = job.finished_at;
}

abbrev pub failure : ProvisionJob → ProvisionJob → ProvisionJob
failure job row = record row {
  is_success = job.is_success;
  error_message = job.error_message;
  retry_count = job.retry_count;
}

module _ {env : Env} where
  -- The `except` of `_create_postgresql_database`
  unfoldable pub unless_exists : Exn → Exec (World env) Unit
  unfolding contains lower
  unless_exists e w =
      if contains (lower (env.exn_text e)) (text "already exists") then pure tt w else raise e w

  -- `connections["default"].cursor()`, and `execute` on that connection
  unfoldable pub registry_cursor : Exec (World env) Unit
  registry_cursor w = (env.registry_connect w.pg, w)

  unfoldable pub execute_on_registry : Statement → Exec (World env) Bool
  execute_on_registry q w = let (r, pg) = env.registry_execute q w.pg in (r, record w { pg = pg })

  -- `_create_postgresql_database`; the cursor is opened before the `try`.
  unfoldable pub create_postgresql_database : Text → Exec (World env) Unit
  unfolding registry_cursor execute_on_registry unless_exists catch ◌>>=◌
  create_postgresql_database db_name =
      registry_cursor
      >> catch (execute_on_registry (create_own_database db_name) >> pure tt) unless_exists

  -- `if not tenant.domains.filter(is_primary=True).exists(): …`
  unfoldable pub ensure_primary_domain : Tenant → Exec (World env) Unit
  unfolding create_primary_domain ◌>>=◌
  ensure_primary_domain t w =
      when (not (exists (λ d. d.tenant == t.id && d.is_primary) w.domains))
        (create_primary_domain t >> pure tt) w

  -- The steps of the `try` up to the change of status.
  unfoldable pub task_steps : Exec (Run env) Unit
  unfolding run_step call create_postgresql_database ensure_primary_domain ◌>>=◌
  task_steps = do
    t ← gets (λ s. s.tenant)
    run_step Step.validate
        (when (not (is_nonempty t.db_name)) (raise (value_error (text "no db_name defined"))))
    run_step Step.create_db (call (create_postgresql_database t.db_name))
    run_step Step.run_fineract_schema (pure tt)
    run_step Step.register_fineract_tenant (pure tt)
    run_step Step.activate (call (ensure_primary_domain t))

  unfoldable pub complete_job : Exec (Run env) Unit
  unfolding save_job ◌>>=◌
  complete_job = do
    now ← gets (λ s. s.world.now)
    set_job
        λ j. record j { current_step = Step.done; is_success = some true; finished_at = some now }
    save_job completion

  -- The `try`
  unfoldable pub attempt_task : Exec (Run env) Unit
  unfolding task_steps mark_ready complete_job ◌>>=◌
  attempt_task = task_steps >> (mark_ready >> complete_job)

  unfoldable pub record_failure : ℕ → Exn → Exec (Run env) Unit
  unfolding save_job save ◌>>=◌
  record_failure retries e = do
    set_job λ j. record j {
      is_success = some false;
      error_message = env.exn_text e;
      retry_count = retries;
    }
    save_job failure
    set_tenant λ t. record t { status = TenantStatus.failed; is_active = false }
    save (TenantColumn.status ∷ TenantColumn.is_active ∷ [])

  -- `raise self.retry(exc=exc, countdown=15)`, with `max_retries=3`: the job is queued again, or
  -- the exception is raised.
  unfoldable pub retry : ℕ → Exn → Exec (Run env) Unit
  unfolding call delay ◌>>=◌
  retry retries e =
      if ltb retries 3
      then (gets (λ s. s.job.id) >>= λ id.
          call (delay (Task.provision_tenant_database id)) >> raise (external (text "Retry")))
      else raise e

  -- The `except`
  unfoldable pub on_task_failure : ℕ → Exn → Exec (Run env) Unit
  unfolding record_failure retry ◌>>=◌
  on_task_failure retries e = record_failure retries e >> retry retries e

  -- `provision_tenant_database_task`, for a job that is there, on its attempt number `retries`
  unfoldable pub provision_tenant_database_task : Text → ℕ → Exec (Run env) Unit
  unfolding save_job attempt_task on_task_failure catch ◌>>=◌
  provision_tenant_database_task request_id retries = do
    set_job λ j. record j { celery_task_id = request_id }
    save_job celery_task_id_only
    catch attempt_task (on_task_failure retries)
