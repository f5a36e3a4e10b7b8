-- ===== src/Provisioning/Started.antt =====
-- Wherever the pipeline stops, its job has entered a step past VALIDATE.
use mifos_test.Prelude.{◌≡◌, ◌≢◌, refl}
use mifos_test.Exec.{Exec, pure, gets, ◌>>=◌, ◌>>◌}
use mifos_test.Exec.Keeps.{
  Keeps, Ensures, Ensures-bind, Ensures-Keeps, Keeps-bind, Keeps-pure, keeps_rules,
}
use mifos_test.Models.{ProvisionJob, TenantStatus, Step}
use mifos_test.Env.{Env}
use mifos_test.Tenants.{create_primary_domain}
use mifos_test.Provisioning.State.{Run, call}
use mifos_test.Provisioning.Pipeline.{
  set_status, run_step, database_steps, application_steps, attempt, send_welcome_email, mark_ready,
  mark_done,
}
use mifos_test.Provisioning.Database.{create_database, grant_permissions}
use mifos_test.Provisioning.Registrar.{
  bootstrap_fineract_schema, register_in_fineract, create_admin_user,
}
use mifos_test.Provisioning.Frame.{
  create_database-OfJob, grant_permissions-OfJob, register_in_fineract-OfJob,
  create_admin_user-OfJob, set_status-OfJob, send_welcome_email-OfJob, call-OfJob, mark_ready-OfJob,
  OfJob,
}

abbrev pub Started : ProvisionJob → Type 0
Started j = j.current_step ≢ Step.validate

module _ {env : Env} where
  run_step-HasStarted :
      (step : Step) (fn : Exec (Run env) Unit)
      → step ≢ Step.validate
      → Keeps (OfJob Started) fn
      → Ensures (OfJob Started) (run_step step fn)
  unfolding run_step
  run_step-HasStarted step fn ne k = record { after = λ s. k.kept _ ne }

  pub database_steps-then : database_steps {env = env} ≡ (
      run_step Step.create_db create_database
      >> (run_step Step.create_db_user (pure tt)
          >> run_step Step.grant_permissions grant_permissions))
  unfolding database_steps
  database_steps-then = refl

  pub create_domain_step : Exec (Run env) Unit
  create_domain_step = do t ← gets (λ s. s.tenant); call (create_primary_domain t >> pure tt)

  pub application_steps-then : application_steps {env = env} ≡ (
      run_step Step.run_fineract_schema bootstrap_fineract_schema
      >> (run_step Step.register_fineract_tenant register_in_fineract
          >> (run_step Step.create_admin_user create_admin_user
              >> (run_step Step.send_welcome_email send_welcome_email
                  >> run_step Step.activate create_domain_step))))
  unfolding application_steps create_domain_step
  application_steps-then = refl

  create_domain_step-OfJob : Keeps (OfJob Started) create_domain_step
  unfolding create_domain_step
  create_domain_step-OfJob = search (keeps_rules, call-OfJob)

  bootstrap-OfJob : Keeps (OfJob Started) (bootstrap_fineract_schema {env = env})
  unfolding bootstrap_fineract_schema
  bootstrap-OfJob = record { kept = λ s h. h }

  database_steps-HasStarted : Ensures (OfJob Started) (database_steps {env = env})
  database_steps-HasStarted = rw database_steps-then (
      Ensures-bind _ _
        (run_step-HasStarted Step.create_db create_database (λ e. cc)
          (create_database-OfJob Started))
        (λ _.
          Keeps-bind _ _
            (Ensures-Keeps _
              (run_step-HasStarted Step.create_db_user (pure tt) (λ e. cc) (Keeps-pure tt)))
            (λ _. Ensures-Keeps _ (
              run_step-HasStarted Step.grant_permissions grant_permissions (λ e. cc)
                (grant_permissions-OfJob Started)))))

  step-HasStarted :
      (step : Step) (fn : Exec (Run env) Unit)
      → step ≢ Step.validate
      → Keeps (OfJob Started) fn
      → Keeps (OfJob Started) (run_step step fn)
  step-HasStarted step fn ne k = Ensures-Keeps _ (run_step-HasStarted step fn ne k)

  application_steps-HasStarted : Keeps (OfJob Started) (application_steps {env = env})
  application_steps-HasStarted = rw application_steps-then (
      Keeps-bind _ _ (step-HasStarted _ _ (λ e. cc) bootstrap-OfJob) (λ _.
        Keeps-bind _ _ (step-HasStarted _ _ (λ e. cc) (register_in_fineract-OfJob Started)) (λ _.
          Keeps-bind _ _ (step-HasStarted _ _ (λ e. cc) (create_admin_user-OfJob Started)) (λ _.
            Keeps-bind _ _ (step-HasStarted _ _ (λ e. cc) (send_welcome_email-OfJob Started))
              (λ _. step-HasStarted _ _ (λ e. cc) create_domain_step-OfJob)))))

  mark_done-HasStarted : Keeps (OfJob Started) (mark_done {env = env})
  unfolding mark_done
  mark_done-HasStarted = record { kept = λ s h e. cc }

  pub attempt-then : attempt {env = env} ≡ (
      database_steps
      >> (set_status TenantStatus.initializing >> (application_steps >> (mark_ready >> mark_done))))
  unfolding attempt
  attempt-then = refl

  -- Whenever the pipeline stops, the job has entered a step past VALIDATE.
  pub attempt-HasStarted : Ensures (OfJob Started) (attempt {env = env})
  attempt-HasStarted = rw attempt-then (
      Ensures-bind _ _ database_steps-HasStarted (λ _.
        Keeps-bind _ _ (set_status-OfJob Started TenantStatus.initializing) (λ _.
          Keeps-bind _ _ application_steps-HasStarted
            (λ _. Keeps-bind _ _ (mark_ready-OfJob Started) (λ _. mark_done-HasStarted)))))
