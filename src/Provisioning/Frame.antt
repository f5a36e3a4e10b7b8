-- ===== src/Provisioning/Frame.antt =====
-- The steps of the pipeline act on the job only through `run_step`: each leaves the job's object
-- alone.
use mifos_test.Prelude.{some, List, Text, ◌≢◌}
use mifos_test.Exec.{Exn, Exec, modify}
use mifos_test.Exec.Keeps.{Keeps, keeps_rules}
use mifos_test.Models.{Tenant, ProvisionJob, TenantStatus, Step}
use mifos_test.Env.{Env}
use mifos_test.World.{World}
use mifos_test.Tenants.{TenantColumn}
use mifos_test.Provisioning.State.{Run, call, set_tenant, save}
use mifos_test.Provisioning.Database.{create_database, grant_permissions}
use mifos_test.Provisioning.Registrar.{
  record_identifier, set_registration_error, register_in_fineract, register_admin_user,
  create_admin_user,
}
use mifos_test.Provisioning.Pipeline.{set_status, send_welcome_email, mark_ready}

module _ {env : Env} (J : ProvisionJob → Type 0) where
  -- The property of a run that its job has `J`.
  abbrev pub OfJob : Run env → Type 0
  OfJob s = J s.job

  pub call-OfJob : {A : Type 0} (m : Exec (World env) A) → Keeps OfJob (call m)
  unfolding call
  call-OfJob m = record { kept = λ s h. h }

  save-OfJob : (cs : List TenantColumn) → Keeps OfJob (save cs)
  unfolding save
  save-OfJob cs = record { kept = λ s h. h }

  set_tenant-OfJob : (f : Tenant → Tenant) → Keeps OfJob (set_tenant f)
  set_tenant-OfJob f = record { kept = λ s h. h }

  set_registration_error-OfJob : (e : Exn) → Keeps OfJob (set_registration_error e)
  unfolding set_registration_error
  set_registration_error-OfJob e = record { kept = λ s h. h }

  ruleset job_rules =
      (keeps_rules, call-OfJob, save-OfJob, set_tenant-OfJob, set_registration_error-OfJob)

  pub create_database-OfJob : Keeps OfJob create_database
  unfolding create_database
  create_database-OfJob = search job_rules depth 12

  pub grant_permissions-OfJob : Keeps OfJob grant_permissions
  unfolding grant_permissions
  grant_permissions-OfJob = search job_rules depth 8

  record_identifier-OfJob : Keeps OfJob record_identifier
  unfolding record_identifier
  record_identifier-OfJob = search job_rules depth 8

  pub register_in_fineract-OfJob : Keeps OfJob register_in_fineract
  unfolding register_in_fineract
  register_in_fineract-OfJob = search (job_rules, record_identifier-OfJob) depth 8

  register_admin_user-OfJob :
      (email password : Text) → Keeps OfJob (register_admin_user email password)
  unfolding register_admin_user
  register_admin_user-OfJob email password = search job_rules depth 8

  set_password-OfJob :
      (password : Text)
      → Keeps OfJob (modify λ (s : Run env). record s { last_created_password = some password })
  set_password-OfJob password = record { kept = λ s h. h }

  pub create_admin_user-OfJob : Keeps OfJob create_admin_user
  unfolding create_admin_user
  create_admin_user-OfJob =
      search (job_rules, register_admin_user-OfJob, set_password-OfJob) depth 12

  pub set_status-OfJob : (status : TenantStatus) → Keeps OfJob (set_status status)
  unfolding set_status
  set_status-OfJob status = search job_rules depth 8

  pub send_welcome_email-OfJob : Keeps OfJob send_welcome_email
  unfolding send_welcome_email
  send_welcome_email-OfJob = search job_rules depth 8

  pub mark_ready-OfJob : Keeps OfJob mark_ready
  unfolding mark_ready
  mark_ready-OfJob = search job_rules depth 8

-- The job has entered a step of the pipeline.
abbrev pub HasStarted : {env : Env} → Run env → Type 0
HasStarted s = s.job.current_step ≢ Step.validate
