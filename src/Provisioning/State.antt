-- ===== src/Provisioning/State.antt =====
-- The state of one ProvisioningService (backend/provisioning/services.py). `job.tenant` is one
-- Python object that the service, its DatabaseCreator, its TenantRegistrar and its RollbackManager
-- share; the rows of the registry change only when it is saved.
use mifos_test.Prelude.{Option, none, List, Text, ◌==◌, rewrite}
use mifos_test.Exec.{Exec, Result, modify}
use mifos_test.Models.{Organization, Tenant, ProvisionJob}
use mifos_test.Env.{Env}
use mifos_test.World.{World}
use mifos_test.Tenants.{TenantColumn, save_tenant}

-- `organization` is `tenant.organization`; the last two are fields of the TenantRegistrar.
pub record Run (env : Env) : Type 0 where
  pub world : World env
  pub open world use *
  pub tenant : Tenant
  pub organization : Organization
  pub job : ProvisionJob
  pub last_created_password : Option Text
  pub fineract_registration_error : Option Text

-- `ProvisioningService(job)`
abbrev pub start : {env : Env} → World env → Tenant → Organization → ProvisionJob → Run env
start world tenant organization job = record {
  world = world;
  tenant = tenant;
  organization = organization;
  job = job;
  last_created_password = none;
  fineract_registration_error = none;
}

module _ {env : Env} where
  -- A call that acts on the world and on none of the service's objects.
  unfoldable pub call : {A : Type 0} → Exec (World env) A → Exec (Run env) A
  call m s = let (r, w) = m s.world in (r, record s { world = w })

  -- Assignments to attributes of the tenant and of the job.
  abbrev pub set_tenant : (Tenant → Tenant) → Exec (Run env) Unit
  set_tenant f = modify (λ s. record s { tenant = f s.tenant })

  abbrev pub set_job : (ProvisionJob → ProvisionJob) → Exec (Run env) Unit
  set_job f = modify (λ s. record s { job = f s.job })

  -- `self.tenant.save(update_fields=cs)`
  unfoldable pub save : List TenantColumn → Exec (Run env) Unit
  unfolding call save_tenant
  save cs s = call (save_tenant cs s.tenant) s

  -- `self.job.save(…)`, by what it writes to the row
  unfoldable pub save_job : (ProvisionJob → ProvisionJob → ProvisionJob) → Exec (Run env) Unit
  save_job copy s = (
    Result.ok tt,
    record s {
      world = record s.world { jobs = rewrite (λ r. r.id == s.job.id) (copy s.job) s.world.jobs };
    },
  )

-- `save(update_fields=["current_step"])` and `save()`
abbrev pub current_step_only : ProvisionJob → ProvisionJob → ProvisionJob
current_step_only job row = record row { current_step = job.current_step }

abbrev pub every_column : ProvisionJob → ProvisionJob → ProvisionJob
every_column job row = job
