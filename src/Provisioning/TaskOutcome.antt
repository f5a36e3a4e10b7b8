-- ===== src/Provisioning/TaskOutcome.antt =====
-- How the queued task ends.
use mifos_test.Prelude.{
  ℕ, true, false, some, List, [], ◌∷◌, ◌≡◌, inl, inr, refl, ◌==◌, ==_iff, ltb, Bool-cases, rewrite,
  All, All-rewrite, Text, text,
}
use mifos_test.Exec.{Exn, external, catch, ◌>>=◌, ◌>>◌}
use mifos_test.Exec.Post.{Post, Post-bind, Post-catch, Post-weaken, Post-then, Post-raise}
use mifos_test.Models.{Tenant, ProvisionJob, TenantStatus, Step}
use mifos_test.Env.{Env, Task}
use mifos_test.World.{delay}
use mifos_test.Tenants.{TenantColumn, copy_columns}
use mifos_test.Provisioning.State.{Run, call, save}
use mifos_test.Provisioning.Pipeline.{mark_ready}
use mifos_test.Provisioning.Task.{
  celery_task_id_only, failure, task_steps, complete_job, attempt_task, record_failure, retry,
  on_task_failure, provision_tenant_database_task,
}
use mifos_test.Provisioning.Outcome.{IsServed, mark_ready_lem, save_lem}

-- The record of a task that returned, and of one that raised.
pub record IsTaskDone {env : Env} (t : Run env) : Type 0 where
  pub tenant_ready : t.tenant.status ≡ TenantStatus.ready
  pub tenant_active : t.tenant.is_active ≡ true
  pub tenant_rows : All (IsServed t.tenant.id) t.world.tenants
  pub job_done : t.job.current_step ≡ Step.done
  pub job_succeeded : t.job.is_success ≡ some true

-- A row of a tenant that is not served.
abbrev pub IsOut : ℕ → Tenant → Type 0
IsOut id r = r.id ≡ id → (r.status ≡ TenantStatus.failed) × (r.is_active ≡ false)

pub record TaskFailed (retries : ℕ) (t : Tenant) (j : ProvisionJob) (tenants : List Tenant)
    : Type 0 where
  pub tenant_failed : t.status ≡ TenantStatus.failed
  pub tenant_inactive : t.is_active ≡ false
  pub tenant_rows : All (IsOut t.id) tenants
  pub job_failed : j.is_success ≡ some false
  pub job_retries : j.retry_count ≡ retries

abbrev pub IsTaskFailed : {env : Env} → ℕ → Run env → Type 0
IsTaskFailed retries s = TaskFailed retries s.tenant s.job s.world.tenants

abbrev failed_columns : List TenantColumn
failed_columns = TenantColumn.status ∷ TenantColumn.is_active ∷ []

module _ {env : Env} where
  complete_job_lem :
      (s : Run env)
      → s.tenant.status ≡ TenantStatus.ready
      → s.tenant.is_active ≡ true
      → All (IsServed s.tenant.id) s.world.tenants
      → Post (complete_job s) (λ _. IsTaskDone) (λ _ _. Unit)
  unfolding complete_job
  complete_job_lem s ready active rows = record {
    tenant_ready = ready;
    tenant_active = active;
    tenant_rows = rows;
    job_done = refl;
    job_succeeded = refl;
  }

  attempt_task-IsTaskDone : (s : Run env) → Post (attempt_task s) (λ _. IsTaskDone) (λ _ _. Unit)
  unfolding attempt_task
  attempt_task-IsTaskDone s =
      Post-then (λ _. IsTaskDone) task_steps (λ _. mark_ready >> complete_job)
        (λ _ t.
          Post-bind (λ _. IsTaskDone) (λ _ _. Unit) mark_ready (λ _. complete_job) t
            (Post-weaken _ _ _ _ (mark_ready t).0 (mark_ready t).1
              (λ _ u (ready, active, rows). complete_job_lem u ready active rows) (λ _ _ _. tt)
              (mark_ready_lem t)))
        s

  -- The objects when the handler saves the tenant.
  abbrev marked : ℕ → Exn → Run env → Run env
  marked retries e s =
      let j = record s.job {
        is_success = some false;
        error_message = env.exn_text e;
        retry_count = retries;
      } in
      record s {
        job = j;
        tenant = record s.tenant { status = TenantStatus.failed; is_active = false };
        world = record s.world { jobs = rewrite (λ r. r.id == s.job.id) (failure j) s.world.jobs };
      }

  record_failure-save :
      (retries : ℕ) (e : Exn) (s : Run env)
      → record_failure retries e s ≡ save failed_columns (marked retries e s)
  unfolding record_failure
  record_failure-save retries e s = refl

  record_failure_lem :
      (retries : ℕ) (e : Exn) (s : Run env)
      → Post (record_failure retries e s) (λ _. IsTaskFailed retries) (λ _ _. ⊥)
  record_failure_lem retries e s =
      rw (record_failure-save retries e s, save_lem failed_columns (marked retries e s) refl refl)
        (record {
          tenant_failed = refl;
          tenant_inactive = refl;
          tenant_rows =
              All-rewrite (IsOut s.tenant.id) (λ r. r.id == s.tenant.id)
                (copy_columns failed_columns (marked retries e s).tenant) (λ r _ _. (refl, refl))
                (λ r p id. cc (p, (==_iff r.id s.tenant.id).1 id)) s.world.tenants;
          job_failed = refl;
          job_retries = refl;
        })

  delayed :
      (retries : ℕ) (task : Task) (s : Run env)
      → IsTaskFailed retries s
      → IsTaskFailed retries (call (delay task) s).1
  unfolding call delay
  delayed retries task s h = h

  retry-IsTaskFailed :
      (retries : ℕ) (e : Exn) (s : Run env)
      → IsTaskFailed retries s
      → Post (retry retries e s) (λ _ _. ⊥) (λ _. IsTaskFailed retries)
  unfolding retry
  retry-IsTaskFailed retries e s h = elim (Bool-cases (ltb retries 3)) [
    | inl again ↦
        let task = Task.provision_tenant_database s.job.id in
        rw again (
          unfold ◌>>=◌ in
          Post-raise Unit (IsTaskFailed retries) (external (text "Retry")) (call (delay task)) s
            (delayed retries task s h))
    | inr last ↦ rw last h
  ]

  on_task_failure-IsTaskFailed :
      (retries : ℕ) (e : Exn) (s : Run env)
      → Post (on_task_failure retries e s) (λ _ _. ⊥) (λ _. IsTaskFailed retries)
  unfolding on_task_failure
  on_task_failure-IsTaskFailed retries e s =
      Post-bind (λ _ _. ⊥) (λ _. IsTaskFailed retries) (record_failure retries e)
        (λ _. retry retries e) s
        (Post-weaken _ _ (λ _ _. ⊥) (λ _. IsTaskFailed retries) (record_failure retries e s).0
          (record_failure retries e s).1 (λ _ t h. retry-IsTaskFailed retries e t h)
          (λ _ _ h. absurd h) (record_failure_lem retries e s))

  guarded :
      (retries : ℕ) (s : Run env)
      → Post
          (catch attempt_task (on_task_failure retries) s)
          (λ _. IsTaskDone)
          (λ _. IsTaskFailed retries)
  guarded retries s = Post-catch _ _ attempt_task (on_task_failure retries) s (
      Post-weaken _ _ _ _ (attempt_task s).0 (attempt_task s).1 (λ _ _ h. h)
        (λ e t _.
          Post-weaken _ _ _ _ (on_task_failure retries e t).0 (on_task_failure retries e t).1
            (λ _ _ h. absurd h) (λ _ _ h. h) (on_task_failure-IsTaskFailed retries e t))
        (attempt_task-IsTaskDone s))

  -- The run when the `try` begins.
  abbrev submitted : Text → Run env → Run env
  submitted request_id s =
      let j = record s.job { celery_task_id = request_id } in
      record s {
        job = j;
        world = record s.world {
          jobs = rewrite (λ r. r.id == s.job.id) (celery_task_id_only j) s.world.jobs;
        };
      }

  task-catch :
      (request_id : Text) (retries : ℕ) (s : Run env)
      → provision_tenant_database_task request_id retries s
        ≡ catch attempt_task (on_task_failure retries) (submitted request_id s)
  unfolding provision_tenant_database_task
  task-catch request_id retries s = refl

-- Whatever PostgreSQL and the broker do, the queued task ends in one of two ways: it returns, and
-- the tenant is READY and active in the object and in its row, with a job that is DONE and
-- successful; or it raises, and the tenant is FAILED and inactive in both, with a job that is
-- unsuccessful and holds the number of the attempt.
pub task_outcome :
    {env : Env} (request_id : Text) (retries : ℕ) (s : Run env)
    → Post
        (provision_tenant_database_task request_id retries s)
        (λ _. IsTaskDone)
        (λ _. IsTaskFailed retries)
task_outcome request_id retries s =
    rw (task-catch request_id retries s) (guarded retries (submitted request_id s))
