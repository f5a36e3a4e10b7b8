-- ===== src/Provisioning/Failure.antt =====
-- A provisioning run that raises.
use mifos_test.Prelude.{
  false, List, [], ◌∷◌, ◌++◌, some, ◌≡◌, ◌≢◌, ◌⊎◌, inl, inr, ◌∙◌, refl, ◌==◌, ==_iff, rewrite, All,
  All-rewrite, text,
}
use mifos_test.Exec.{Exn, ok, raise, gets, catch, ◌>>=◌, ◌>>◌}
use mifos_test.Exec.Post.{
  Post, Post-bind, Post-catch, Post-weaken, Post-and, Post-of_state, Post-raise,
}
use mifos_test.Exec.Keeps.{Keeps, keeps_rules}
use mifos_test.Models.{Tenant, ProvisionJob, TenantStatus, Step}
use mifos_test.Env.{Env}
use mifos_test.Tenants.{TenantColumn}
use mifos_test.Tenants.SaveEffect.{broker_after}
use mifos_test.Provisioning.State.{Run, set_tenant, save, every_column}
use mifos_test.Provisioning.Pipeline.{
  set_status, default_db_name, attempt, fail_job, on_failure, run,
}
use mifos_test.Provisioning.Rollback.{execute_from}
use mifos_test.Provisioning.Started.{Started, attempt-HasStarted}
use mifos_test.Provisioning.Outcome.{IsProvisioned, IsSaved, attempt-IsProvisioned, save_lem, saved}
use mifos_test.Provisioning.Kept.{execute_from-OfRecords}

-- The record of a failed run, over the two objects and the two tables.
pub record Failed (t : Tenant) (j : ProvisionJob) (tenants : List Tenant) (jobs : List ProvisionJob)
    : Type 0 where
  pub tenant_failed : t.status ≡ TenantStatus.failed
  pub tenant_rows : All (λ r. r.id ≡ t.id → r.status ≡ TenantStatus.failed) tenants
  pub job_failed : j.is_success ≡ some false
  pub job_started : j.current_step ≢ Step.validate
  pub job_rows : All (IsSaved j) jobs

-- That record, of a run.
abbrev pub IsFailed : {env : Env} → Run env → Type 0
IsFailed s = Failed s.tenant s.job s.world.tenants s.world.jobs

module _ {env : Env} where
  -- What the handler has written when the rollback begins.
  abbrev pub failing : Exn → Run env → Run env
  failing e s =
      let j = record s.job {
        is_success = some false;
        error_message = env.exn_text e;
        finished_at = some s.world.now;
      } in
      let t = record s.tenant { status = TenantStatus.failed } in
      let jobs = rewrite (λ r. r.id == s.job.id) (every_column j) s.world.jobs in
      let w = record s.world { jobs = jobs } in
      record s {
        tenant = t;
        job = j;
        world = record w {
          tenants =
              rewrite (λ r. r.id == t.id) (λ r. record r { status = TenantStatus.failed })
                w.tenants;
          broker = broker_after (TenantColumn.status ∷ []) t w;
        };
      }

  on_failure-steps :
      (e : Exn)
      → on_failure {env = env} e ≡ (
          fail_job e
          >> (set_status TenantStatus.failed
              >> (gets (λ s. s.job.current_step) >>= λ step. execute_from step >> raise e)))
  unfolding on_failure
  on_failure-steps e = refl

  abbrev job_failed : Exn → Run env → Run env
  job_failed e s =
      let j = record s.job {
        is_success = some false;
        error_message = env.exn_text e;
        finished_at = some s.world.now;
      } in
      record s {
        job = j;
        world = record s.world {
          jobs = rewrite (λ r. r.id == s.job.id) (every_column j) s.world.jobs;
        };
      }

  fail_job_lem : (e : Exn) (s : Run env) → fail_job e s ≡ (ok tt, job_failed e s)
  unfolding fail_job
  fail_job_lem e s = refl

  set_status-save :
      (status : TenantStatus) (s : Run env)
      → set_status status s
        ≡ save
            (TenantColumn.status ∷ [])
            (record s { tenant = record s.tenant { status = status } })
  unfolding set_status
  set_status-save status s = refl

  -- A change of status cannot fail, whatever the state.
  set_status_lem :
      (status : TenantStatus) (s : Run env)
      → let t = record s.tenant { status = status } in
        set_status status s ≡ (
          ok tt,
          record s {
            tenant = t;
            world = record s.world {
              tenants =
                  rewrite (λ r. r.id == t.id) (λ r. record r { status = status }) s.world.tenants;
              broker = broker_after (TenantColumn.status ∷ []) t s.world;
            };
          },
        )
  set_status_lem status s =
      set_status-save status s
      ∙ save_lem (TenantColumn.status ∷ [])
          (record s { tenant = record s.tenant { status = status } }) refl refl

  pub on_failure-then :
      (e : Exn) (s : Run env)
      → on_failure e s ≡ (execute_from (failing e s).job.current_step >> raise e) (failing e s)
  on_failure-then e s = rw on_failure-steps (
      unfold ◌>>=◌ in
      rw (fail_job_lem e s) (rw (set_status_lem TenantStatus.failed (job_failed e s))))

  failing-IsFailed : (e : Exn) (s : Run env) → Started s.job → IsFailed (failing e s)
  failing-IsFailed e s started = record {
    tenant_failed = refl;
    tenant_rows =
        All-rewrite (λ r. r.id ≡ s.tenant.id → r.status ≡ TenantStatus.failed)
          (λ r. r.id == s.tenant.id) (λ r. record r { status = TenantStatus.failed })
          (λ r _ _. refl) (λ r p id. cc (p, (==_iff r.id s.tenant.id).1 id)) s.world.tenants;
    job_failed = refl;
    job_started = started;
    job_rows = saved (failing e s).job s.world.jobs;
  }

  on_failure-IsFailed :
      (e : Exn) (s : Run env) → Started s.job → Post (on_failure e s) (λ _ _. ⊥) (λ _ t. IsFailed t)
  on_failure-IsFailed e s started = rw (on_failure-then e s) (
      Post-raise Unit IsFailed e (execute_from s.job.current_step) (failing e s) (
        (execute_from-OfRecords Failed s.job.current_step).kept (failing e s)
          (failing-IsFailed e s started)))

  -- The `try` of `run`, whatever the outside services do: it ends with a ready tenant and a job
  -- that is done, or it raises with both recorded as failed.
  pub try_lem :
      (s : Run env) → Post (catch attempt on_failure s) (λ _. IsProvisioned) (λ _. IsFailed)
  try_lem s = Post-catch _ _ attempt on_failure s (
      Post-and _ _ _ (λ t. Started t.job) (attempt s) (attempt-HasStarted.after s)
        (λ e t _ started.
          Post-weaken _ _ _ _ (on_failure e t).0 (on_failure e t).1 (λ _ _ h. absurd h) (λ _ _ h. h)
            (on_failure-IsFailed e t started))
        (attempt-IsProvisioned s))

  -- The tenant is still being provisioned.
  abbrev pub InProgress : Run env → Type 0
  InProgress s = s.tenant.status ≡ TenantStatus.provisioning

  save-InProgress : (cs : List TenantColumn) → Keeps InProgress (save cs)
  unfolding save
  save-InProgress cs = record { kept = λ s h. h }

  default_set :
      Keeps InProgress (set_tenant λ t. record t { db_name = text "tenant_" ++ t.tenant_code })
  default_set = record { kept = λ s h. h }

  default_db_name-InProgress : Keeps InProgress default_db_name
  unfolding default_db_name
  default_db_name-InProgress = search (keeps_rules, save-InProgress, default_set) depth 8

  pub run-then :
      run {env = env}
      ≡ (set_status TenantStatus.provisioning >> (default_db_name >> catch attempt on_failure))
  unfolding run
  run-then = refl

  -- `run` ends as its `try` does, unless it raises before.
  module _ (Q E : Run env → Type 0)
      (guarded : (t : Run env) → Post (catch attempt on_failure t) (λ _. Q) (λ _. E)) where
    pipeline_lem :
        (s : Run env)
        → InProgress s
        → Post
            ((default_db_name >> catch attempt on_failure) s)
            (λ _. Q)
            (λ _ t. E t ⊎ InProgress t)
    pipeline_lem s h =
        Post-bind _ _ default_db_name (λ _. catch attempt on_failure) s
          (Post-of_state _ _ InProgress (default_db_name s)
            (λ _ t _.
              Post-weaken _ _ _ _ (catch attempt on_failure t).0 (catch attempt on_failure t).1
                (λ _ _ k. k) (λ _ _ k. inl k) (guarded t))
            (λ _ t k. inr k) (default_db_name-InProgress.kept s h))

    pub run_lem : (s : Run env) → Post (run s) (λ _. Q) (λ _ t. E t ⊎ InProgress t)
    run_lem s = rw run-then (
        Post-bind _ _ (set_status TenantStatus.provisioning)
          (λ _. default_db_name >> catch attempt on_failure) s
          (rw (set_status_lem TenantStatus.provisioning s) (pipeline_lem _ refl)))
