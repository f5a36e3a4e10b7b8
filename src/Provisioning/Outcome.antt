-- ===== src/Provisioning/Outcome.antt =====
-- How a provisioning run ends: what a run that returns has recorded, and what a run that raises
-- has recorded.
use mifos_test.Prelude.{
  ℕ, true, false, List, [], ◌∷◌, some, ◌≡◌, refl, ◌==◌, ==_iff, rewrite, All, All-rewrite, Text,
  is_nonempty,
}
use mifos_test.Exec.{ok, ◌>>◌}
use mifos_test.Exec.Post.{Post, Post-bind, Post-weaken, Post-then}
use mifos_test.Models.{Tenant, ProvisionJob, TenantStatus, Step}
use mifos_test.Env.{Env}
use mifos_test.Tenants.{TenantColumn, any_too_long, any_clash, copy_columns, write_columns}
use mifos_test.Tenants.SaveEffect.{save_tenant_lem, broker_after}
use mifos_test.Provisioning.State.{Run, save, every_column}
use mifos_test.Provisioning.Pipeline.{
  degraded_note, error_note, set_status, database_steps, application_steps, mark_ready, mark_done,
  attempt,
}

-- A row of a tenant that is being served.
abbrev pub IsServed : ℕ → Tenant → Type 0
IsServed id r = r.id ≡ id → (r.status ≡ TenantStatus.ready) × (r.is_active ≡ true)

-- A row of the job holds all that the job's object holds.
abbrev pub IsSaved : ProvisionJob → ProvisionJob → Type 0
IsSaved job r = r.id ≡ job.id → r ≡ job

-- The record of a run that returned, in the objects and in the rows.
pub record IsProvisioned {env : Env} (t : Run env) : Type 0 where
  pub tenant_ready : t.tenant.status ≡ TenantStatus.ready
  pub tenant_active : t.tenant.is_active ≡ true
  pub tenant_rows : All (IsServed t.tenant.id) t.world.tenants
  pub job_done : t.job.current_step ≡ Step.done
  pub job_succeeded : t.job.is_success ≡ some true
  pub job_rows : All (IsSaved t.job) t.world.jobs
  pub job_note :
      (error : Text)
      → t.fineract_registration_error ≡ some error
      → is_nonempty error ≡ true
      → t.job.error_message ≡ degraded_note error

pub served :
    (t : Tenant) (cs : List TenantColumn) (rows : List Tenant)
    → ((r : Tenant) → (copy_columns cs t r).id ≡ r.id)
    → ((r : Tenant)
        → ((copy_columns cs t r).status ≡ TenantStatus.ready)
          × ((copy_columns cs t r).is_active ≡ true))
    → All (IsServed t.id) (rewrite (λ r. r.id == t.id) (copy_columns cs t) rows)
served t cs rows same good =
    All-rewrite (IsServed t.id) (λ r. r.id == t.id) (copy_columns cs t) (λ r e _. good r)
      (λ r e id. cc (e, (==_iff r.id t.id).1 id)) rows

pub saved :
    (job : ProvisionJob) (rows : List ProvisionJob)
    → All (IsSaved job) (rewrite (λ r. r.id == job.id) (every_column job) rows)
saved job rows =
    All-rewrite (IsSaved job) (λ r. r.id == job.id) (every_column job) (λ r _ _. refl)
      (λ r e id. cc (e, (==_iff r.id job.id).1 id)) rows

abbrev ready_columns : List TenantColumn
ready_columns = TenantColumn.status ∷ TenantColumn.is_active ∷ TenantColumn.provisioned_at ∷ []

module _ {env : Env} where
  -- A save by columns that fit and clash with nothing, as a step of the run.
  pub save_lem :
      (cs : List TenantColumn) (s : Run env)
      → any_too_long cs s.tenant ≡ false
      → any_clash cs s.tenant s.world.tenants ≡ false
      → save cs s ≡ (
        ok tt,
        record s {
          world = record (write_columns cs s.tenant s.world) {
            broker = broker_after cs s.tenant s.world;
          };
        },
      )
  save_lem cs s fits free = unfold save in rw (save_tenant_lem cs s.tenant s.world fits free)

  abbrev readied : Run env → Run env
  readied s = record s {
    tenant = record s.tenant {
      status = TenantStatus.ready;
      is_active = true;
      provisioned_at = some s.world.now;
    };
  }

  mark_ready-save : (s : Run env) → mark_ready s ≡ save ready_columns (readied s)
  unfolding mark_ready
  mark_ready-save s = refl

  -- The save of `mark_ready` cannot fail, whatever the state.
  pub mark_ready_lem :
      (s : Run env)
      → Post
          (mark_ready s)
          (λ _ t.
            (t.tenant.status ≡ TenantStatus.ready)
            × (t.tenant.is_active ≡ true)
            × All (IsServed t.tenant.id) t.world.tenants)
          (λ _ _. ⊥)
  mark_ready_lem s =
      rw (mark_ready-save s, save_lem ready_columns (readied s) refl refl)
        (
          refl,
          refl,
          served (readied s).tenant ready_columns s.world.tenants (λ r. refl) (λ r. (refl, refl)),
        )

  mark_done_lem :
      (s : Run env)
      → s.tenant.status ≡ TenantStatus.ready
      → s.tenant.is_active ≡ true
      → All (IsServed s.tenant.id) s.world.tenants
      → Post (mark_done s) (λ _. IsProvisioned) (λ _ _. ⊥)
  unfolding mark_done
  mark_done_lem s ready active rows = record {
    tenant_ready = ready;
    tenant_active = active;
    tenant_rows = rows;
    job_done = refl;
    job_succeeded = refl;
    job_rows = saved _ s.world.jobs;
    job_note = λ error e nonempty. rw (e, error_note) (rw nonempty);
  }

  attempt-then :
      (s : Run env)
      → attempt s
        ≡ (database_steps
              >> (set_status TenantStatus.initializing
                  >> (application_steps >> (mark_ready >> mark_done))))
            s
  unfolding attempt
  attempt-then s = refl

  finish_lem : (s : Run env) → Post ((mark_ready >> mark_done) s) (λ _. IsProvisioned) (λ _ _. Unit)
  finish_lem s =
      Post-bind (λ _. IsProvisioned) (λ _ _. Unit) mark_ready (λ _. mark_done) s
        (Post-weaken _ _ _ _ (mark_ready s).0 (mark_ready s).1
          (λ _ t (ready, active, rows).
            Post-weaken _ _ _ _ (mark_done t).0 (mark_done t).1 (λ _ u h. h) (λ _ _ _. tt)
              (mark_done_lem t ready active rows))
          (λ _ _ _. tt) (mark_ready_lem s))

  -- When the pipeline gets through, all of that is recorded.
  pub attempt-IsProvisioned : (s : Run env) → Post (attempt s) (λ _. IsProvisioned) (λ _ _. Unit)
  attempt-IsProvisioned s = rw (attempt-then s) (
      Post-then _ database_steps _
        (λ _.
          Post-then _ (set_status TenantStatus.initializing) _
            (λ _. Post-then _ application_steps _ (λ _. finish_lem)))
        s)
