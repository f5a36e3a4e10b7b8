-- ===== src/Provisioning/Undo.antt =====
-- What one undo of the RollbackManager leaves behind.
use mifos_test.Prelude.{ℕ, false, Text, ◌≡◌, refl, ap, ◌∙◌, arith, exists, exists-keep-not}
use mifos_test.Exec.{Result, ok}
use mifos_test.Models.{Step}
use mifos_test.Env.{Env, drop_database, drop_role}
use mifos_test.World.{World}
use mifos_test.Authentication.{belongs_to}
use mifos_test.Provisioning.State.{Run}
use mifos_test.Provisioning.Database.{drop_all, role_name_of}
use mifos_test.Provisioning.Registrar.{undo_fineract_registration}
use mifos_test.Provisioning.Rollback.{undo_create_admin_user, undo}
use mifos_test.Provisioning.Laws.{DropLaws}

-- No account of the tenant is left.
abbrev pub HasNoUsers : {env : Env} → ℕ → World env → Type 0
HasNoUsers id w = exists (belongs_to id) w.users ≡ false

module _ {env : Env} (laws : DropLaws env) where
  -- The database and the role of a tenant are both gone.
  abbrev pub IsDropped : Text → env.Pg → Type 0
  IsDropped d pg = (laws.has_database d pg ≡ false) × (laws.has_role (role_name_of d) pg ≡ false)

  abbrev pub after_drop : Text → env.Pg → env.Pg
  after_drop d pg =
      (env.pg_execute (drop_role (role_name_of d)) (env.pg_execute (drop_database d) pg).1).1

  pub after_drop-IsDropped : (d : Text) (pg : env.Pg) → IsDropped d (after_drop d pg)
  after_drop-IsDropped d pg = (
    laws.drop_role_keeps (role_name_of d) d _ (laws.drop_database_removes d pg),
    laws.drop_role_removes _ _,
  )

  -- `drop_all` replaces the state of the server and nothing else.
  pub drop_all_lem :
      (s : Run env)
      → drop_all s ≡ (
        ok tt,
        record s { world = record s.world { pg = after_drop s.tenant.db_name s.world.pg } },
      )
  unfolding drop_all
  drop_all_lem s = ground (
    arith,
    laws.connects s.world.pg,
    laws.drop_database_succeeds s.tenant.db_name s.world.pg,
    laws.drop_role_succeeds (role_name_of s.tenant.db_name)
        (env.pg_execute (drop_database s.tenant.db_name) s.world.pg).1,
  )

  -- What one undo, or several, may do to a run: the service's objects stay, and what was dropped
  -- or deleted stays so.
  pub record Undone (s t : Run env) : Type 0 where
    pub same_tenant : t.tenant ≡ s.tenant
    pub same_job : t.job ≡ s.job
    pub same_rows : t.world.tenants ≡ s.world.tenants
    pub same_jobs : t.world.jobs ≡ s.world.jobs
    pub stays_dropped :
        IsDropped s.tenant.db_name s.world.pg → IsDropped s.tenant.db_name t.world.pg
    pub stays_deleted : HasNoUsers s.tenant.id s.world → HasNoUsers s.tenant.id t.world

  pub Undone-refl : (s : Run env) → Undone s s
  Undone-refl s = record {
    same_tenant = refl;
    same_job = refl;
    same_rows = refl;
    same_jobs = refl;
    stays_dropped = λ h. h;
    stays_deleted = λ h. h;
  }

  pub Undone-trans : {s t u : Run env} → Undone s t → Undone t u → Undone s u
  Undone-trans {s} {t} {u} h k = record {
    same_tenant = k.same_tenant ∙ h.same_tenant;
    same_job = k.same_job ∙ h.same_job;
    same_rows = k.same_rows ∙ h.same_rows;
    same_jobs = k.same_jobs ∙ h.same_jobs;
    stays_dropped =
        λ d. rw (← h.same_tenant) (k.stays_dropped (rw h.same_tenant (h.stays_dropped d)));
    stays_deleted =
        λ d. rw (← h.same_tenant) (k.stays_deleted (rw h.same_tenant (h.stays_deleted d)));
  }

  drop_all-Undone : (s : Run env) → Undone s (drop_all s).1
  drop_all-Undone s = rw (drop_all_lem s) (record {
    same_tenant = refl;
    same_job = refl;
    same_rows = refl;
    same_jobs = refl;
    stays_dropped = λ _. after_drop-IsDropped s.tenant.db_name s.world.pg;
    stays_deleted = λ h. h;
  })

  undo_users-Undone : (s : Run env) → Undone s (undo_create_admin_user s).1
  unfolding undo_create_admin_user
  undo_users-Undone s = record {
    same_tenant = refl;
    same_job = refl;
    same_rows = refl;
    same_jobs = refl;
    stays_dropped = λ h. h;
    stays_deleted = λ _. exists-keep-not (belongs_to s.tenant.id) s.world.users;
  }

  -- The deletion at Fineract never raises, and touches the network only.
  undo_fineract_lem :
      (s : Run env)
      → undo_fineract_registration s ≡ (
        ok tt,
        record s { world = record s.world { net = (undo_fineract_registration s).1.world.net } },
      )
  unfolding undo_fineract_registration
  undo_fineract_lem s = ground arith

  undo_fineract-Undone : (s : Run env) → Undone s (undo_fineract_registration s).1
  undo_fineract-Undone s = rw (undo_fineract_lem s) (record {
    same_tenant = refl;
    same_job = refl;
    same_rows = refl;
    same_jobs = refl;
    stays_dropped = λ h. h;
    stays_deleted = λ h. h;
  })

  pub undo_succeeds : (step : Step) (s : Run env) → (undo step s).0 ≡ ok tt
  unfolding undo
  undo_succeeds Step.create_admin_user s = refl
  undo_succeeds Step.register_fineract_tenant s =
      ap (λ (p : Result (Unit {0}) × Run env). p.0) (undo_fineract_lem s)
  undo_succeeds Step.create_db_user s =
      ap (λ (p : Result (Unit {0}) × Run env). p.0) (drop_all_lem s)
  undo_succeeds Step.create_db s = ap (λ (p : Result (Unit {0}) × Run env). p.0) (drop_all_lem s)
  undo_succeeds _ s = refl

  pub undo-Undone : (step : Step) (s : Run env) → Undone s (undo step s).1
  unfolding undo
  undo-Undone Step.create_admin_user s = undo_users-Undone s
  undo-Undone Step.register_fineract_tenant s = undo_fineract-Undone s
  undo-Undone Step.create_db_user s = drop_all-Undone s
  undo-Undone Step.create_db s = drop_all-Undone s
  undo-Undone _ s = Undone-refl s
