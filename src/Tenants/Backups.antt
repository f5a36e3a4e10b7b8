-- ===== src/Tenants/Backups.antt =====
-- Which backups are made: one for each tenant that is READY, of its own database.
use mifos_test.Prelude.{
  sym, ◌∙◌, if◌then◌else◌, true, false, ◌&&◌, ◌==◌, ==_iff, All, Bool-cases, arith, find, inl, inr,
  subst, Text, text, ℕ, Option, none, some, List, [], ◌∷◌, ◌++◌, ◌≡◌, refl, ap, keep, map,
}
use mifos_test.Exec.{Exn, Result, ok, err, continue, ◌>>=◌}
use mifos_test.Models.{Tenant, TenantStatus, is_ready}
use mifos_test.Env.{Env, PgDump, Task}
use mifos_test.World.{World, delay}
use mifos_test.Tenants.Tasks.{
  backup_dir, dump_command, make_dirs, run_dump, ready_tenant, backup_found, backup_tenant_database,
  queue_backups, backup_all_tenant_databases,
}

-- The broker after it was asked to queue a backup of each of these tenants.
abbrev pub handed_over : (env : Env) → List ℕ → env.Broker → env.Broker
handed_over env [] b = b
handed_over env (id ∷ ids) b =
    handed_over env ids (env.broker_delay (Task.backup_tenant_database id) b).1

-- The broker takes each of these tasks.
abbrev pub AllTaken : (env : Env) → List ℕ → env.Broker → Type 0
AllTaken env [] b = Unit
AllTaken env (id ∷ ids) b =
    ((env.broker_delay (Task.backup_tenant_database id) b).0 ≡ ok tt)
    × AllTaken env ids (env.broker_delay (Task.backup_tenant_database id) b).1

-- The row is of that id and READY.
abbrev pub IsDue : ℕ → Tenant → Type 0
IsDue id t = (t.id ≡ id) × (t.status ≡ TenantStatus.ready)

-- The first row that is due.
pub data FirstDue (id : ℕ) (t : Tenant) : List Tenant → Type 0 where
  here : {rows : List Tenant} → IsDue id t → FirstDue id t (t ∷ rows)
  there :
      {s : Tenant} {rows : List Tenant}
      → ¬ IsDue id s
      → FirstDue id t rows
      → FirstDue id t (s ∷ rows)

-- The dump that a tenant is due: its own database from its own host, with the platform's account.
abbrev pub due_dump : Env → Tenant → ℕ → PgDump
due_dump env t now = record {
  host = t.db_host;
  port = t.db_port;
  user = env.settings.pg_superuser_name;
  password = env.settings.pg_superuser_password;
  file =
      (text "/backups/" ++ t.tenant_code)
      ++ (text "/" ++ (env.today now ++ (text "_" ++ (t.tenant_code ++ text ".dump"))));
  db_name = t.db_name;
}

abbrev pub due_directory : Tenant → Text
due_directory t = text "/backups/" ++ t.tenant_code

is_ready-ready : (s : TenantStatus) → is_ready s ≡ true → s ≡ TenantStatus.ready
is_ready-ready TenantStatus.ready e = refl
is_ready-ready TenantStatus.pending e = cc e
is_ready-ready TenantStatus.provisioning e = cc e
is_ready-ready TenantStatus.initializing e = cc e
is_ready-ready TenantStatus.suspended e = cc e
is_ready-ready TenantStatus.failed e = cc e

IsDue-true : (id : ℕ) (t : Tenant) → (t.id == id && is_ready t.status) ≡ true → IsDue id t
IsDue-true id t e = (ground (arith, e), is_ready-ready t.status (ground (arith, e)))

IsDue-false : (id : ℕ) (t : Tenant) → (t.id == id && is_ready t.status) ≡ false → ¬ IsDue id t
IsDue-false id t e (same, ready) =
    absurd (cc (e, ap (λ s. t.id == id && is_ready s) ready, (==_iff t.id id).1 same))

first_due :
    (id : ℕ) (rows : List Tenant) (t : Tenant)
    → find (λ t. t.id == id && is_ready t.status) rows ≡ some t
    → FirstDue id t rows
first_due id [] t e = cc e
first_due id (s ∷ rows) t e = elim (Bool-cases (s.id == id && is_ready s.status)) [
  | inl due ↦
      let same : s ≡ t = ground (arith, due, e) in
      subst (λ x. FirstDue id x (s ∷ rows)) same (here (IsDue-true id s due))
  | inr other ↦ there (IsDue-false id s other) (first_due id rows t (ground (arith, other, e)))
]

none-IsDue :
    (id : ℕ) (rows : List Tenant)
    → find (λ t. t.id == id && is_ready t.status) rows ≡ none
    → All (λ t. ¬ IsDue id t) rows
none-IsDue id [] e = tt
none-IsDue id (s ∷ rows) e = elim (Bool-cases (s.id == id && is_ready s.status)) [
  | inl due ↦ absurd (ground (arith, due, e))
  | inr other ↦ (IsDue-false id s other, none-IsDue id rows (ground (arith, other, e)))
]

-- The ids of the tenants that are READY, in the order of their rows.
abbrev pub due_id : TenantStatus → ℕ → List ℕ → List ℕ
due_id TenantStatus.ready id ids = id ∷ ids
due_id _ id ids = ids

abbrev pub due_ids : List Tenant → List ℕ
due_ids [] = []
due_ids (t ∷ rows) = due_id t.status t.id (due_ids rows)

kept_id :
    (s : TenantStatus) (t : Tenant) (rows : List Tenant)
    → map (λ (t : Tenant). t.id) (if is_ready s then t ∷ rows else rows)
      ≡ due_id s t.id (map (λ (t : Tenant). t.id) rows)
kept_id TenantStatus.ready t rows = refl
kept_id TenantStatus.pending t rows = refl
kept_id TenantStatus.provisioning t rows = refl
kept_id TenantStatus.initializing t rows = refl
kept_id TenantStatus.failed t rows = refl
kept_id TenantStatus.suspended t rows = refl

keep-due_ids :
    (rows : List Tenant)
    → map (λ (t : Tenant). t.id) (keep (λ t. is_ready t.status) rows) ≡ due_ids rows
keep-due_ids [] = refl
keep-due_ids (t ∷ rows) =
    kept_id t.status t (keep (λ t. is_ready t.status) rows)
    ∙ ap (due_id t.status t.id) (keep-due_ids rows)

module _ {env : Env} where
  -- All tasks are handed over, or those up to one at which the broker raised.
  pub data Queued (ids : List ℕ) (w : World env) : Result (Unit {0}) × World env → Type 0 where
    whole :
        AllTaken env ids w.broker
        → Queued ids w (ok tt, record w { broker = handed_over env ids w.broker })
    stopped :
        (first : List ℕ) (id : ℕ) (rest : List ℕ) (e : Exn)
        → ids ≡ first ++ id ∷ rest
        → AllTaken env first w.broker
        → (env.broker_delay (Task.backup_tenant_database id) (handed_over env first w.broker)).0
          ≡ err e
        → Queued ids w (err e, record w { broker = handed_over env (first ++ id ∷ []) w.broker })

  -- One more task before the others.
  Queued-cons :
      (id : ℕ) (ids : List ℕ) (w : World env) {r : Result (Unit {0}) × World env}
      → (env.broker_delay (Task.backup_tenant_database id) w.broker).0 ≡ ok tt
      → Queued ids
          (record w { broker = (env.broker_delay (Task.backup_tenant_database id) w.broker).1 })
          r
      → Queued (id ∷ ids) w r
  Queued-cons id ids w taken (whole all) = whole (taken, all)
  Queued-cons id ids w taken (stopped first x rest e same all raised) =
      stopped (id ∷ first) x rest e (ap (λ l. id ∷ l) same) (taken, all) raised

  continued :
      (id : ℕ) (ids : List ℕ) (w : World env) (r : Result (Unit {0}))
      → (env.broker_delay (Task.backup_tenant_database id) w.broker).0 ≡ r
      → ((v : World env) → Queued ids v (queue_backups ids v))
      → Queued (id ∷ ids) w (
          continue r
            (λ _. queue_backups ids)
            (record w { broker = (env.broker_delay (Task.backup_tenant_database id) w.broker).1 }))
  continued id ids w (ok tt) e rest = Queued-cons id ids w e (rest _)
  continued id ids w (err x) e rest = stopped [] id ids x refl tt e

  queue_backups-Queued : (ids : List ℕ) (w : World env) → Queued ids w (queue_backups ids w)
  unfolding queue_backups delay ◌>>=◌
  queue_backups-Queued [] w = whole tt
  queue_backups-Queued (id ∷ ids) w = continued id ids w _ refl (λ v. queue_backups-Queued ids v)

  -- The disk after the tenant's directory was asked for.
  abbrev pub prepared : Tenant → World env → World env
  prepared t w = record w { disk = (env.makedirs (due_directory t) w.disk).1 }

  -- How a backup ends, and with which disk.
  pub data BackedUp (id : ℕ) (w : World env) : Result (Unit {0}) × World env → Type 0 where
    skipped : All (λ t. ¬ IsDue id t) w.tenants → BackedUp id w (ok tt, w)
    no_directory :
        (t : Tenant) (e : Exn)
        → FirstDue id t w.tenants
        → (env.makedirs (due_directory t) w.disk).0 ≡ err e
        → BackedUp id w (err e, prepared t w)
    dumped :
        (t : Tenant)
        → FirstDue id t w.tenants
        → (env.makedirs (due_directory t) w.disk).0 ≡ ok tt
        → BackedUp id w (
          (env.run_pg_dump (due_dump env t w.now) (prepared t w).disk).0,
          record w { disk = (env.run_pg_dump (due_dump env t w.now) (prepared t w).disk).1 },
        )

  made :
      (id : ℕ) (t : Tenant) (w : World env) (r : Result (Unit {0}))
      → FirstDue id t w.tenants
      → (env.makedirs (backup_dir t) w.disk).0 ≡ r
      → BackedUp id w (
          continue r
            (λ _ v. run_dump (dump_command env t v.now) v)
            (record w { disk = (env.makedirs (backup_dir t) w.disk).1 }))
  unfolding run_dump
  made id t w (ok tt) found e = dumped t found e
  made id t w (err x) found e = no_directory t x found e

  found-BackedUp :
      (id : ℕ) (w : World env) (o : Option Tenant)
      → ready_tenant id w ≡ o
      → BackedUp id w (backup_found o w)
  unfolding backup_found make_dirs ◌>>=◌
  found-BackedUp id w none e = skipped (none-IsDue id w.tenants e)
  found-BackedUp id w (some t) e = made id t w _ (first_due id w.tenants t e) refl

-- A backup of an id that is of no READY tenant changes nothing and returns. Else the directory of
-- that tenant is made, an exception of which is raised with no dump, and then its own database is
-- dumped, with the platform's user and password, to the file of the day in it; an exception of the
-- dump is raised. Nothing but the disk changes.
pub backup_tenant_database-BackedUp :
    {env : Env} (id : ℕ) (w : World env) → BackedUp id w (backup_tenant_database id w)
unfolding backup_tenant_database ◌>>=◌
backup_tenant_database-BackedUp id w = found-BackedUp id w (ready_tenant id w) refl

-- The nightly fan-out hands the broker one backup for each READY tenant, in the order of the rows,
-- and for no other, and changes nothing but the broker; where the broker raises at one of them, the
-- exception is raised and the tenants after it get no backup.
pub backup_all-Queued :
    {env : Env} (w : World env) → Queued (due_ids w.tenants) w (backup_all_tenant_databases w)
unfolding backup_all_tenant_databases
backup_all-Queued w =
    subst (λ ids. Queued (due_ids w.tenants) w (queue_backups ids w)) (sym (keep-due_ids w.tenants))
      (queue_backups-Queued (due_ids w.tenants) w)
