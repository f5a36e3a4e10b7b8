-- ===== src/Tenants/Suspension.antt =====
-- What `suspend` and `activate` change, whatever the broker and the cache do.
use mifos_test.Prelude.{ℕ, true, Option, none, some, List, [], ◌∷◌, ◌++◌, ◌≡◌, refl, ap, Text, text}
use mifos_test.Json.{str, end, field}
use mifos_test.Exec.{Result, ok, err, pure, handle_result, ◌>>=◌}
use mifos_test.Exec.Keeps.{Keeps, Keeps-bind, Keeps-pure}
use mifos_test.Models.{Tenant, TenantStatus, Domain}
use mifos_test.Env.{Env}
use mifos_test.World.{World, OnlyCache, atomic}
use mifos_test.Audit.{Entry, audit_row, log}
use mifos_test.Tenants.Save.{TenantColumn, write_columns}
use mifos_test.Tenants.SaveEffect.{save_tenant_lem, broker_after}
use mifos_test.Tenants.Domains.{domain_key, delete_keys, bust_cache, domains_of, cache_delete}
use mifos_test.Tenants.Lifecycle.{suspend, activate}

-- The object as `suspend` leaves it, and its entry in the audit log.
abbrev pub suspended : Tenant → Text → ℕ → Tenant
suspended t reason now = record t {
  status = TenantStatus.suspended;
  suspended_at = some now;
  suspension_reason = reason;
}

abbrev pub suspension : Env → Tenant → Text → Option ℕ → Entry
suspension env t reason actor = record {
  actor = actor;
  tenant = some t.id;
  action = text "TENANT_SUSPENDED";
  actor_ip = none;
  target_type = text "Tenant";
  target_id = env.id_text t.id;
  metadata = field (text "reason") (str reason) end;
}

-- The object as `activate` leaves it, and its entry in the audit log.
abbrev pub activated : Tenant → Tenant
activated t = record t {
  status = TenantStatus.ready;
  is_active = true;
  suspended_at = none;
  suspension_reason = text "";
}

abbrev pub activation : Env → Tenant → Option ℕ → Entry
activation env t actor = record {
  actor = actor;
  tenant = some t.id;
  action = text "TENANT_ACTIVATED";
  actor_ip = none;
  target_type = text "Tenant";
  target_id = env.id_text t.id;
  metadata = end;
}

abbrev pub suspend_columns : List TenantColumn
suspend_columns =
    TenantColumn.status ∷ TenantColumn.suspended_at ∷ TenantColumn.suspension_reason ∷ []

abbrev pub activate_columns : List TenantColumn
activate_columns =
    TenantColumn.status ∷ TenantColumn.is_active ∷ TenantColumn.suspended_at
    ∷ TenantColumn.suspension_reason ∷ []

module _ {env : Env} where
  cache_delete-OnlyCache : (w : World env) (key : Text) → Keeps (OnlyCache w) (cache_delete key)
  unfolding cache_delete
  cache_delete-OnlyCache w key = record {
    kept = λ s h. ap (λ (u : World env). record u { cache = (env.cache_delete key s.cache).1 }) h;
  }

  delete_keys-OnlyCache : (w : World env) (ds : List Domain) → Keeps (OnlyCache w) (delete_keys ds)
  unfolding delete_keys
  delete_keys-OnlyCache w [] = Keeps-pure tt
  delete_keys-OnlyCache w (d ∷ ds) =
      Keeps-bind _ _ (cache_delete-OnlyCache w (domain_key d.hostname))
        (λ _. delete_keys-OnlyCache w ds)

  quiet :
      (r : Result (Unit {0})) (w s : World env)
      → OnlyCache w s
      → let (r', w') = handle_result r (λ _. pure tt) s in (r' ≡ ok tt) × OnlyCache w w'
  quiet (ok tt) w s h = (refl, h)
  quiet (err e) w s h = (refl, h)

  -- A cache that fails does not stop the caller.
  pub bust_cache_lem :
      (t : Tenant) (w : World env)
      → bust_cache t w ≡ (ok tt, record w { cache = (bust_cache t w).1.cache })
  unfolding bust_cache
  bust_cache_lem t w =
      let (r, s) = delete_keys (domains_of t w) w in
      let (fine, only) = quiet r w s ((delete_keys-OnlyCache w (domains_of t w)).kept w refl) in
      λ i. (fine i, only i)

  -- What a change of status leaves: the columns in the row, the entry in the log, a task with the
  -- broker, and a cache.
  abbrev pub changed : List TenantColumn → Tenant → Entry → env.Cache → World env → World env
  changed cs t entry cache w = record (write_columns cs t w) {
    audit_logs = w.audit_logs ++ audit_row entry w.now ∷ [];
    broker = broker_after cs t w;
    cache = cache;
  }

-- Suspension always succeeds, also when the broker or the cache fails: the status, the time and the
-- reason are in the object and in the tenant's row, an entry with actor and reason is added to the
-- audit log, and nothing else of the registry changes.
pub suspend_lem :
    {env : Env} (t : Tenant) (reason : Text) (actor : Option ℕ) (w : World env)
    → let t' = suspended t reason w.now in
      suspend t reason actor w ≡ (
        ok t',
        changed suspend_columns t'
            (suspension env t reason actor)
            (suspend t reason actor w).1.cache
            w,
      )
unfolding suspend atomic
suspend_lem {env} t reason actor w =
    unfold ◌>>=◌ log in
    rw (save_tenant_lem suspend_columns (suspended t reason w.now) w refl refl)
      (rw (bust_cache_lem (suspended t reason w.now) _) refl)

-- So does activation, which clears the suspension and marks the tenant active.
pub activate_lem :
    {env : Env} (t : Tenant) (actor : Option ℕ) (w : World env)
    → let t' = activated t in
      activate t actor w
      ≡ (ok t', changed activate_columns t' (activation env t actor) (activate t actor w).1.cache w)
unfolding activate atomic
activate_lem {env} t actor w =
    unfold ◌>>=◌ log in
    rw (save_tenant_lem activate_columns (activated t) w refl refl)
      (rw (bust_cache_lem (activated t) _) refl)
