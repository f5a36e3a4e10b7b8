-- ===== src/Tenants/Lifecycle.antt =====
-- backend/tenants/services.py, class TenantService
use mifos_test.Prelude.{ℕ, true, Option, none, some, [], ◌∷◌, Text, text}
use mifos_test.Json.{str, end, field}
use mifos_test.Exec.{Exec, pure, gets, ◌>>=◌, ◌>>◌}
use mifos_test.Models.{Tenant, TenantStatus}
use mifos_test.Env.{Env}
use mifos_test.World.{World, atomic}
use mifos_test.Audit.{log}
use mifos_test.Tenants.Save.{TenantColumn, save_tenant}
use mifos_test.Tenants.Domains.{bust_cache}

module _ {env : Env} where
  -- The tenant as the caller's object is left, with the row, the audit log and the cache.
  unfoldable pub suspend : Tenant → Text → Option ℕ → Exec (World env) Tenant
  unfolding atomic ◌>>=◌ save_tenant log bust_cache
  suspend tenant reason actor = atomic do
    now ← gets (λ w. w.now)
    let t = record tenant {
      status = TenantStatus.suspended;
      suspended_at = some now;
      suspension_reason = reason;
    }
    save_tenant
        (TenantColumn.status ∷ TenantColumn.suspended_at ∷ TenantColumn.suspension_reason ∷ []) t
    log (record {
      actor = actor;
      tenant = some t.id;
      action = text "TENANT_SUSPENDED";
      actor_ip = none;
      target_type = text "Tenant";
      target_id = env.id_text t.id;
      metadata = field (text "reason") (str reason) end;
    })
    bust_cache t
    pure t

  unfoldable pub activate : Tenant → Option ℕ → Exec (World env) Tenant
  unfolding atomic ◌>>=◌ save_tenant log bust_cache
  activate tenant actor = atomic do
    let t = record tenant {
      status = TenantStatus.ready;
      is_active = true;
      suspended_at = none;
      suspension_reason = text "";
    }
    save_tenant
        (TenantColumn.status ∷ TenantColumn.is_active ∷ TenantColumn.suspended_at
          ∷ TenantColumn.suspension_reason ∷ [])
        t
    log (record {
      actor = actor;
      tenant = some t.id;
      action = text "TENANT_ACTIVATED";
      actor_ip = none;
      target_type = text "Tenant";
      target_id = env.id_text t.id;
      metadata = end;
    })
    bust_cache t
    pure t
