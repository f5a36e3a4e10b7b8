-- ===== src/Tenants/SaveEffect.antt =====
-- A save of a tenant: which rows it changes, and that the receiver of the signal never stops it.
use mifos_test.Prelude.{false, List, ◌≡◌, arith}
use mifos_test.Exec.{ok}
use mifos_test.Models.{Tenant}
use mifos_test.Env.{Env, Task}
use mifos_test.World.{World}
use mifos_test.Tenants.Save.{
  TenantColumn, any_clash, any_too_long, write_columns, delay_quietly, on_tenant_status_change,
  save_tenant,
}

module _ {env : Env} where
  -- Whatever the broker does, a quiet delay returns, and changes the broker only.
  pub delay_quietly_lem :
      (task : Task) (w : World env)
      → delay_quietly task w ≡ (ok tt, record w { broker = (delay_quietly task w).1.broker })
  unfolding delay_quietly
  delay_quietly_lem task w = ground arith

  pub on_tenant_status_change_lem :
      (t : Tenant) (w : World env)
      → on_tenant_status_change t w
        ≡ (ok tt, record w { broker = (on_tenant_status_change t w).1.broker })
  unfolding on_tenant_status_change
  on_tenant_status_change_lem t w = ground arith

  abbrev pub broker_after : List TenantColumn → Tenant → World env → env.Broker
  broker_after cs t w = (on_tenant_status_change t (write_columns cs t w)).1.broker

  -- A save whose values fit and clash with no other row writes its columns to the row.
  pub save_tenant_lem :
      (cs : List TenantColumn) (t : Tenant) (w : World env)
      → any_too_long cs t ≡ false
      → any_clash cs t w.tenants ≡ false
      → save_tenant cs t w ≡ (ok tt, record (write_columns cs t w) { broker = broker_after cs t w })
  unfolding save_tenant
  save_tenant_lem cs t w fits free =
      rw (fits, free) (on_tenant_status_change_lem t (write_columns cs t w))
