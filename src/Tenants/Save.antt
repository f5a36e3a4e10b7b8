-- ===== src/Tenants/Save.antt =====
-- `Tenant.save(update_fields=[…])` with the unique columns of backend/tenants/models.py, and the
-- receiver of backend/tenants/signals.py, which every such save runs.
use mifos_test.Prelude.{
  Bool, false, not, ◌&&◌, ◌||◌, List, [], ◌∷◌, text, ◌==◌, if◌then◌else◌, same_text, exists,
  rewrite, ltb, length,
}
use mifos_test.Exec.{Exec, integrity_error, data_error, raise, pure, catch, when, ◌>>=◌, ◌>>◌}
use mifos_test.Models.{Tenant, is_ready, is_suspended}
use mifos_test.Env.{Env, Task}
use mifos_test.World.{World, delay}

-- The columns that the code names in `update_fields`.
pub data TenantColumn : Type 0 where
  db_name db_user db_host fineract_tenant_identifier status is_active : TenantColumn
  provisioned_at suspended_at suspension_reason : TenantColumn

-- One column of the object, written to the row.
abbrev pub copy_column : TenantColumn → Tenant → Tenant → Tenant
copy_column TenantColumn.db_name t row = record row { db_name = t.db_name }
copy_column TenantColumn.db_user t row = record row { db_user = t.db_user }
copy_column TenantColumn.db_host t row = record row { db_host = t.db_host }
copy_column TenantColumn.fineract_tenant_identifier t row = record row {
  fineract_tenant_identifier = t.fineract_tenant_identifier;
}
copy_column TenantColumn.status t row = record row { status = t.status }
copy_column TenantColumn.is_active t row = record row { is_active = t.is_active }
copy_column TenantColumn.provisioned_at t row = record row { provisioned_at = t.provisioned_at }
copy_column TenantColumn.suspended_at t row = record row { suspended_at = t.suspended_at }
copy_column TenantColumn.suspension_reason t row = record row {
  suspension_reason = t.suspension_reason;
}

abbrev pub copy_columns : List TenantColumn → Tenant → Tenant → Tenant
copy_columns [] t row = row
copy_columns (c ∷ cs) t row = copy_columns cs t (copy_column c t row)

-- `unique=True` on `db_name` and `fineract_tenant_identifier`: another row has the value.
abbrev pub clashes : TenantColumn → Tenant → List Tenant → Bool
clashes TenantColumn.db_name t rows =
    exists (λ r. not (r.id == t.id) && same_text r.db_name t.db_name) rows
clashes TenantColumn.fineract_tenant_identifier t rows =
    exists
      (λ r.
        not (r.id == t.id) && same_text r.fineract_tenant_identifier t.fineract_tenant_identifier)
      rows
clashes _ t rows = false

-- A value that does not fit its `max_length`.
abbrev pub too_long : TenantColumn → Tenant → Bool
too_long TenantColumn.db_name t = ltb 63 (length t.db_name)
too_long TenantColumn.db_user t = ltb 63 (length t.db_user)
too_long TenantColumn.db_host t = ltb 255 (length t.db_host)
too_long TenantColumn.fineract_tenant_identifier t = ltb 63 (length t.fineract_tenant_identifier)
too_long _ t = false

abbrev pub any_clash : List TenantColumn → Tenant → List Tenant → Bool
any_clash [] t rows = false
any_clash (c ∷ cs) t rows = clashes c t rows || any_clash cs t rows

abbrev pub any_too_long : List TenantColumn → Tenant → Bool
any_too_long [] t = false
any_too_long (c ∷ cs) t = too_long c t || any_too_long cs t

module _ {env : Env} where
  -- `task.delay(…)` in `try … except Exception: logger.warning(…)`
  unfoldable pub delay_quietly : Task → Exec (World env) Unit
  unfolding delay catch
  delay_quietly task = catch (delay task) (λ _. pure tt)

  -- `on_tenant_status_change`, for a save that created no row
  unfoldable pub on_tenant_status_change : Tenant → Exec (World env) Unit
  unfolding delay_quietly ◌>>=◌
  on_tenant_status_change t = do
    when (is_ready t.status) (delay_quietly (Task.send_tenant_activated_email t.id))
    when (is_suspended t.status) (delay_quietly (Task.revoke_tenant_sessions t.id))

  abbrev pub write_columns : List TenantColumn → Tenant → World env → World env
  write_columns cs t w = record w {
    tenants = rewrite (λ r. r.id == t.id) (copy_columns cs t) w.tenants;
  }

  -- `tenant.save(update_fields=cs)`, for an object whose row is there: Django raises only where
  -- another process deleted it.
  unfoldable pub save_tenant : List TenantColumn → Tenant → Exec (World env) Unit
  unfolding on_tenant_status_change ◌>>=◌
  save_tenant cs t w =
      if any_too_long cs t
      then (raise (data_error (text "tenants_tenant")) w)
      else if any_clash cs t w.tenants
      then (raise (integrity_error (text "tenants_tenant")) w)
      else on_tenant_status_change t (write_columns cs t w)
