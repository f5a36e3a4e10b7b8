-- ===== src/Provisioning/Registrar.antt =====
-- backend/provisioning/services.py: class TenantRegistrar
use mifos_test.Prelude.{not, some, [], ◌∷◌, Text, or_else, is_truthy, is_nonempty}
use mifos_test.Exec.{Exn, Exec, pure, modify, gets, catch, when, ◌>>=◌, ◌>>◌}
use mifos_test.Models.{Role}
use mifos_test.Env.{Env}
use mifos_test.World.{token_urlsafe}
use mifos_test.Fineract.{create_tenant, create_tenant_user, delete_tenant}
use mifos_test.Tenants.{TenantColumn}
use mifos_test.Authentication.{create_user, no_extra_fields}
use mifos_test.Provisioning.State.{Run, call, set_tenant, save}

module _ {env : Env} where
  -- A placeholder in the source too: it only logs.
  unfoldable pub bootstrap_fineract_schema : Exec (Run env) Unit
  bootstrap_fineract_schema = pure tt

  -- `self.tenant.fineract_tenant_identifier = identifier`, saved
  unfoldable pub record_identifier : Exec (Run env) Unit
  unfolding save ◌>>=◌
  record_identifier = do
    set_tenant λ t. record t { fineract_tenant_identifier = t.tenant_code }
    save (TenantColumn.fineract_tenant_identifier ∷ [])

  unfoldable pub set_registration_error : Exn → Exec (Run env) Unit
  set_registration_error e =
      modify λ s. record s { fineract_registration_error = some (env.exn_text e) }

  -- `register_in_fineract`
  unfoldable pub register_in_fineract : Exec (Run env) Unit
  unfolding create_tenant record_identifier set_registration_error call catch ◌>>=◌
  register_in_fineract = do
    t ← gets (λ s. s.tenant)
    org ← gets (λ s. s.organization)
    catch
        (call (
            create_tenant t.tenant_code (or_else org.trading_name org.legal_name) t.db_host
              t.db_name)
          >> record_identifier)
        (λ e. set_registration_error e >> record_identifier)

  -- The second half of `create_admin_user`: a failure is recorded and not raised.
  unfoldable pub register_admin_user : Text → Text → Exec (Run env) Unit
  unfolding create_tenant_user set_registration_error call catch ◌>>=◌
  register_admin_user email password = do
    t ← gets (λ s. s.tenant)
    catch (call (create_tenant_user t.fineract_tenant_identifier email password) >> pure tt)
        set_registration_error

  -- `create_admin_user`
  unfoldable pub create_admin_user : Exec (Run env) Unit
  unfolding token_urlsafe create_user register_admin_user call ◌>>=◌
  create_admin_user = do
    org ← gets (λ s. s.organization)
    t ← gets (λ s. s.tenant)
    temp_password ← call (token_urlsafe 12)
    call (
        create_user org.contact_email temp_password (record no_extra_fields {
          tenant = some t.id;
          role = Role.ceo;
          first_name = or_else org.trading_name org.legal_name;
        }))
    modify λ s. record s { last_created_password = some temp_password }
    error ← gets (λ s. s.fineract_registration_error)
    when (not (is_truthy error)) (register_admin_user org.contact_email temp_password)

  -- `undo_fineract_registration`
  unfoldable pub undo_fineract_registration : Exec (Run env) Unit
  unfolding delete_tenant call catch ◌>>=◌
  undo_fineract_registration = do
    t ← gets (λ s. s.tenant)
    when (is_nonempty t.fineract_tenant_identifier)
        (catch (call (delete_tenant t.fineract_tenant_identifier)) (λ _. pure tt))
