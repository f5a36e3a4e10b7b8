-- ===== src/Provisioning/TakenRun.antt =====
-- A run whose administrator's address is taken destroys what was there.
use mifos_test.Prelude.{not, some, Text, is_truthy, or_else}
use mifos_test.Exec.{modify, when, Exec, gets, ◌>>=◌, ◌>>◌}
use mifos_test.Exec.Post.{Post}
use mifos_test.Exec.Keeps.{Keeps}
use mifos_test.Models.{User, Role}
use mifos_test.Env.{Env}
use mifos_test.World.{World}
use mifos_test.Authentication.{create_user, no_extra_fields}
use mifos_test.Provisioning.State.{Run}
use mifos_test.Provisioning.Registrar.{register_admin_user}
use mifos_test.Provisioning.Taken.{RunTaken}

module _ {env : Env} where
  -- The action does not return while the address is taken.
  record Stops {A : Type 0} (m : Exec (Run env) A) : Type 0 where
    pub stopped : (s : Run env) → RunTaken s → Post (m s) (λ _ _. ⊥) (λ _ _. Unit)

  -- `create_admin_user` once the account is there.
  abbrev after_user : Text → Text → Exec (Run env) Unit
  after_user email password =
      modify (λ s. record s { last_created_password = some password })
      >> (gets (λ s. s.fineract_registration_error) >>= λ error.
          when (not (is_truthy error)) (register_admin_user email password))

  abbrev new_account : Run env → Text → Exec (World env) User
  new_account s password =
      create_user s.organization.contact_email password (record no_extra_fields {
        tenant = some s.tenant.id;
        role = Role.ceo;
        first_name = or_else s.organization.trading_name s.organization.legal_name;
      })
