-- ===== src/Provisioning/Rollback.antt =====
-- backend/provisioning/services.py: class RollbackManager
use mathlib.Core.List.{reverse}
use mathlib.Core.Logic.{ite}
use mifos_test.Prelude.{ℕ, suc, none, some, List, [], ◌∷◌, text, take}
use mifos_test.Json.{str, end, field}
use mifos_test.Exec.{Exec, pure, gets, ◌>>=◌, ◌>>◌}
use mifos_test.Models.{Step, step_value}
use mifos_test.Env.{Env}
use mifos_test.Audit.{log}
use mifos_test.Authentication.{delete_users_of}
use mifos_test.Provisioning.State.{Run, call}
use mifos_test.Provisioning.Database.{drop_all}
use mifos_test.Provisioning.Registrar.{undo_fineract_registration}

pub Step-discrete : Discrete Step
Step-discrete = hlevel

-- `list(ProvisionJob.Step)`
abbrev pub step_order : List Step
step_order =
    Step.validate ∷ Step.create_db ∷ Step.create_db_user ∷ Step.grant_permissions
    ∷ Step.run_fineract_schema ∷ Step.register_fineract_tenant ∷ Step.save_registry
    ∷ Step.create_admin_user ∷ Step.send_welcome_email ∷ Step.activate ∷ Step.done ∷ []

-- `order.index(step)`
unfoldable pub index_of : Step → List Step → ℕ
unfolding Step-discrete
index_of step [] = 0
index_of step (s ∷ rest) =
    let later = suc (index_of step rest) in ite (Step-discrete s step) 0 later

-- `reversed(order[: idx + 1])`
unfoldable pub back_from : Step → List Step
unfolding index_of
back_from failed_step = reverse (take (suc (index_of failed_step step_order)) step_order)

module _ {env : Env} where
  -- `_undo_create_admin_user`
  unfoldable pub undo_create_admin_user : Exec (Run env) Unit
  unfolding delete_users_of call ◌>>=◌
  undo_create_admin_user = do t ← gets (λ s. s.tenant); call (delete_users_of t.id)

  -- `getattr(self, f"_undo_{step.value.lower()}", None)`, called where it is there
  unfoldable pub undo : Step → Exec (Run env) Unit
  unfolding undo_create_admin_user undo_fineract_registration drop_all
  undo Step.create_admin_user = undo_create_admin_user
  undo Step.register_fineract_tenant = undo_fineract_registration
  undo Step.create_db_user = drop_all
  undo Step.create_db = drop_all
  undo _ = pure tt

  unfoldable pub undo_each : List Step → Exec (Run env) Unit
  unfolding undo ◌>>=◌
  undo_each [] = pure tt
  undo_each (step ∷ steps) = undo step >> undo_each steps

  -- `execute_from`
  unfoldable pub execute_from : Step → Exec (Run env) Unit
  unfolding back_from undo_each log call ◌>>=◌
  execute_from failed_step = do
    undo_each (back_from failed_step)
    t ← gets (λ s. s.tenant)
    call (
        log (record {
          actor = none;
          tenant = some t.id;
          action = text "PROVISIONING_ROLLED_BACK";
          actor_ip = none;
          target_type = text "Tenant";
          target_id = env.id_text t.id;
          metadata = field (text "failed_step") (str (step_value failed_step)) end;
        }))
