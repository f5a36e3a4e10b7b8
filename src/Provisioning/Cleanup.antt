-- ===== src/Provisioning/Cleanup.antt =====
-- With PostgreSQL up, a run that fails leaves nothing of the tenant behind.
use mifos_test.Prelude.{ℕ, List, [], ◌∷◌, ◌++◌, none, some, ◌≡◌, text}
use mifos_test.Json.{str, end, field}
use mifos_test.Exec.Post.{Post}
use mifos_test.Models.{AuditLog, Step, step_value}
use mifos_test.Env.{Env}
use mifos_test.Audit.{Entry, audit_row}
use mifos_test.Provisioning.State.{Run}
use mifos_test.Provisioning.Started.{Started}
use mifos_test.Provisioning.Laws.{DropLaws}
use mifos_test.Provisioning.Undo.{IsDropped, HasNoUsers}

-- The steps from CREATE_ADMIN_USER on.
abbrev pub HasReachedAdmin : Step → Type 0
HasReachedAdmin Step.create_admin_user = Unit
HasReachedAdmin Step.send_welcome_email = Unit
HasReachedAdmin Step.activate = Unit
HasReachedAdmin Step.done = Unit
HasReachedAdmin _ = ⊥

abbrev rollback_entry : Env → ℕ → Step → Entry
rollback_entry env tenant failed_step = record {
  actor = none;
  tenant = some tenant;
  action = text "PROVISIONING_ROLLED_BACK";
  actor_ip = none;
  target_type = text "Tenant";
  target_id = env.id_text tenant;
  metadata = field (text "failed_step") (str (step_value failed_step)) end;
}

module _ {env : Env} (laws : DropLaws env) where
  -- What the rollback guarantees: no database and no role, no account if the pipeline had come to
  -- create one, and as its last trace an entry of the audit log that names the step.
  pub record IsCleaned (t : Run env) : Type 0 where
    pub dropped : IsDropped laws t.tenant.db_name t.world.pg
    pub no_users : HasReachedAdmin t.job.current_step → HasNoUsers t.tenant.id t.world
    pub earlier : List AuditLog
    pub audited :
        t.world.audit_logs
        ≡ earlier ++ audit_row (rollback_entry env t.tenant.id t.job.current_step) t.world.now ∷ []

  abbrev logged : Step → Run env → Run env
  logged step u = record u {
    world = record u.world {
      audit_logs =
          u.world.audit_logs ++ audit_row (rollback_entry env u.tenant.id step) u.world.now ∷ [];
    };
  }
