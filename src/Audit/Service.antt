-- ===== src/Audit/Service.antt =====
-- backend/audit/services.py, class AuditService
use mifos_test.Prelude.{ℕ, Option, none, some, List, Text, text, take, if◌then◌else◌, [], ◌∷◌, ◌++◌}
use mifos_test.Json.{Fields}
use mifos_test.Exec.{Exec, Result, ok, err, data_error}
use mifos_test.Models.{AuditLog}
use mifos_test.Env.{Env, inet_fits}
use mifos_test.World.{World}

-- What a caller hands to `AuditService.log`; the row is built from it.
pub record Entry : Type 0 where
  pub actor : Option ℕ
  pub tenant : Option ℕ
  pub action : Text
  pub actor_ip : Option Text
  pub target_type : Text
  pub target_id : Text
  pub metadata : Fields

-- Django stores an empty address as NULL.
abbrev pub stored_ip : Option Text → Option Text
stored_ip none = none
stored_ip (some []) = none
stored_ip (some (c ∷ cs)) = some (c ∷ cs)

-- The texts are cut to the lengths of their columns.
unfoldable pub audit_row : Entry → ℕ → AuditLog
audit_row e now = record {
  tenant = e.tenant;
  actor_user = e.actor;
  actor_ip = stored_ip e.actor_ip;
  action = take 255 e.action;
  target_type = take 128 e.target_type;
  target_id = take 255 e.target_id;
  metadata = e.metadata;
  created_at = now;
}

-- The insertion of the row: an address that is no IP is refused by the column.
abbrev pub insertion_of : Env → Entry → Result (Unit {0})
insertion_of env e =
    if inet_fits env e.actor_ip then ok tt else err (data_error (text "audit_auditlog"))

-- The rows that it adds.
abbrev pub rows_of : Env → Entry → ℕ → List AuditLog
rows_of env e now = if inet_fits env e.actor_ip then audit_row e now ∷ [] else []

module _ {env : Env} where
  -- `AuditService.log(…)`
  unfoldable pub log : Entry → Exec (World env) Unit
  log e w = (insertion_of env e, record w { audit_logs = w.audit_logs ++ rows_of env e w.now })
