-- ===== src/Models/Work.antt =====
-- backend/provisioning/models.py, backend/audit/models.py and backend/subscriptions/models.py
use mifos_test.Prelude.{ℕ, Bool, Text, text, Option}
use mifos_test.Json.{Fields}

-- `ProvisionJob.Step`
pub data Step : Type 0 where
  validate create_db create_db_user grant_permissions run_fineract_schema : Step
  register_fineract_tenant save_registry create_admin_user send_welcome_email activate done : Step

-- `step.value`
abbrev pub step_value : Step → Text
step_value Step.validate = text "VALIDATE"
step_value Step.create_db = text "CREATE_DB"
step_value Step.create_db_user = text "CREATE_DB_USER"
step_value Step.grant_permissions = text "GRANT_PERMISSIONS"
step_value Step.run_fineract_schema = text "RUN_FINERACT_SCHEMA"
step_value Step.register_fineract_tenant = text "REGISTER_FINERACT_TENANT"
step_value Step.save_registry = text "SAVE_REGISTRY"
step_value Step.create_admin_user = text "CREATE_ADMIN_USER"
step_value Step.send_welcome_email = text "SEND_WELCOME_EMAIL"
step_value Step.activate = text "ACTIVATE"
step_value Step.done = text "DONE"

pub record ProvisionJob : Type 0 where
  pub id : ℕ
  pub tenant : ℕ
  pub current_step : Step
  pub is_success : Option Bool
  pub error_message : Text
  pub retry_count : ℕ
  pub started_at : ℕ
  pub finished_at : Option ℕ
  pub celery_task_id : Text

pub record AuditLog : Type 0 where
  pub tenant : Option ℕ
  pub actor_user : Option ℕ
  pub actor_ip : Option Text
  pub action : Text
  pub target_type : Text
  pub target_id : Text
  pub metadata : Fields
  pub created_at : ℕ

pub data Plan : Type 0 where
  starter growth enterprise : Plan

pub data SubscriptionStatus : Type 0 where
  trial active past_due canceled : SubscriptionStatus

pub record Subscription : Type 0 where
  pub id : ℕ
  pub tenant : ℕ
  pub plan : Plan
  pub status : SubscriptionStatus
  pub max_members : ℕ
  pub max_branches : ℕ
  pub trial_ends_at : Option ℕ
  pub current_period_start : ℕ
  pub current_period_end : ℕ
