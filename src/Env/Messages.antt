-- ===== src/Env/Messages.antt =====
-- What crosses to the outside: SQL statements, HTTP requests with their replies, and queued tasks.
use mifos_test.Prelude.{ℕ, Bool, Text, Option}
use mifos_test.Json.{Json, Fields}

-- The statements of backend/provisioning/services.py, with their parameters, and the one of its
-- tasks.py, which names no owner.
pub data Statement : Type 0 where
  select_role select_database : Text → Statement
  create_role : Text → Text → Statement
  create_database : Text → Text → Statement
  create_own_database : Text → Statement
  grant_all : Text → Text → Statement
  drop_database drop_role : Text → Statement

pub data Method : Type 0 where
  get post put delete : Method

pub record HttpRequest : Type 0 where
  pub method : Method
  pub url : Text
  pub tenant_header : Text
  pub username : Text
  pub password : Text
  pub params : Fields
  pub body : Option Json
  pub timeout : ℕ
  pub verify : Bool

-- The content of a response: empty, JSON, or text that is no JSON.
pub data Content : Type 0 where
  empty : Content
  json : Json → Content
  plain : Text → Content

-- `requests.Timeout`, another exception of the library, or a response with its status.
pub data Reply : Type 0 where
  timed_out : Reply
  broken : Text → Reply
  response : ℕ → Content → Reply

-- The command line of a backup, with the password that its environment carries.
pub record PgDump : Type 0 where
  pub host : Text
  pub port : ℕ
  pub user : Text
  pub password : Text
  pub file : Text
  pub db_name : Text

pub record Mail : Type 0 where
  pub subject : Text
  pub message : Text
  pub from_email : Text
  pub recipient : Text

pub data Task : Type 0 where
  send_welcome_email send_tenant_activated_email revoke_tenant_sessions : ℕ → Task
  provision_tenant_database verify_custom_domain backup_tenant_database : ℕ → Task
  log_action : Option ℕ → Option ℕ → Text → Option Text → Text → Text → Fields → Task
