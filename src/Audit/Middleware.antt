-- ===== src/Audit/Middleware.antt =====
-- backend/audit/middleware.py, and log_action_async of backend/audit/services.py
use mifos_test.Prelude.{
  ℕ, Bool, not, ◌&&◌, ◌||◌, Option, none, some, Text, text, ◌++◌, find, ◌==◌, same_text,
  starts_with, is_some, if◌then◌else◌,
}
use mifos_test.Json.{num, Fields, field, end}
use mifos_test.Exec.{Exec, pure, catch, ◌>>=◌, ◌>>◌}
use mifos_test.Models.{User, Tenant}
use mifos_test.Env.{Env, Task}
use mifos_test.World.{World, delay}
use mifos_test.Http.{Request, Response, get_client_ip}
use mifos_test.Audit.Service.{log}

-- `request.method in SENSITIVE_METHODS`
unfoldable pub is_sensitive : Text → Bool
unfolding same_text
is_sensitive method =
    same_text method (text "POST")
    || same_text method (text "PUT")
    || same_text method (text "PATCH")
    || same_text method (text "DELETE")

-- `request.path.startswith(SKIP_PATH_PREFIXES)`
unfoldable pub is_skipped : Text → Bool
unfolding starts_with
is_skipped path =
    starts_with path (text "/api/v1/auth/login") || starts_with path (text "/api/v1/auth/refresh")

-- The request has a user that is signed in, its method is sensitive, and its path is not skipped.
unfoldable pub is_audited : Text → Option User → Request → Bool
unfolding is_sensitive is_skipped
is_audited method user req = is_sensitive method && is_some user && not (is_skipped req.path)

abbrev pub status_code : Response → ℕ
status_code (Response.json_error status code message) = status
status_code (Response.error_page status message) = status
status_code (Response.view_response status) = status
status_code (Response.json_reply status body) = status
status_code (Response.redirect url) = 302

-- The arguments of `log_action_async.delay(…)`
abbrev pub audit_task : Text → User → Request → Response → Task
audit_task method user req response =
    Task.log_action (some user.id) (elim req.tenant [ none ↦ none | some t ↦ some t.id ])
      (method ++ text " " ++ req.path) (get_client_ip req) (text "HTTPRequest") req.path
      (field (text "status_code") (num (status_code response)) end)

module _ {env : Env} where
  -- Where the broker raises, the handler only logs a line.
  unfoldable pub enqueue : Text → Option User → Request → Response → Exec (World env) Unit
  unfolding is_audited delay get_client_ip
  enqueue method none req response = pure tt
  enqueue method (some user) req response =
      if is_audited method (some user) req
      then catch (delay (audit_task method user req response)) (λ _. pure tt)
      else pure tt

  -- `__call__`
  unfoldable pub audit_requests :
      Exec (World env) Response → Text → Option User → Request → Exec (World env) Response
  unfolding enqueue ◌>>=◌
  audit_requests get_response method user req =
      get_response >>= λ response. enqueue method user req response >> pure response

  -- `actor_id` and `tenant_id` of rows that are there, at the time the task runs
  abbrev present_user : Option ℕ → World env → Option ℕ
  present_user none w = none
  present_user (some id) w = elim (find (λ (u : User). u.id == id) w.users) [
    | none ↦ none
    | some u ↦ some u.id
  ]

  abbrev present_tenant : Option ℕ → World env → Option ℕ
  present_tenant none w = none
  present_tenant (some id) w = elim (find (λ (t : Tenant). t.id == id) w.tenants) [
    | none ↦ none
    | some t ↦ some t.id
  ]

  -- `log_action_async`
  unfoldable pub log_action_async :
      (actor_id tenant_id : Option ℕ) (action : Text) (actor_ip : Option Text)
      (target_type target_id : Text) (metadata : Fields)
      → Exec (World env) Unit
  unfolding log
  log_action_async actor_id tenant_id action actor_ip target_type target_id metadata w =
      log
        (record {
          actor = present_user actor_id w;
          tenant = present_tenant tenant_id w;
          action = action;
          actor_ip = actor_ip;
          target_type = target_type;
          target_id = target_id;
          metadata = metadata;
        })
        w
