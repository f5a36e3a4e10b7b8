-- ===== src/Api/Tenants.antt =====
-- backend/tenants/views.py, backend/provisioning/views.py, and the pages of
-- backend/tenant_manager/views.py and backend/portal/views.py
use mifos_test.Prelude.{
  ℕ, ◌+◌, Bool, false, ◌||◌, Option, none, some, [], Text, text, ◌++◌, ◌==◌, find, rewrite,
  split_first, lower, ltb,
}
use mifos_test.Json.{num, str, end, field, obj}
use mifos_test.Exec.{Exec, data_error, does_not_exist, when, pure, raise, modify, ◌>>=◌, ◌>>◌}
use mifos_test.Models.{User, Tenant, ProvisionJob}
use mifos_test.Env.{Env, Task}
use mifos_test.World.{World, delay}
use mifos_test.Http.{
  Framework, Response, Request, view_response, json_reply, redirect, permitted, given,
}
use mifos_test.Tenants.{suspend, activate, tenant_by_id}
use mifos_test.Authentication.{super_admin_only, platform_support_or_above}
use mifos_test.Organizations.{queue_provisioning}

abbrev pub requeued : ProvisionJob → ProvisionJob
requeued j = record j { retry_count = j.retry_count + 1; is_success = none; error_message = [] }

-- `save(update_fields=["retry_count", "is_success", "error_message"])`
abbrev pub retry_columns : ProvisionJob → ProvisionJob → ProvisionJob
retry_columns j row = record row {
  retry_count = j.retry_count;
  is_success = j.is_success;
  error_message = j.error_message;
}

module _ {env : Env} where
  -- The body of `retry`, for a job that is there
  unfoldable pub requeue : ProvisionJob → Exec (World env) Response
  unfolding delay ◌>>=◌
  requeue j =
      when (ltb 32767 (j.retry_count + 1)) (raise (data_error (text "provisioning_provisionjob")))
      >> (modify (λ v. record v {
        jobs = rewrite (λ r. r.id == j.id) (retry_columns (requeued j)) v.jobs;
      })
          >> (delay (Task.provision_tenant_database j.id)
              >> pure (
                  json_reply 200 (
                    obj (
                      field (text "status") (str (text "requeued"))
                        (field (text "retry_count") (num (requeued j).retry_count) end))))))

module _ {env : Env} (drf : Framework) where
  abbrev pub with_tenant : ℕ → (Tenant → Exec (World env) Response) → Exec (World env) Response
  with_tenant id view w = given (tenant_by_id id w) drf.missing view w

  -- `TenantViewSet.suspend`, for what the serializer made of the data
  unfoldable pub suspend_view : User → ℕ → Option Text → Exec (World env) Response
  unfolding super_admin_only suspend ◌>>=◌
  suspend_view user id form = permitted (super_admin_only (some user)) drf.denied (
      with_tenant id λ t.
        given form drf.invalid
          λ reason. suspend t reason (some user.id) >> pure (view_response 200))

  -- `TenantViewSet.activate`
  unfoldable pub activate_view : User → ℕ → Exec (World env) Response
  unfolding super_admin_only activate ◌>>=◌
  activate_view user id =
      permitted (super_admin_only (some user)) drf.denied
        (with_tenant id λ t. activate t (some user.id) >> pure (view_response 200))

  -- `TenantViewSet.provision`
  unfoldable pub provision_view : User → ℕ → Exec (World env) Response
  unfolding super_admin_only queue_provisioning ◌>>=◌
  provision_view user id = permitted (super_admin_only (some user)) drf.denied (
      with_tenant id λ t. queue_provisioning t >>= λ job. pure (
        json_reply 202 (
          obj (
            field (text "job_id") (str (env.id_text job.id))
              (field (text "status") (str (text "queued")) end)))))

  abbrev pub job_by_id : ℕ → World env → Option ProvisionJob
  job_by_id id w = find (λ (j : ProvisionJob). j.id == id) w.jobs

  -- `ProvisionJobViewSet.retry`; the counter is a `smallint`.
  unfoldable pub retry_view : User → ℕ → Exec (World env) Response
  unfolding platform_support_or_above requeue
  retry_view user id =
      permitted (platform_support_or_above (some user)) drf.denied
        λ w. given (job_by_id id w) drf.missing requeue w

-- f"{request.scheme}://{host}/#/login", for the host without its port
abbrev pub login_url : Text → Text → Text
login_url scheme host = scheme ++ (text "://" ++ (host ++ text "/#/login"))

-- `landing` of backend/tenants/views.py
unfoldable pub landing : Text → Request → Response
unfolding split_first lower
landing scheme req = elim req.tenant [
  | none ↦ view_response 200
  | some t ↦ redirect (login_url scheme (lower (split_first b':' req.host)))
]

-- `home` of backend/tenant_manager/views.py: the page, and whether it is shown to staff
unfoldable pub project_home : Text → Option User → Request → Response × Bool
unfolding split_first
project_home scheme user req = elim req.tenant [
  | none ↦ (
    view_response 200,
    elim user [ none ↦ false | some u ↦ u.is_platform_staff || u.is_superuser ],
  )
  | some t ↦ (redirect (login_url scheme (split_first b':' req.host)), false)
]

-- `home` of backend/portal/views.py; Http404 without a tenant
unfoldable pub portal_home : {env : Env} → Text → Request → Exec (World env) Response
unfolding split_first lower
portal_home scheme req = elim req.tenant [
  | none ↦ raise does_not_exist
  | some t ↦ pure (redirect (login_url scheme (lower (split_first b':' req.host))))
]

-- `TenantLoginView.dispatch`
unfoldable pub portal_login :
    {env : Env} → (Request → Exec (World env) Response) → Request → Exec (World env) Response
portal_login login req = elim req.tenant [ none ↦ raise does_not_exist | some t ↦ login req ]
