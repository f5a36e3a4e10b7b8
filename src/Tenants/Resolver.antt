-- ===== src/Tenants/Resolver.antt =====
-- backend/tenants/middleware.py, class TenantResolverMiddleware
use mifos_test.Prelude.{
  ℕ, Bool, ◌||◌, Option, none, some, Text, text, ◌==◌, if◌then◌else◌, same_text, exists, find, map,
  starts_with, strip, rstrip, split_first, lower,
}
use mifos_test.Exec.{Exec, pure, gets, ◌>>=◌, ◌>>◌}
use mifos_test.Models.{Tenant, Domain, TenantStatus}
use mifos_test.Env.{Env, Settings}
use mifos_test.World.{World, cache_get, cache_set}
use mifos_test.Http.{Request, Response, json_error, error_page}
use mifos_test.Tenants.Domains.{domain_key}

-- `DOMAIN_CACHE_TTL`
abbrev domain_cache_ttl : ℕ
domain_cache_ttl = 300

-- `_normalize`
unfoldable pub normalize : Text → Text
unfolding split_first strip rstrip lower
normalize host = lower (rstrip (λ c. c == b'.') (strip (split_first b':' host)))

-- `_error_response`
unfoldable pub error_response : Request → ℕ → Text → Text → Response
unfolding starts_with
error_response req status code message =
    if starts_with req.path (text "/api/")
    then json_error status code message
    else error_page status message

abbrev pub not_found_response : Request → Response
not_found_response req =
    error_response req 404 (text "TENANT_NOT_FOUND") (text "Organization not found.")

abbrev pub suspended_response : Request → Response
suspended_response req =
    error_response req 403 (text "TENANT_SUSPENDED")
      (text "This organization's account is suspended.")

abbrev pub not_ready_response : Request → Response
not_ready_response req =
    error_response req 503 (text "TENANT_NOT_READY")
      (text "This organization is still being set up.")

-- The paths and hosts that belong to the platform itself.
unfoldable pub is_platform : Settings → Request → Bool
unfolding starts_with same_text normalize
is_platform settings req =
    (starts_with req.path (text "/admin/") || starts_with req.path (text "/api/v1/health"))
    || (exists (same_text (normalize req.host)) (map normalize settings.platform_admin_hosts)
        || starts_with (normalize req.host) (text "admin."))

-- What the middleware does with a request: it is passed on with `request.tenant`, or answered.
pub data Verdict : Type 0 where
  pass : Option Tenant → Verdict
  refuse : Response → Verdict

-- The checks of the tenant's status.
unfoldable pub judge_status : Request → Tenant → TenantStatus → Verdict
unfolding error_response
judge_status req t TenantStatus.suspended = refuse (suspended_response req)
judge_status req t TenantStatus.ready = pass (some t)
judge_status req t _ = refuse (not_ready_response req)

unfoldable pub judge : Request → Option Tenant → Verdict
unfolding judge_status error_response
judge req none = refuse (not_found_response req)
judge req (some t) = judge_status req t t.status

module _ {env : Env} where
  -- `Tenant.objects.filter(id=tenant_id).first()`
  abbrev pub tenant_by_id : ℕ → World env → Option Tenant
  tenant_by_id id w = find (λ t. t.id == id) w.tenants

  abbrev pub owner : Option Domain → World env → Option Tenant
  owner none w = none
  owner (some d) w = tenant_by_id d.tenant w

  -- The tenant of the first domain row with that hostname, through the join of `select_related`.
  unfoldable pub tenant_by_hostname : Text → World env → Option Tenant
  unfolding same_text
  tenant_by_hostname host w = owner (find (λ d. same_text d.hostname host) w.domains) w

  -- `cache.set(…)` for a tenant that was found
  unfoldable pub remember : Text → Option Tenant → Exec (World env) (Option Tenant)
  unfolding cache_set ◌>>=◌
  remember host none = pure none
  remember host (some t) = cache_set (domain_key host) t.id domain_cache_ttl >> pure (some t)

  -- The cache holds the tenant's id only: the row is read again in any case.
  unfoldable pub look_up : Text → Option ℕ → Exec (World env) (Option Tenant)
  unfolding tenant_by_hostname remember ◌>>=◌
  look_up host (some id) = gets (tenant_by_id id)
  look_up host none = gets (tenant_by_hostname host) >>= remember host

  -- `__call__`, up to the call of `get_response`
  unfoldable pub resolve : Request → Exec (World env) Verdict
  unfolding is_platform normalize look_up judge cache_get ◌>>=◌
  resolve req w =
      if is_platform env.settings req
      then (pure (pass none) w)
      else let host = normalize req.host in
        (cache_get (domain_key host) >>= λ cached. look_up host cached >>= λ t. pure (judge req t))
          w

  abbrev pub respond :
      (Option Tenant → Exec (World env) Response) → Verdict → Exec (World env) Response
  respond get_response (pass t) = get_response t
  respond get_response (refuse r) = pure r

  -- `__call__`, where `get_response` takes the tenant that it attaches
  unfoldable pub resolver :
      (Option Tenant → Exec (World env) Response) → Request → Exec (World env) Response
  unfolding resolve ◌>>=◌
  resolver get_response req = resolve req >>= respond get_response
