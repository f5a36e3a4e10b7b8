-- ===== src/Registry/Steps.antt =====
-- The requests and the tasks, as steps, and what all of them keep. The rows that the framework's
-- own pages write, such as a domain that is edited on its administration page, are left out.
use mifos_test.Prelude.{ℕ, Option, List, Text}
use mifos_test.Models.{Organization, Tenant, User, ProvisionJob}
use mifos_test.Env.{Env}
use mifos_test.World.{World, atomic}
use mifos_test.Http.{Request, Framework}
use mifos_test.Json.{Fields}
use mifos_test.Audit.{log_action_async}
use mifos_test.Notifications.{send_welcome_email, send_tenant_activated_email}
use mifos_test.Tenants.{backup_tenant_database, resolve, backup_all_tenant_databases}
use mifos_test.Authentication.{
  Client, create_superuser, ExtraFields, rate_limit, revoke_tenant_sessions, purge_expired_sessions,
}
use mifos_test.Subscriptions.{sweep_expired_subscriptions}
use mifos_test.Organizations.{
  OrganizationForm, Session, create_organization, tenant_retry, verify_kyc,
}
use mifos_test.Provisioning.{start, provision_tenant_database_task}
use mifos_test.Domains.{add_custom_domain, verify_custom_domain}
use mifos_test.Administration.{TenantForm, save_new}
use mifos_test.Api.{
  LoginData, login_view, refresh_view, logout_all_view, mfa_enroll_view, mfa_confirm_view,
  suspend_view, activate_view, provision_view, retry_view, create_key, destroy_key,
}
use mifos_test.Registry.{Sound}
use mifos_test.Registry.Requests.{atomic-Holds}
use mifos_test.Registry.Pipeline.{task-HoldsIn}
use mifos_test.Registry.Adding.{
  create_organization-Holds, tenant_retry-Holds, add_custom_domain-Holds,
  verify_custom_domain-Holds, save_new-Holds,
}
use mifos_test.Registry.Views.{
  login_view-Holds, refresh_view-Holds, logout_all_view-Holds, mfa_enroll_view-Holds,
  mfa_confirm_view-Holds, suspend_view-Holds, activate_view-Holds, provision_view-Holds,
  create_key-Holds,
}
use mifos_test.Registry.Tasks.{
  backup-Holds, send_welcome_email-Holds, activated_email-Holds, log_action-Holds,
  create_superuser-Holds, revoke_tenant_sessions-Holds, purge_expired_sessions-Holds, sweep-Holds,
  backup_all-Holds, rate_limit-Holds, resolve-Holds, retry_view-Holds, destroy_key-Holds,
  verify_kyc-Holds,
}

module _ {env : Env} (drf : Framework) where
  -- One request, one task, or the time that passes. Whether the operation returns or raises, the
  -- next one starts from what it left.
  pub data Event (w : World env) : World env → Type 0 where
    at_time : (time : ℕ) → Event w (record w { now = time })
    resolved : (req : Request) → Event w (resolve req w).1
    limited : (req : Request) → Event w (rate_limit req w).1
    signed_in :
        (tenant : Option Tenant) (form : Option LoginData) (client : Client)
        → Event w (login_view drf tenant form client w).1
    refreshed : (form : Option Text) (client : Client) → Event w (refresh_view drf form client w).1
    signed_out : (u : User) → Event w (logout_all_view u w).1
    enrolled : (u : User) → Event w (mfa_enroll_view u w).1
    confirmed : (u : User) (code : Text) → Event w (mfa_confirm_view u code w).1
    key_created :
        (tenant : Option Tenant) (u : User) (name : Text) (scopes : List Text)
        → Event w (create_key tenant u name scopes w).1
    key_destroyed : (tenant : Option Tenant) (id : ℕ) → Event w (destroy_key drf tenant id w).1
    tenant_suspended :
        (user : User) (id : ℕ) (form : Option Text) → Event w (suspend_view drf user id form w).1
    tenant_activated : (user : User) (id : ℕ) → Event w (activate_view drf user id w).1
    provisioning_queued : (user : User) (id : ℕ) → Event w (provision_view drf user id w).1
    job_requeued : (user : User) (id : ℕ) → Event w (retry_view drf user id w).1
    organization_created :
        (f : OrganizationForm) (session : Session) → Event w (create_organization f session w).1
    run_again : (id : ℕ) (session : Session) → Event w (tenant_retry id session w).1
    kyc_verified : (org : Organization) → Event w (verify_kyc org w).1
    job_run :
        (t : Tenant) (org : Organization) (job : ProvisionJob) (request_id : Text) (retries : ℕ)
        → Event w (provision_tenant_database_task request_id retries (start w t org job)).1.world
    tenant_added : (f : TenantForm) (t : Tenant) → Event w (atomic (save_new f t) w).1
    domain_added :
        (user : Option User) (tenant : Option Tenant) (hostname : Option Text)
        → Event w (add_custom_domain drf.denied user tenant hostname w).1
    domain_verified : (id : ℕ) → Event w (verify_custom_domain id w).1
    sessions_revoked : (tenant : ℕ) → Event w (revoke_tenant_sessions tenant w).1
    sessions_purged : Event w (purge_expired_sessions w).1
    subscriptions_swept : Event w (sweep_expired_subscriptions w).1
    backed_up : (id : ℕ) → Event w (backup_tenant_database id w).1
    welcomed : (id retries : ℕ) → Event w (send_welcome_email id retries w).1
    announced : (id : ℕ) → Event w (send_tenant_activated_email id w).1
    logged :
        (actor tenant : Option ℕ) (action : Text) (ip : Option Text) (target_type target_id : Text)
        (metadata : Fields)
        → Event w (log_action_async actor tenant action ip target_type target_id metadata w).1
    superuser_created :
        (email password : Text) (extra : ExtraFields)
        → Event w (create_superuser email password extra w).1
    backups_queued : Event w (backup_all_tenant_databases w).1

  Event-Sound : (w v : World env) → Event w v → Sound w → Sound v
  Event-Sound w v (at_time time) h = h
  Event-Sound w v (resolved req) h = (resolve-Holds req).kept w h
  Event-Sound w v (limited req) h = (rate_limit-Holds req).kept w h
  Event-Sound w v (signed_in tenant form client) h =
      (login_view-Holds drf tenant form client).kept w h
  Event-Sound w v (refreshed form client) h = (refresh_view-Holds drf form client).kept w h
  Event-Sound w v (signed_out u) h = (logout_all_view-Holds u).kept w h
  Event-Sound w v (enrolled u) h = (mfa_enroll_view-Holds u).kept w h
  Event-Sound w v (confirmed u code) h = (mfa_confirm_view-Holds u code).kept w h
  Event-Sound w v (key_created tenant u name scopes) h =
      (create_key-Holds tenant u name scopes).kept w h
  Event-Sound w v (key_destroyed tenant id) h = (destroy_key-Holds drf tenant id).kept w h
  Event-Sound w v (tenant_suspended user id form) h = (suspend_view-Holds drf user id form).kept w h
  Event-Sound w v (tenant_activated user id) h = (activate_view-Holds drf user id).kept w h
  Event-Sound w v (provisioning_queued user id) h = (provision_view-Holds drf user id).kept w h
  Event-Sound w v (job_requeued user id) h = (retry_view-Holds drf user id).kept w h
  Event-Sound w v (organization_created f session) h =
      (create_organization-Holds f session).kept w h
  Event-Sound w v (run_again id session) h = (tenant_retry-Holds id session).kept w h
  Event-Sound w v (kyc_verified org) h = (verify_kyc-Holds org).kept w h
  Event-Sound w v (job_run t org job request_id retries) h =
      (task-HoldsIn request_id retries).kept (start w t org job) h
  Event-Sound w v (tenant_added f t) h =
      (atomic-Holds (save_new f t) (λ k. save_new-Holds f t)).kept w h
  Event-Sound w v (domain_added user tenant hostname) h =
      (add_custom_domain-Holds drf.denied user tenant hostname).kept w h
  Event-Sound w v (domain_verified id) h = (verify_custom_domain-Holds id).kept w h
  Event-Sound w v (sessions_revoked tenant) h = (revoke_tenant_sessions-Holds tenant).kept w h
  Event-Sound w v sessions_purged h = purge_expired_sessions-Holds.kept w h
  Event-Sound w v subscriptions_swept h = sweep-Holds.kept w h
  Event-Sound w v (backed_up id) h = (backup-Holds id).kept w h
  Event-Sound w v (welcomed id retries) h = (send_welcome_email-Holds id retries).kept w h
  Event-Sound w v (announced id) h = (activated_email-Holds id).kept w h
  Event-Sound w v (logged actor tenant action ip target_type target_id metadata) h =
      (log_action-Holds actor tenant action ip target_type target_id metadata).kept w h
  Event-Sound w v (superuser_created email password extra) h =
      (create_superuser-Holds email password extra).kept w h
  Event-Sound w v backups_queued h = backup_all-Holds.kept w h

  -- Any number of them, one after the other.
  pub data Steps : World env → World env → Type 0 where
    still : (w : World env) → Steps w w
    step : (w v u : World env) → Event w v → Steps v u → Steps w u

  -- Whatever requests and tasks of those that `Event` lists follow each other, in whatever order and
  -- whether they return or raise, if at first no hostname was there twice, no tenant had two primary domains, no two accounts had one
  -- address, no two tenants shared a code, a database or a Fineract tenant, and every tenant was
  -- older than the next primary key, it is so afterwards.
  pub reachable-Sound : (w v : World env) → Steps w v → Sound w → Sound v
  reachable-Sound w v (still x) h = h
  reachable-Sound w v (step x y z e rest) h = reachable-Sound y z rest (Event-Sound x y e h)
