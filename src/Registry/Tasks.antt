-- ===== src/Registry/Tasks.antt =====
-- Background tasks, the middleware and the administration of keys keep the registry sound.
use mifos_test.Prelude.{
  ℕ, Option, none, some, List, [], ◌∷◌, Text, Bool-cases, inl, inr, leb, ltb, true,
}
use mifos_test.Exec.{modify, Exn}
use mifos_test.Exec.Keeps.{Keeps, Keeps-bind, Keeps-pure, keeps_rules}
use mifos_test.Models.{Role, Tenant, User, ApiKey, ProvisionJob, Organization}
use mifos_test.Env.{Env, Mail, PgDump}
use mifos_test.World.{World, cache_get, cache_set}
use mifos_test.Http.{Request, Framework, given}
use mifos_test.Tenants.{
  is_platform, normalize, domain_key, judge, resolve, look_up, remember, queue_backups,
  backup_all_tenant_databases, make_dirs, run_dump, backup_found, backup_tenant_database,
}
use mifos_test.Authentication.{
  revoke_tenant_sessions, purge_expired_sessions, rate_limit, admit_request,
  platform_support_or_above, create_superuser, ExtraFields,
}
use mifos_test.Subscriptions.{sweep_expired_subscriptions}
use mifos_test.Organizations.{verify_kyc, queue_if_pending}
use mifos_test.Api.{retry_view, requeue, job_by_id, destroy_key, key_of}
use mifos_test.Json.{Fields}
use mifos_test.Audit.{log, log_action_async}
use mifos_test.Notifications.{
  post_mail, retry_welcome, send_welcome_email, send_tenant_activated_email,
}
use mifos_test.Registry.SigningIn.{or_raise-Holds}
use mifos_test.Registry.Tables.{Holds, create_user-Holds, delay-Holds}
use mifos_test.Registry.Adding.{permitted-Holds, given-Holds, queue_provisioning-Holds}

module _ {env : Env} {least : ℕ} where
  pub revoke_tenant_sessions-Holds :
      (tenant : ℕ) → Keeps (Holds {env = env} least) (revoke_tenant_sessions tenant)
  unfolding revoke_tenant_sessions
  revoke_tenant_sessions-Holds tenant = record { kept = λ w h. h }

  pub purge_expired_sessions-Holds : Keeps (Holds {env = env} least) purge_expired_sessions
  unfolding purge_expired_sessions
  purge_expired_sessions-Holds = record { kept = λ w h. h }

  pub sweep-Holds : Keeps (Holds {env = env} least) sweep_expired_subscriptions
  unfolding sweep_expired_subscriptions
  sweep-Holds = record { kept = λ w h. h }

  queue_backups-Holds : (ids : List ℕ) → Keeps (Holds {env = env} least) (queue_backups ids)
  unfolding queue_backups
  queue_backups-Holds [] = record { kept = λ w h. h }
  queue_backups-Holds (id ∷ ids) = Keeps-bind _ _ (delay-Holds _) (λ _. queue_backups-Holds ids)

  pub backup_all-Holds : Keeps (Holds {env = env} least) backup_all_tenant_databases
  unfolding backup_all_tenant_databases
  backup_all-Holds = record { kept = λ w h. (queue_backups-Holds _).kept w h }

  cache_set-Holds :
      (key : Text) (value timeout : ℕ)
      → Keeps (Holds {env = env} least) (cache_set key value timeout)
  unfolding cache_set
  cache_set-Holds key value timeout = record { kept = λ w h. h }

  cache_get-Holds : (key : Text) → Keeps (Holds {env = env} least) (cache_get key)
  unfolding cache_get
  cache_get-Holds key = record { kept = λ w h. h }

  admit_request-Holds :
      (key : Text) (limit count : ℕ)
      → Keeps (Holds {env = env} least) (admit_request key limit count)
  unfolding admit_request
  admit_request-Holds key limit count = elim (Bool-cases (leb limit count)) [
    | inl over ↦ rw over (record { kept = λ w h. h })
    | inr under ↦ rw under (search (keeps_rules, cache_set-Holds) depth 8)
  ]

  pub rate_limit-Holds : (req : Request) → Keeps (Holds {env = env} least) (rate_limit req)
  unfolding rate_limit
  rate_limit-Holds req = search (keeps_rules, cache_get-Holds, admit_request-Holds) depth 8

  remember-Holds :
      (host : Text) (found : Option Tenant) → Keeps (Holds {env = env} least) (remember host found)
  unfolding remember
  remember-Holds host none = record { kept = λ w h. h }
  remember-Holds host (some t) = search (keeps_rules, cache_set-Holds) depth 8

  look_up-Holds :
      (host : Text) (cached : Option ℕ) → Keeps (Holds {env = env} least) (look_up host cached)
  unfolding look_up
  look_up-Holds host (some id) = record { kept = λ w h. h }
  look_up-Holds host none = search (keeps_rules, remember-Holds) depth 8

  pub resolve-Holds : (req : Request) → Keeps (Holds {env = env} least) (resolve req)
  unfolding resolve
  resolve-Holds req = record {
    kept = λ w h. elim (Bool-cases (is_platform env.settings req)) [
      | inl own ↦ rw own h
      | inr other ↦ rw other (
          (Keeps-bind (cache_get (domain_key (normalize req.host))) _ (cache_get-Holds _) (λ cached.
              Keeps-bind (look_up (normalize req.host) cached) _ (look_up-Holds _ cached)
                (λ t. Keeps-pure (judge req t)))).kept
            w h)
    ];
  }

  requeued-Holds :
      (f : World env → List ProvisionJob)
      → Keeps (Holds {env = env} least) (modify λ (w : World env). record w { jobs = f w })
  requeued-Holds f = record { kept = λ w h. h }

  requeue-Holds : (j : ProvisionJob) → Keeps (Holds {env = env} least) (requeue j)
  unfolding requeue
  requeue-Holds j = search (keeps_rules, requeued-Holds, delay-Holds) depth 10

  pub retry_view-Holds :
      (drf : Framework) (user : User) (id : ℕ)
      → Keeps (Holds {env = env} least) (retry_view drf user id)
  unfolding retry_view
  retry_view-Holds drf user id =
      permitted-Holds (platform_support_or_above (some user)) drf.denied
        (λ w. given (job_by_id drf id w) drf.missing requeue w)
        (record {
          kept =
              λ w h. (given-Holds (job_by_id drf id w) drf.missing requeue requeue-Holds).kept w h;
        })

  key_deactivated-Holds :
      (f : World env → List ApiKey)
      → Keeps (Holds {env = env} least) (modify λ (w : World env). record w { api_keys = f w })
  key_deactivated-Holds f = record { kept = λ w h. h }

  pub destroy_key-Holds :
      (drf : Framework) (tenant : Option Tenant) (id : ℕ)
      → Keeps (Holds {env = env} least) (destroy_key drf tenant id)
  unfolding destroy_key
  destroy_key-Holds drf tenant id = record {
    kept = λ w h.
        (given-Holds (key_of tenant id w) drf.missing _
            (λ k. search (keeps_rules, key_deactivated-Holds) depth 8)).kept
          w h;
  }

  queue_if_pending-Holds :
      (t : Option Tenant) → Keeps (Holds {env = env} least) (queue_if_pending t)
  queue_if_pending-Holds none = record { kept = λ w h. h }
  queue_if_pending-Holds (some t) = search (keeps_rules, queue_provisioning-Holds) depth 8

  kyc_written-Holds :
      (f : World env → List Organization)
      → Keeps (Holds {env = env} least) (modify λ (w : World env). record w { organizations = f w })
  kyc_written-Holds f = record { kept = λ w h. h }

  pub verify_kyc-Holds : (org : Organization) → Keeps (Holds {env = env} least) (verify_kyc org)
  unfolding verify_kyc
  verify_kyc-Holds org = search (keeps_rules, kyc_written-Holds, queue_if_pending-Holds) depth 8

  post_mail-Holds : (mail : Mail) → Keeps (Holds {env = env} least) (post_mail mail)
  unfolding post_mail
  post_mail-Holds mail = record { kept = λ w h. h }

  retry_welcome-Holds :
      (id retries : ℕ) (e : Exn) → Keeps (Holds {env = env} least) (retry_welcome id retries e)
  unfolding retry_welcome
  retry_welcome-Holds id retries e = elim (Bool-cases (ltb retries 3)) [
    | inl again ↦ rw again (search (keeps_rules, delay-Holds) depth 8)
    | inr over ↦ rw over (search keeps_rules depth 8)
  ]

  pub send_welcome_email-Holds :
      (id retries : ℕ) → Keeps (Holds {env = env} least) (send_welcome_email id retries)
  unfolding send_welcome_email
  send_welcome_email-Holds id retries =
      search (keeps_rules, or_raise-Holds, post_mail-Holds, retry_welcome-Holds) depth 10

  pub activated_email-Holds :
      (id : ℕ) → Keeps (Holds {env = env} least) (send_tenant_activated_email id)
  unfolding send_tenant_activated_email
  activated_email-Holds id = search (keeps_rules, or_raise-Holds, post_mail-Holds) depth 10

  make_dirs-Holds : (path : Text) → Keeps (Holds {env = env} least) (make_dirs path)
  unfolding make_dirs
  make_dirs-Holds path = record { kept = λ w h. h }

  run_dump-Holds : (command : PgDump) → Keeps (Holds {env = env} least) (run_dump command)
  unfolding run_dump
  run_dump-Holds command = record { kept = λ w h. h }

  backup_found-Holds : (t : Option Tenant) → Keeps (Holds {env = env} least) (backup_found t)
  unfolding backup_found
  backup_found-Holds none = record { kept = λ w h. h }
  backup_found-Holds (some t) = search (keeps_rules, make_dirs-Holds, run_dump-Holds) depth 8

  pub backup-Holds : (id : ℕ) → Keeps (Holds {env = env} least) (backup_tenant_database id)
  unfolding backup_tenant_database
  backup-Holds id = search (keeps_rules, backup_found-Holds) depth 8

  pub log_action-Holds :
      (actor tenant : Option ℕ) (action : Text) (ip : Option Text) (target_type target_id : Text)
      (metadata : Fields)
      → Keeps
          (Holds {env = env} least)
          (log_action_async actor tenant action ip target_type target_id metadata)
  unfolding log_action_async log
  log_action-Holds actor tenant action ip target_type target_id metadata = record {
    kept = λ w h. h;
  }

  pub create_superuser-Holds :
      (email password : Text) (extra : ExtraFields)
      → Keeps (Holds {env = env} least) (create_superuser email password extra)
  unfolding create_superuser
  create_superuser-Holds email password extra = create_user-Holds email password (record extra {
    is_staff = true;
    is_superuser = true;
    is_platform_staff = true;
    role = Role.super_admin;
  })
