-- ===== src/Registry/Views.antt =====
-- The views of the REST interface and the tasks keep the registry sound.
use mifos_test.Prelude.{
  ltb, length, exists, same_text, inl, inr, Bool-cases, ℕ, Bool, true, false, Option, none, some,
  List, Text, if◌then◌else◌, refl,
}
use mifos_test.Exec.{Exec, Exn, authentication_error, pure, modify, ◌>>◌}
use mifos_test.Exec.Keeps.{Keeps, keeps_rules}
use mifos_test.Models.{ApiKey, Tenant, User}
use mifos_test.Env.{Env}
use mifos_test.World.{World}
use mifos_test.Http.{unless_throttled, Response, Framework}
use mifos_test.Tenants.{tenant_by_id}
use mifos_test.Authentication.{
  Client, enroll_mfa, confirm_mfa_enrollment, update_user, random_base32,
}
use mifos_test.Api.{
  prefix_of, LoginData, unauthorized, login_view, refresh_view, logout_all_view, mfa_enroll_view,
  mfa_confirm_view, suspend_view, activate_view, provision_view, insert_key, create_key,
  with_tenant,
}
use mifos_test.Registry.Tables.{Holds, token_urlsafe-Holds, encrypt_secret-Holds}
use mifos_test.Registry.Requests.{bumped, suspend-Holds, activate-Holds, update_user-Holds}
use mifos_test.Registry.SigningIn.{
  authenticate-Holds, rotate_refresh_token-Holds, revoke_all_sessions-Holds, verify_mfa-Holds,
}
use mifos_test.Registry.Adding.{permitted-Holds, given-Holds, queue_provisioning-Holds}

module _ {env : Env} {least : ℕ} where
  unauthorized-Holds : (e : Exn) → Keeps (Holds {env = env} least) (unauthorized e)
  unauthorized-Holds (authentication_error code message) = record { kept = λ w h. h }
  unauthorized-Holds e = record { kept = λ w h. h }

  throttled-Holds :
      (o : Option Response) (view : Exec (World env) Response)
      → Keeps (Holds {env = env} least) view
      → Keeps (Holds {env = env} least) (unless_throttled o view)
  throttled-Holds none view h = h
  throttled-Holds (some r) view h = record { kept = λ w same. same }

  pub login_view-Holds :
      (drf : Framework) (tenant : Option Tenant) (form : Option LoginData) (client : Client)
      → Keeps (Holds {env = env} least) (login_view drf tenant form client)
  unfolding login_view
  login_view-Holds drf tenant form client =
      search (keeps_rules, throttled-Holds, given-Holds, authenticate-Holds, unauthorized-Holds)
        depth 10

  pub refresh_view-Holds :
      (drf : Framework) (form : Option Text) (client : Client)
      → Keeps (Holds {env = env} least) (refresh_view drf form client)
  unfolding refresh_view
  refresh_view-Holds drf form client =
      search (keeps_rules, given-Holds, rotate_refresh_token-Holds, unauthorized-Holds) depth 10

  pub logout_all_view-Holds : (u : User) → Keeps (Holds {env = env} least) (logout_all_view u)
  unfolding logout_all_view
  logout_all_view-Holds u = search (keeps_rules, revoke_all_sessions-Holds) depth 8

  random_base32-Holds : Keeps (Holds {env = env} least) random_base32
  unfolding random_base32
  random_base32-Holds = record { kept = λ w h. h }

  -- The two updates of a user's second factor.
  secret_stored-Holds :
      (secret : Text) (u : User)
      → Keeps
          (Holds {env = env} least)
          (modify (update_user (λ r. record r { mfa_secret_encrypted = some secret }) u))
  secret_stored-Holds secret u = record { kept = λ w h. update_user-Holds _ u w (λ _. refl) h }

  enabled-Holds :
      (u : User)
      → Keeps
          (Holds {env = env} least)
          (modify (update_user (λ r. record r { mfa_enabled = true }) u))
  enabled-Holds u = record { kept = λ w h. update_user-Holds _ u w (λ _. refl) h }

  pub mfa_enroll_view-Holds : (u : User) → Keeps (Holds {env = env} least) (mfa_enroll_view u)
  unfolding mfa_enroll_view enroll_mfa
  mfa_enroll_view-Holds u =
      search (keeps_rules, random_base32-Holds, encrypt_secret-Holds, secret_stored-Holds) depth 12

  confirmed-Holds :
      (u : User) (verified : Bool)
      → Keeps (Holds {env = env} least) (
          if verified
          then (modify (update_user (λ r. record r { mfa_enabled = true }) u) >> pure true)
          else pure false)
  confirmed-Holds u true = search (keeps_rules, enabled-Holds) depth 8
  confirmed-Holds u false = record { kept = λ w h. h }

  pub mfa_confirm_view-Holds :
      (u : User) (code : Text) → Keeps (Holds {env = env} least) (mfa_confirm_view u code)
  unfolding mfa_confirm_view confirm_mfa_enrollment
  mfa_confirm_view-Holds u code = search (keeps_rules, verify_mfa-Holds, confirmed-Holds) depth 10

  with_tenant-Holds :
      (drf : Framework) (id : ℕ) (view : Tenant → Exec (World env) Response)
      → ((t : Tenant) → Keeps (Holds {env = env} least) (view t))
      → Keeps (Holds {env = env} least) (with_tenant drf id view)
  with_tenant-Holds drf id view k = record {
    kept = λ w h. (given-Holds (tenant_by_id id w) drf.missing view k).kept w h;
  }

  pub suspend_view-Holds :
      (drf : Framework) (user : User) (id : ℕ) (form : Option Text)
      → Keeps (Holds {env = env} least) (suspend_view drf user id form)
  unfolding suspend_view
  suspend_view-Holds drf user id form =
      search (keeps_rules, permitted-Holds, with_tenant-Holds, given-Holds, suspend-Holds) depth 12

  pub activate_view-Holds :
      (drf : Framework) (user : User) (id : ℕ)
      → Keeps (Holds {env = env} least) (activate_view drf user id)
  unfolding activate_view
  activate_view-Holds drf user id =
      search (keeps_rules, permitted-Holds, with_tenant-Holds, activate-Holds) depth 12

  pub provision_view-Holds :
      (drf : Framework) (user : User) (id : ℕ)
      → Keeps (Holds {env = env} least) (provision_view drf user id)
  unfolding provision_view
  provision_view-Holds drf user id =
      search (keeps_rules, permitted-Holds, with_tenant-Holds, queue_provisioning-Holds) depth 12

  insert_key-Holds :
      (tenant : Option Tenant) (u : User) (name : Text) (scopes : List Text) (raw : Text)
      → Keeps (Holds {env = env} least) (insert_key tenant u name scopes raw)
  unfolding insert_key
  insert_key-Holds none u name scopes raw = record { kept = λ w h. h }
  insert_key-Holds (some t) u name scopes raw = record {
    kept = λ w h. elim (Bool-cases (ltb 100 (length name))) [
      | inl long ↦ rw long h
      | inr fits ↦
          elim (Bool-cases
            (exists (λ (r : ApiKey). same_text r.key_prefix (prefix_of raw)) w.api_keys)) [
              | inl taken ↦ rw (fits, taken) h
              | inr free ↦ rw (fits, free) (bumped w h)
            ]
    ];
  }

  pub create_key-Holds :
      (tenant : Option Tenant) (u : User) (name : Text) (scopes : List Text)
      → Keeps (Holds {env = env} least) (create_key tenant u name scopes)
  unfolding create_key
  create_key-Holds tenant u name scopes =
      search (keeps_rules, token_urlsafe-Holds, insert_key-Holds) depth 8
