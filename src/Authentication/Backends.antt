-- ===== src/Authentication/Backends.antt =====
-- backend/authentication/backends.py: sign-in to the dashboard and to the pages of a tenant.
use mifos_test.Prelude.{
  ℕ, Bool, false, ◌&&◌, Option, none, some, List, [], ◌∷◌, Text, text, if◌then◌else◌, keep,
  same_text, lower,
}
use mifos_test.Exec.{Exec, python_error, pure, raise}
use mifos_test.Models.{User, Tenant}
use mifos_test.Env.{Env}
use mifos_test.World.{World}
use mifos_test.Authentication.Service.{is_account}

-- `is_active=True` beside the tenant and the address
abbrev pub is_active_account : ℕ → Text → User → Bool
is_active_account tenant email u = is_account (some tenant) email u && u.is_active

-- A missing password matches no hash.
abbrev pub password_matches : Env → Option Text → User → Bool
password_matches env none u = false
password_matches env (some password) u = env.check_password password u.password

module _ {env : Env} where
  -- `User.objects.get(…)` of the rows that the filter leaves, `None` where there is none
  abbrev pub get_or_none :
      (User → Exec (World env) (Option User)) → List User → Exec (World env) (Option User)
  get_or_none check [] = pure none
  get_or_none check (u ∷ []) = check u
  get_or_none check (u ∷ v ∷ us) = raise (python_error (text "MultipleObjectsReturned"))

  -- `PlatformStaffBackend.authenticate`
  unfoldable pub authenticate_staff : Option Text → Option Text → Exec (World env) (Option User)
  unfolding same_text lower
  authenticate_staff none password w = pure none w
  authenticate_staff (some username) none w = pure none w
  authenticate_staff (some username) (some password) w =
      get_or_none
        (λ u. pure (if env.check_password password u.password && u.is_active then some u else none))
        (keep (is_account none username) w.users) w

  -- `TenantUserBackend.authenticate`, with the tenant of the request; no address is null.
  unfoldable pub authenticate_tenant_user :
      Option Tenant → Option Text → Option Text → Exec (World env) (Option User)
  unfolding same_text lower
  authenticate_tenant_user none username password w = pure none w
  authenticate_tenant_user (some t) none password w = pure none w
  authenticate_tenant_user (some t) (some username) password w =
      get_or_none (λ u. pure (if password_matches env password u then some u else none))
        (keep (is_active_account t.id username) w.users) w
