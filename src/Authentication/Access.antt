-- ===== src/Authentication/Access.antt =====
-- Whom the permissions and the two back ends let in.
use mifos_test.Prelude.{
  ℕ, Bool, true, false, ◌&&◌, Option, none, some, List, [], ◌∷◌, ◌≡◌, refl, arith, Text, keep,
  keep_passes, ==_iff, if◌then◌else◌, same_text, same_text_iff, lower, ap,
}
use mifos_test.Exec.{pure}
use mifos_test.Exec.Post.{Post}
use mifos_test.Models.{User, Role, Tenant, is_super_admin, is_ceo}
use mifos_test.Authentication.Users.{belongs_to}
use mifos_test.Env.{Env}
use mifos_test.World.{World}
use mifos_test.Authentication.Service.{is_account, same_tenant}
use mifos_test.Authentication.Permissions.{
  is_support_or_above, is_finance_or_super, is_manager_or_above, super_admin_only,
  platform_support_or_above, finance_or_super_admin, auditor_or_super_admin, same_tenant_only,
  tenant_ceo_or_admin, tenant_branch_manager_or_above,
}
use mifos_test.Authentication.Backends.{
  is_active_account, password_matches, get_or_none, authenticate_staff, authenticate_tenant_user,
}

ceo_manages_role : (r : Role) → is_ceo r ≡ true → is_manager_or_above r ≡ true
ceo_manages_role Role.ceo h = refl
ceo_manages_role _ h = absurd (cc h)

super_role :
    (r : Role)
    → is_super_admin r ≡ true
    → (is_support_or_above r ≡ true) × (is_finance_or_super r ≡ true)
super_role Role.super_admin h = (refl, refl)
super_role _ h = absurd (cc h)

manager_role :
    (r : Role)
    → is_manager_or_above r ≡ true
    → (is_support_or_above r ≡ false) × (is_finance_or_super r ≡ false)
manager_role Role.ceo h = (refl, refl)
manager_role Role.branch_manager h = (refl, refl)
manager_role _ h = absurd (cc h)

and_left : (a b : Bool) → (a && b) ≡ true → a ≡ true
and_left a b h = ground arith

and_right : (a b : Bool) → (a && b) ≡ true → b ≡ true
and_right a b h = ground arith

and_both : (a b : Bool) → a ≡ true → b ≡ true → (a && b) ≡ true
and_both a b h k = ground arith

-- How the permissions of one request stand to each other.
pub record Ordered (user : Option User) (tenant : Option Tenant) : Type 0 where
  pub ceo_manages :
      tenant_ceo_or_admin user tenant ≡ true → tenant_branch_manager_or_above user tenant ≡ true
  pub manager_belongs :
      tenant_branch_manager_or_above user tenant ≡ true → same_tenant_only user tenant ≡ true
  pub super_supports : super_admin_only user ≡ true → platform_support_or_above user ≡ true
  pub super_finances : super_admin_only user ≡ true → finance_or_super_admin user ≡ true
  pub manager_is_no_staff :
      tenant_branch_manager_or_above user tenant ≡ true
      → (platform_support_or_above user ≡ false)
        × ((finance_or_super_admin user ≡ false) × (auditor_or_super_admin user ≡ false))

-- Whoever passes as the head of a tenant passes as its manager, and whoever passes as its manager
-- belongs to the tenant of the request; a super administrator passes for support and finance; and
-- no manager of a tenant passes any check of the platform's staff.
pub permissions-Ordered : (user : Option User) (tenant : Option Tenant) → Ordered user tenant
unfolding tenant_ceo_or_admin tenant_branch_manager_or_above same_tenant_only super_admin_only
    platform_support_or_above finance_or_super_admin auditor_or_super_admin
permissions-Ordered none tenant = record {
  ceo_manages = λ h. cc h;
  manager_belongs = λ h. cc h;
  super_supports = λ h. cc h;
  super_finances = λ h. cc h;
  manager_is_no_staff = λ h. absurd (cc h);
}
permissions-Ordered (some u) none = record {
  ceo_manages = λ h. cc h;
  manager_belongs = λ h. cc h;
  super_supports = λ h. (super_role u.role h).0;
  super_finances = λ h. (super_role u.role h).1;
  manager_is_no_staff = λ h. absurd (cc h);
}
permissions-Ordered (some u) (some t) = record {
  ceo_manages = λ h.
      and_both _ _ (and_left (belongs_to t.id u) (is_ceo u.role) h)
        (ceo_manages_role u.role (and_right (belongs_to t.id u) (is_ceo u.role) h));
  manager_belongs = λ h. and_left (belongs_to t.id u) (is_manager_or_above u.role) h;
  super_supports = λ h. (super_role u.role h).0;
  super_finances = λ h. (super_role u.role h).1;
  manager_is_no_staff = λ h.
      let (support, finance) =
        manager_role u.role (and_right (belongs_to t.id u) (is_manager_or_above u.role) h) in
      (support, (finance, support));
}

-- What a back end has checked of the user that it returns.
abbrev pub IsStaff : Env → Text → Text → Option User → Type 0
IsStaff env username password none = Unit
IsStaff env username password (some u) =
    (u.tenant ≡ none)
    × ((u.is_active ≡ true)
        × ((lower u.email ≡ lower username) × (env.check_password password u.password ≡ true)))

abbrev pub IsUserOf : Env → Tenant → Text → Text → Option User → Type 0
IsUserOf env t username password none = Unit
IsUserOf env t username password (some u) =
    (u.tenant ≡ some t.id)
    × ((u.is_active ≡ true)
        × ((lower u.email ≡ lower username) × (env.check_password password u.password ≡ true)))

-- The tenant of an account that the filter leaves.
tenant_of_staff : (o : Option ℕ) → same_tenant o none ≡ true → o ≡ none
tenant_of_staff none h = refl
tenant_of_staff (some a) h = absurd (cc h)

tenant_of_user : (o : Option ℕ) (t : ℕ) → same_tenant o (some t) ≡ true → o ≡ some t
tenant_of_user none t h = absurd (cc h)
tenant_of_user (some a) t h = ap some ((==_iff a t).0 h)

email_of :
    (o : Option ℕ) (email : Text) (u : User)
    → is_account o email u ≡ true
    → lower u.email ≡ lower email
email_of o email u h =
    (same_text_iff (lower u.email) (lower email)).0
      (and_right (same_tenant u.tenant o) (same_text (lower u.email) (lower email)) h)

module _ (env : Env) (password : Text) where
  IsStaff-check :
      (username : Text) (u : User) (b : Bool)
      → is_account none username u ≡ true
      → (env.check_password password u.password && u.is_active) ≡ b
      → IsStaff env username password (if b then some u else none)
  IsStaff-check username u false h e = tt
  IsStaff-check username u true h e = (
    tenant_of_staff u.tenant
        (and_left (same_tenant u.tenant none) (same_text (lower u.email) (lower username)) h),
    (
      and_right (env.check_password password u.password) u.is_active e,
      (email_of none username u h, and_left (env.check_password password u.password) u.is_active e),
    ),
  )

  IsStaff-rows :
      (username : Text) (w : World env) (rows : List User)
      → keep (is_account none username) w.users ≡ rows
      → Post
          (get_or_none
            (λ u.
              pure (if env.check_password password u.password && u.is_active then some u else none))
            rows
            w)
          (λ o w'. (w' ≡ w) × IsStaff env username password o)
          (λ _ w'. w' ≡ w)
  IsStaff-rows username w [] e = (refl, tt)
  IsStaff-rows username w (u ∷ []) e = (
    refl,
    IsStaff-check username u _ (keep_passes (is_account none username) w.users [] u e) refl,
  )
  IsStaff-rows username w (u ∷ v ∷ us) e = refl

  IsUserOf-check :
      (t : Tenant) (username : Text) (u : User) (b : Bool)
      → is_active_account t.id username u ≡ true
      → env.check_password password u.password ≡ b
      → IsUserOf env t username password (if b then some u else none)
  IsUserOf-check t username u false h e = tt
  IsUserOf-check t username u true h e =
      let account = and_left (is_account (some t.id) username u) u.is_active h in
      (
        tenant_of_user u.tenant t.id (
            and_left (same_tenant u.tenant (some t.id)) (same_text (lower u.email) (lower username))
              account),
        (
          and_right (is_account (some t.id) username u) u.is_active h,
          (email_of (some t.id) username u account, e),
        ),
      )

  IsUserOf-rows :
      (t : Tenant) (username : Text) (w : World env) (rows : List User)
      → keep (is_active_account t.id username) w.users ≡ rows
      → Post
          (get_or_none
            (λ u. pure (if password_matches env (some password) u then some u else none))
            rows
            w)
          (λ o w'. (w' ≡ w) × IsUserOf env t username password o)
          (λ _ w'. w' ≡ w)
  IsUserOf-rows t username w [] e = (refl, tt)
  IsUserOf-rows t username w (u ∷ []) e = (
    refl,
    IsUserOf-check t username u _ (keep_passes (is_active_account t.id username) w.users [] u e)
        refl,
  )
  IsUserOf-rows t username w (u ∷ v ∷ us) e = refl

-- The dashboard's back end writes nothing, and the user that it returns has no tenant, is active,
-- has the address up to its case, and matches the password.
pub authenticate_staff-IsStaff :
    {env : Env} (username password : Text) (w : World env)
    → Post
        (authenticate_staff (some username) (some password) w)
        (λ o w'. (w' ≡ w) × IsStaff env username password o)
        (λ _ w'. w' ≡ w)
unfolding authenticate_staff
authenticate_staff-IsStaff {env} username password w = IsStaff-rows env password username w _ refl

-- The back end of a tenant's pages writes nothing, and the user that it returns belongs to the
-- tenant of the request, is active, has the address up to its case, and matches the password.
pub authenticate_tenant_user-IsUserOf :
    {env : Env} (t : Tenant) (username password : Text) (w : World env)
    → Post
        (authenticate_tenant_user (some t) (some username) (some password) w)
        (λ o w'. (w' ≡ w) × IsUserOf env t username password o)
        (λ _ w'. w' ≡ w)
unfolding authenticate_tenant_user
authenticate_tenant_user-IsUserOf {env} t username password w =
    IsUserOf-rows env password t username w _ refl
