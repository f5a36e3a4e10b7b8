-- ===== src/Authentication/Permissions.antt =====
-- backend/authentication/permissions.py: each class is its `has_permission`, of the user of the
-- request, `none` when nobody is signed in, and the tenant of the request.
use mifos_test.Prelude.{Bool, true, false, ◌&&◌, Option, none, some}
use mifos_test.Models.{User, Role, Tenant, is_super_admin, is_ceo}
use mifos_test.Authentication.Users.{belongs_to}

-- The roles of the sets that the classes name.
abbrev pub is_support_or_above : Role → Bool
is_support_or_above Role.super_admin = true
is_support_or_above Role.support = true
is_support_or_above Role.auditor = true
is_support_or_above _ = false

abbrev pub is_finance_or_super : Role → Bool
is_finance_or_super Role.super_admin = true
is_finance_or_super Role.finance = true
is_finance_or_super _ = false

abbrev pub is_manager_or_above : Role → Bool
is_manager_or_above Role.ceo = true
is_manager_or_above Role.branch_manager = true
is_manager_or_above _ = false

-- `request.user and request.user.is_authenticated and request.user.role in …`
abbrev has_role : (Role → Bool) → Option User → Bool
has_role allowed none = false
has_role allowed (some u) = allowed u.role

unfoldable pub super_admin_only : Option User → Bool
super_admin_only user = has_role is_super_admin user

unfoldable pub platform_support_or_above : Option User → Bool
platform_support_or_above user = has_role is_support_or_above user

unfoldable pub finance_or_super_admin : Option User → Bool
finance_or_super_admin user = has_role is_finance_or_super user

-- The set has the same members as that of the class for support.
unfoldable pub auditor_or_super_admin : Option User → Bool
auditor_or_super_admin user = has_role is_support_or_above user

-- `IsSameTenant`
unfoldable pub same_tenant_only : Option User → Option Tenant → Bool
same_tenant_only none tenant = false
same_tenant_only (some u) none = false
same_tenant_only (some u) (some t) = belongs_to t.id u

-- `IsTenantCEOOrAdmin`
unfoldable pub tenant_ceo_or_admin : Option User → Option Tenant → Bool
tenant_ceo_or_admin none tenant = false
tenant_ceo_or_admin (some u) none = false
tenant_ceo_or_admin (some u) (some t) = belongs_to t.id u && is_ceo u.role

-- `IsTenantBranchManagerOrAbove`
unfoldable pub tenant_branch_manager_or_above : Option User → Option Tenant → Bool
tenant_branch_manager_or_above none tenant = false
tenant_branch_manager_or_above (some u) none = false
tenant_branch_manager_or_above (some u) (some t) = belongs_to t.id u && is_manager_or_above u.role
