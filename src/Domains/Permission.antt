-- ===== src/Domains/Permission.antt =====
-- Who may add a custom domain to a tenant.
use mifos_test.Prelude.{ℕ, true, false, Option, none, some, ◌≡◌, refl, subst, ◌==◌, arith}
use mifos_test.Models.{User, Role, Tenant, is_ceo}
use mifos_test.Authentication.{tenant_ceo_or_admin, belongs_to}

-- The user is of the tenant and its CEO.
abbrev pub MayAdd : Option User → Option Tenant → Type 0
MayAdd user tenant =
    (u : User) × ((t : Tenant) × ((user ≡ some u)
        × ((tenant ≡ some t) × ((u.tenant ≡ some t.id) × (u.role ≡ Role.ceo)))))

is_ceo-ceo : (r : Role) → is_ceo r ≡ true → r ≡ Role.ceo
is_ceo-ceo Role.ceo e = refl
is_ceo-ceo Role.super_admin e = cc e
is_ceo-ceo Role.support e = cc e
is_ceo-ceo Role.auditor e = cc e
is_ceo-ceo Role.finance e = cc e
is_ceo-ceo Role.branch_manager e = cc e
is_ceo-ceo Role.loan_officer e = cc e
is_ceo-ceo Role.cashier e = cc e
is_ceo-ceo Role.member e = cc e

belongs_to-of :
    (id : ℕ) (u : User) (o : Option ℕ) → u.tenant ≡ o → belongs_to id u ≡ true → u.tenant ≡ some id
belongs_to-of id u none e h =
    absurd (cc (subst (λ o. (elim o [ none ↦ false | some t ↦ t == id ]) ≡ true) e h))
belongs_to-of id u (some t) e h = ground (arith, e, h)

pub allowed :
    (user : Option User) (tenant : Option Tenant)
    → tenant_ceo_or_admin user tenant ≡ true
    → MayAdd user tenant
unfolding tenant_ceo_or_admin
allowed none tenant h = cc h
allowed (some u) none h = cc h
allowed (some u) (some t) h = (
  u,
  (
    t,
    (
      refl,
      (
        refl,
        (
          belongs_to-of t.id u u.tenant refl (ground (arith, h)),
          is_ceo-ceo u.role (ground (arith, h)),
        ),
      ),
    ),
  ),
)

pub not_allowed :
    (user : Option User) (tenant : Option Tenant)
    → tenant_ceo_or_admin user tenant ≡ false
    → ¬ MayAdd user tenant
not_allowed user tenant h (u, (t, (a, (b, (of, ceo))))) =
    let may : tenant_ceo_or_admin (some u) (some t) ≡ true =
      unfold tenant_ceo_or_admin in rw (of, ceo) (ground arith) in
    absurd (cc (h, a, b, may))
