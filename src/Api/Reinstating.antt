-- ===== src/Api/Reinstating.antt =====
-- The way back: a tenant that was activated through the interface is served again.
use mifos_test.Prelude.{
  ℕ, true, false, some, ◌≡◌, refl, Text, ◌==◌, ==_iff, find, find-rewrite, same_text,
}
use mifos_test.Exec.{ok, ◌>>=◌}
use mifos_test.Exec.Post.{Post, Post-weaken}
use mifos_test.Models.{User, Tenant, Domain}
use mifos_test.Env.{Env}
use mifos_test.World.{World}
use mifos_test.Http.{Framework, Request, view_response}
use mifos_test.Tenants.{
  resolve, tenant_by_id, activate, normalize, is_platform, pass, judge, judge_status,
  tenant_by_hostname, write_columns,
}
use mifos_test.Tenants.Suspension.{activated, activate_columns, activate_lem}
use mifos_test.Tenants.Isolation.{CacheHolds}
use mifos_test.Tenants.Direct.{CacheRaised, specified, resolve_refines}
use mifos_test.Authentication.{super_admin_only}
use mifos_test.Api.Tenants.{activate_view}

module _ {env : Env} where
  activate_view-passes :
      (drf : Framework) (user : User) (id : ℕ) (t : Tenant) (w : World env)
      → super_admin_only (some user) ≡ true
      → tenant_by_id id w ≡ some t
      → activate_view drf user id w ≡ (ok (view_response 200), (activate t (some user.id) w).1)
  unfolding activate_view
  activate_view-passes drf user id t w may found =
      rw (may, found) (rw (activate_lem t (some user.id) w) (unfold ◌>>=◌ in refl))

  -- The row of a tenant after its activation was saved.
  activated_row :
      (id : ℕ) (t : Tenant) (w : World env)
      → tenant_by_id id w ≡ some t
      → tenant_by_id id (write_columns activate_columns (activated t) w) ≡ some (activated t)
  activated_row id t w found =
      find-rewrite (λ r. r.id == id) (λ r. r.id == t.id) _ w.tenants t (λ _. refl)
        ((==_iff t.id t.id).1 refl) found

  -- The hostname is registered for the tenant with that id.
  abbrev pub IsAddress : Text → ℕ → World env → Type 0
  IsAddress host id w =
      (d : Domain) × (find (λ d. same_text d.hostname host) w.domains ≡ some d) × (d.tenant ≡ id)

  due :
      (req : Request) (id : ℕ) (t : Tenant) (w v : World env)
      → is_platform env.settings req ≡ false
      → IsAddress (normalize req.host) id w
      → v.domains ≡ w.domains
      → tenant_by_id id v ≡ some (activated t)
      → specified req v ≡ pass (some (activated t))
  unfolding tenant_by_hostname judge judge_status
  due req id t w v off (d, listed, of) same found = rw (off, same, listed, of, found) refl

-- Where a super admin activates a tenant through the interface, whatever its status was, the answer
-- is 200, and any later request to an address of the tenant that is not one of the platform's is
-- given the tenant with the status ready, at any time and with any cache in which every hostname
-- goes to the tenant that owns it, unless the cache raises.
pub activate_view-Serves :
    {env : Env} (drf : Framework) (user : User) (id : ℕ) (t : Tenant) (w : World env)
    (req : Request) (later : ℕ) (stale : env.Cache)
    → super_admin_only (some user) ≡ true
    → tenant_by_id id w ≡ some t
    → is_platform env.settings req ≡ false
    → IsAddress (normalize req.host) id w
    → let (answer, after) = activate_view drf user id w in
      let v = record after { now = later; cache = stale } in
      CacheHolds v
      → (answer ≡ ok (view_response 200))
        × Post
            (resolve req v)
            (λ verdict _. verdict ≡ pass (some (activated t)))
            (λ e _. CacheRaised (normalize req.host) v e)
activate_view-Serves drf user id t w req later stale may found off address =
    rw (activate_view-passes drf user id t w may found) (
      rw (activate_lem t (some user.id) w) λ holds. (
        refl,
        Post-weaken _ _ _ _ (resolve req _).0 (resolve req _).1
            (λ verdict _ same.
              rw same (due req id t w _ off address refl (activated_row id t w found)))
            (λ _ _ raised. raised) (resolve_refines req _ holds),
      ))
