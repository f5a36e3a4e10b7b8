-- ===== src/Tenants/Enforcement.antt =====
-- A suspended tenant is refused at once, and an activated one is served.
use mifos_test.Prelude.{
  ℕ, List, rewrite, subst, Option, some, ◌≡◌, ◌≢◌, refl, ◌==◌, ==_iff, All, All-rewrite, All-find,
  Text,
}
use mifos_test.Exec.Post.{Post, Post-weaken}
use mifos_test.Models.{Tenant, TenantStatus}
use mifos_test.Env.{Env}
use mifos_test.World.{World}
use mifos_test.Http.{Request}
use mifos_test.Tenants.Save.{copy_columns}
use mifos_test.Tenants.Lifecycle.{suspend}
use mifos_test.Tenants.Resolver.{Verdict, pass, tenant_by_id, resolve}
use mifos_test.Tenants.Resolution.{Justified, serves, resolve-Justified}
use mifos_test.Tenants.Suspension.{suspended, suspend_columns, suspend_lem}

-- A row of that tenant is suspended.
abbrev IsSuspended : ℕ → Tenant → Type 0
IsSuspended id r = r.id ≡ id → r.status ≡ TenantStatus.suspended

suspended_rows :
    (t : Tenant) (rows : List Tenant)
    → t.status ≡ TenantStatus.suspended
    → All (IsSuspended t.id) (rewrite (λ r. r.id == t.id) (copy_columns suspend_columns t) rows)
suspended_rows t rows e =
    All-rewrite (IsSuspended t.id) (λ r. r.id == t.id) (copy_columns suspend_columns t) (λ r _ _. e)
      (λ r p id. cc (p, (==_iff r.id t.id).1 id)) rows

-- A request is not given the tenant with that id.
abbrev pub Withholds : ℕ → Verdict → Type 0
Withholds id v = (s : Tenant) → v ≡ pass (some s) → s.id ≢ id

module _ {env : Env} where
  served :
      {req : Request} {w : World env} {t : Tenant}
      → Justified req w (pass (some t))
      → (tenant_by_id t.id w ≡ some t) × (t.status ≡ TenantStatus.ready)
  served (serves p found ready) = (found, ready)

  -- Where all its rows are suspended, a tenant is not served.
  withheld :
      (id : ℕ) (req : Request) (w : World env) (v : Verdict)
      → All (IsSuspended id) w.tenants
      → Justified req w v
      → Withholds id v
  withheld id req w v rows h s e same =
      let (found, ready) = served (subst (Justified req w) e h) in
      let suspended = All-find (IsSuspended id) (λ r. r.id == s.id) w.tenants s rows found same in
      cc (ready, suspended)

-- After a suspension no request is given the tenant, at any later time and whatever the cache then
-- holds, on any host and path.
pub suspended_tenant-Withholds :
    {env : Env} (t : Tenant) (reason : Text) (actor : Option ℕ) (w : World env) (req : Request)
    (later : ℕ) (stale : env.Cache)
    → Post
        (resolve req (record (suspend t reason actor w).1 { now = later; cache = stale }))
        (λ v _. Withholds t.id v)
        (λ _ _. Unit)
suspended_tenant-Withholds t reason actor w req later stale = rw (suspend_lem t reason actor w) (
    Post-weaken _ _ _ _ (resolve req _).0 (resolve req _).1
      (λ v _ (h, _).
        withheld t.id req _ v (suspended_rows (suspended t reason w.now) w.tenants refl) h)
      (λ _ _ _. tt) (resolve-Justified req _))
