-- ===== src/Tenants/Direct.antt =====
-- The resolver with its cache against a lookup in the registry alone.
use mifos_test.Prelude.{
  ℕ, Option, none, some, ◌≡◌, ◌⊎◌, inl, inr, refl, sym, ◌∙◌, ap, Text, Bool-cases, if◌then◌else◌,
}
use mifos_test.Exec.{Exn, Result, ok, err, pure, ◌>>=◌, continue}
use mifos_test.Exec.Post.{Post, Post-bind, Post-weaken}
use mifos_test.Models.{Tenant}
use mifos_test.Env.{Env}
use mifos_test.World.{World, cache_set}
use mifos_test.Http.{Request}
use mifos_test.Tenants.Domains.{domain_key}
use mifos_test.Tenants.Resolver.{
  normalize, is_platform, Verdict, pass, judge, owner, tenant_by_id, tenant_by_hostname, remember,
  look_up, resolve,
}
use mifos_test.Tenants.Resolution.{resolve_platform, resolve_tenant}
use mifos_test.Tenants.Isolation.{CacheHolds, Owns}

module _ {env : Env} where
  -- What a request is due by the registry alone: the platform's own paths and hosts are passed on
  -- without a tenant, any other goes by the tenant that the registry has for its hostname.
  abbrev pub specified : Request → World env → Verdict
  specified req w =
      if is_platform env.settings req
      then pass none
      else judge req (tenant_by_hostname (normalize req.host) w)

  -- The cache raised that exception, on its read or on its write.
  abbrev pub CacheRaised : Text → World env → Exn → Type 0
  CacheRaised host w e =
      (env.cache_get (domain_key host) w.now w.cache ≡ err e)
      ⊎ ((t : Tenant) × ((env.cache_set (domain_key host) w.now t.id 300 w.cache).0 ≡ err e))

  Owns-hostname :
      (host : Text) (id : ℕ) (w : World env)
      → Owns host w.domains id
      → tenant_by_id id w ≡ tenant_by_hostname host w
  unfolding tenant_by_hostname
  Owns-hostname host id w h =
      sym (ap (λ o. owner o w) h.is_row ∙ ap (λ n. tenant_by_id n w) h.is_owner)

  abbrev Direct : Text → World env → Result (Option Tenant) × World env → Type 0
  Direct host w r = Post r (λ o _. o ≡ tenant_by_hostname host w) (λ e _. CacheRaised host w e)

  stored :
      (host : Text) (w : World env) (t : Tenant) (r : Result (Unit {0})) (v : World env)
      → (env.cache_set (domain_key host) w.now t.id 300 w.cache).0 ≡ r
      → some t ≡ tenant_by_hostname host w
      → Direct host w (continue r (λ _. pure (some t)) v)
  stored host w t (ok u) v e same = same
  stored host w t (err x) v e same = inr (t, e)

  remember-Direct :
      (host : Text) (w : World env) (o : Option Tenant)
      → o ≡ tenant_by_hostname host w
      → Direct host w (remember host o w)
  unfolding remember cache_set ◌>>=◌
  remember-Direct host w none same = same
  remember-Direct host w (some t) same = stored host w t _ _ refl same

  look_up-Direct :
      (host : Text) (w : World env) (cached : Option ℕ)
      → CacheHolds w
      → env.cache_get (domain_key host) w.now w.cache ≡ ok cached
      → Direct host w (look_up host cached w)
  unfolding look_up ◌>>=◌
  look_up-Direct host w none h c = remember-Direct host w (tenant_by_hostname host w) refl
  look_up-Direct host w (some id) h c = Owns-hostname host id w (h.holds host id c)

  abbrev Refines : Request → World env → Result Verdict × World env → Type 0
  Refines req w r =
      Post r (λ v _. v ≡ judge req (tenant_by_hostname (normalize req.host) w))
        (λ e _. CacheRaised (normalize req.host) w e)

  looked_up :
      (req : Request) (w : World env) (cached : Result (Option ℕ))
      → CacheHolds w
      → env.cache_get (domain_key (normalize req.host)) w.now w.cache ≡ cached
      → Refines req w
          (continue cached (λ c. look_up (normalize req.host) c >>= λ t. pure (judge req t)) w)
  looked_up req w (err e) h c = inl c
  looked_up req w (ok cached) h c =
      let host = normalize req.host in
      Post-bind _ _ (look_up host cached) (λ t. pure (judge req t)) w
        (Post-weaken _ _ _ _ (look_up host cached w).0 (look_up host cached w).1
          (λ o _ same. ap (judge req) same) (λ _ _ raised. raised)
          (look_up-Direct host w cached h c))

-- The resolver refines the lookup without a cache: while every hostname in the cache goes to the
-- tenant that owns it, a request gets exactly the verdict that the registry alone gives it, or the
-- cache raised and the resolver raises what the cache did.
pub resolve_refines :
    {env : Env} (req : Request) (w : World env)
    → CacheHolds w
    → Post
        (resolve req w)
        (λ v _. v ≡ specified req w)
        (λ e _. CacheRaised (normalize req.host) w e)
resolve_refines {env} req w h = elim (Bool-cases (is_platform env.settings req)) [
  | inl p ↦ rw (resolve_platform req w p, p) refl
  | inr p ↦ rw (resolve_tenant req w p, p) (looked_up req w _ h refl)
]
