-- ===== src/Tenants/Resolution.antt =====
-- Which tenant a request is given, whatever the cache holds.
use mifos_test.Prelude.{
  ℕ, true, false, Option, none, some, ◌≡◌, ◌≢◌, ◌⊎◌, inl, inr, refl, sym, ◌==◌, ==_iff, Bool-cases,
  find_passes, subst, Text, same_text, find,
}
use mifos_test.Exec.{Result, ok, err, pure, ◌>>=◌, continue}
use mifos_test.Exec.Post.{Post, Post-bind, Post-weaken}
use mifos_test.Models.{Tenant, Domain, TenantStatus}
use mifos_test.Env.{Env}
use mifos_test.World.{World, OnlyCache, cache_get, cache_set}
use mifos_test.Http.{Request}
use mifos_test.Tenants.Domains.{domain_key}
use mifos_test.Tenants.Resolver.{
  normalize, is_platform, Verdict, pass, refuse, judge, judge_status, owner, tenant_by_id,
  tenant_by_hostname, remember, look_up, resolve, suspended_response, not_ready_response,
  not_found_response,
}

module _ {env : Env} where
  -- No tenant stands behind the hostname, or behind the id in the cache.
  abbrev pub IsUnknown : Text → World env → Type 0
  IsUnknown host w =
      (tenant_by_hostname host w ≡ none)
      ⊎ ((id : ℕ) × (env.cache_get (domain_key host) w.now w.cache ≡ ok (some id))
          × (tenant_by_id id w ≡ none))

  -- When the middleware may give each of its verdicts, by the rows of the registry alone.
  pub data Justified (req : Request) (w : World env) : Verdict → Type 0 where
    platform : is_platform env.settings req ≡ true → Justified req w (pass none)
    serves :
        {t : Tenant}
        → is_platform env.settings req ≡ false
        → tenant_by_id t.id w ≡ some t
        → t.status ≡ TenantStatus.ready
        → Justified req w (pass (some t))
    suspends :
        {t : Tenant}
        → tenant_by_id t.id w ≡ some t
        → t.status ≡ TenantStatus.suspended
        → Justified req w (refuse (suspended_response req))
    waits :
        {t : Tenant}
        → tenant_by_id t.id w ≡ some t
        → t.status ≢ TenantStatus.ready
        → t.status ≢ TenantStatus.suspended
        → Justified req w (refuse (not_ready_response req))
    unknown : IsUnknown (normalize req.host) w → Justified req w (refuse (not_found_response req))

  -- What the lookup has established of its result.
  abbrev IsFound : Text → World env → Option Tenant → Type 0
  IsFound host w none = IsUnknown host w
  IsFound host w (some t) = tenant_by_id t.id w ≡ some t

  judge_status-Justified :
      (req : Request) (w : World env) (t : Tenant) (status : TenantStatus)
      → is_platform env.settings req ≡ false
      → tenant_by_id t.id w ≡ some t
      → t.status ≡ status
      → Justified req w (judge_status req t status)
  unfolding judge_status
  judge_status-Justified req w t TenantStatus.suspended p h e = suspends h e
  judge_status-Justified req w t TenantStatus.ready p h e = serves p h e
  judge_status-Justified req w t _ p h e = waits h (λ q. cc (q, e)) (λ q. cc (q, e))

  judge-Justified :
      (req : Request) (w : World env) (o : Option Tenant)
      → is_platform env.settings req ≡ false
      → IsFound (normalize req.host) w o
      → Justified req w (judge req o)
  unfolding judge
  judge-Justified req w none p h = unknown h
  judge-Justified req w (some t) p h = judge_status-Justified req w t t.status p h refl

  by_id :
      (id : ℕ) (w : World env) (t : Tenant)
      → tenant_by_id id w ≡ some t
      → tenant_by_id t.id w ≡ some t
  by_id id w t h =
      let same = (==_iff t.id id).0 (find_passes (λ (r : Tenant). r.id == id) w.tenants t h) in
      subst (λ n. tenant_by_id n w ≡ some t) (sym same) h

  owner_lem :
      (o : Option Domain) (w : World env) (t : Tenant)
      → owner o w ≡ some t
      → tenant_by_id t.id w ≡ some t
  owner_lem none w t h = cc
  owner_lem (some d) w t h = by_id d.tenant w t h

  IsFound-by_hostname :
      (host : Text) (w : World env) (o : Option Tenant)
      → tenant_by_hostname host w ≡ o
      → IsFound host w o
  IsFound-by_hostname host w none e = inl e
  IsFound-by_hostname host w (some t) e =
      owner_lem (find (λ d. same_text d.hostname host) w.domains) w t
        (unfold tenant_by_hostname in e)

  IsFound-by_id :
      (host : Text) (id : ℕ) (w : World env) (o : Option Tenant)
      → env.cache_get (domain_key host) w.now w.cache ≡ ok (some id)
      → tenant_by_id id w ≡ o
      → IsFound host w o
  IsFound-by_id host id w none c e = inr (id, c, e)
  IsFound-by_id host id w (some t) c e = by_id id w t e

  -- What the lookup returns was found, and it writes nothing but the cache.
  abbrev Looked : Text → World env → Result (Option Tenant) × World env → Type 0
  Looked host w r = Post r (λ o w'. IsFound host w o × OnlyCache w w') (λ _ w'. OnlyCache w w')

  stored :
      (host : Text) (w : World env) (t : Tenant) (r : Result (Unit {0})) (c : env.Cache)
      → IsFound host w (some t)
      → Post {A = Unit}
          (r, record w { cache = c })
          (λ _ w'. Looked host w (ok (some t), w'))
          (λ _ w'. OnlyCache w w')
  stored host w t (ok u) c h = (h, refl)
  stored host w t (err e) c h = refl

  remember_lem :
      (host : Text) (w : World env) (o : Option Tenant)
      → IsFound host w o
      → Looked host w (remember host o w)
  unfolding remember cache_set
  remember_lem host w none h = (h, refl)
  remember_lem host w (some t) h =
      Post-bind _ _ (cache_set (domain_key host) t.id 300) (λ _. pure (some t)) w
        (let (r, c) = env.cache_set (domain_key host) w.now t.id 300 w.cache in
          stored host w t r c h)

  look_up_lem :
      (host : Text) (w : World env) (cached : Option ℕ)
      → env.cache_get (domain_key host) w.now w.cache ≡ ok cached
      → Looked host w (look_up host cached w)
  unfolding look_up
  look_up_lem host w none c =
      unfold ◌>>=◌ in
      remember_lem host w (tenant_by_hostname host w) (IsFound-by_hostname host w _ refl)
  look_up_lem host w (some id) c = (IsFound-by_id host id w _ c refl, refl)

  -- The verdict of a request, and what is left of the state.
  abbrev Answers : Request → World env → Result Verdict × World env → Type 0
  Answers req w r = Post r (λ v w'. Justified req w v × OnlyCache w w') (λ _ w'. OnlyCache w w')

  answered :
      (req : Request) (w w' : World env) (o : Option Tenant)
      → is_platform env.settings req ≡ false
      → IsFound (normalize req.host) w o × OnlyCache w w'
      → Answers req w (ok (judge req o), w')
  answered req w w' o p (h, c) = (judge-Justified req w o p h, c)

  looked_up :
      (req : Request) (w : World env) (cached : Result (Option ℕ))
      → is_platform env.settings req ≡ false
      → env.cache_get (domain_key (normalize req.host)) w.now w.cache ≡ cached
      → Answers req w
          (continue cached (λ c. look_up (normalize req.host) c >>= λ t. pure (judge req t)) w)
  looked_up req w (err e) p c = refl
  looked_up req w (ok cached) p c =
      let host = normalize req.host in
      Post-bind _ _ (look_up host cached) (λ t. pure (judge req t)) w
        (Post-weaken _ _ _ _ (look_up host cached w).0 (look_up host cached w).1
          (λ o w' h. answered req w w' o p h) (λ _ _ h. h) (look_up_lem host w cached c))

  pub resolve_platform :
      (req : Request) (w : World env)
      → is_platform env.settings req ≡ true
      → resolve req w ≡ (ok (pass none), w)
  unfolding resolve
  resolve_platform req w p = rw p refl

  pub resolve_tenant :
      (req : Request) (w : World env)
      → is_platform env.settings req ≡ false
      → let host = normalize req.host in
        resolve req w
        ≡ continue
            (env.cache_get (domain_key host) w.now w.cache)
            (λ c. look_up host c >>= λ t. pure (judge req t))
            w
  unfolding resolve
  resolve_tenant req w p = rw p (unfold ◌>>=◌ cache_get in refl)

-- Whatever the cache holds, and whether it answers or fails, the verdict on a request rests on the
-- rows of the registry: a tenant that is attached is the row of its id and READY, a SUSPENDED one
-- is answered with 403, any other with 503, a host or an id without a row with 404, and only the
-- platform's own paths and hosts pass without a tenant. Nothing but the cache is changed, also
-- when the cache raises.
pub resolve-Justified :
    {env : Env} (req : Request) (w : World env)
    → Post (resolve req w) (λ v w'. Justified req w v × OnlyCache w w') (λ _ w'. OnlyCache w w')
resolve-Justified {env} req w = elim (Bool-cases (is_platform env.settings req)) [
  | inl p ↦ rw (resolve_platform req w p) (platform p, refl)
  | inr p ↦ rw (resolve_tenant req w p) (looked_up req w _ p refl)
]
