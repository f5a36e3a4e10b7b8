-- ===== src/Tenants/Isolation.antt =====
-- A request is given the tenant that owns its hostname, and suspension takes effect at once.
use mifos_test.Prelude.{
  ℕ, Option, none, some, List, ◌≡◌, ◌⊎◌, inl, inr, refl, sym, ◌==◌, ==_iff, Bool-cases, find_passes,
  subst, Text, same_text, find,
}
use mifos_test.Exec.{Result, ok, err, pure, ◌>>=◌, continue}
use mifos_test.Exec.Post.{Post, Post-bind, Post-weaken}
use mifos_test.Models.{Tenant, TenantStatus, Domain}
use mifos_test.Env.{Env}
use mifos_test.World.{World, cache_set}
use mifos_test.Http.{Request}
use mifos_test.Tenants.Domains.{domain_key}
use mifos_test.Tenants.Resolver.{
  normalize, is_platform, Verdict, pass, refuse, judge, judge_status, owner, tenant_by_id,
  tenant_by_hostname, remember, look_up, resolve,
}
use mifos_test.Tenants.Resolution.{resolve_platform, resolve_tenant}

-- What Redis promises of `set`: a later `get` finds the value just set, or what was there.
pub record CacheLaws (env : Env) : Type 0 where
  pub set_then_get :
      (key other : Text) (now value timeout found : ℕ) (c : env.Cache)
      → env.cache_get other now (env.cache_set key now value timeout c).1 ≡ ok (some found)
      → ((other ≡ key) × (found ≡ value)) ⊎ (env.cache_get other now c ≡ ok (some found))

domain_key_injective : (a b : Text) → domain_key a ≡ domain_key b → a ≡ b
domain_key_injective a b h = cc h

-- The first domain row with the hostname belongs to that tenant.
pub record Owns (host : Text) (domains : List Domain) (id : ℕ) : Type 0 where
  pub row : Domain
  pub is_row : find (λ d. same_text d.hostname host) domains ≡ some row
  pub is_owner : row.tenant ≡ id

abbrev pub OwnsOption : Text → List Domain → Option Tenant → Type 0
OwnsOption host domains none = Unit
OwnsOption host domains (some t) = Owns host domains t.id

-- A verdict that attaches a tenant attaches the owner of the host.
abbrev pub PassesOwner : Text → List Domain → Verdict → Type 0
PassesOwner host domains (pass o) = OwnsOption host domains o
PassesOwner host domains (refuse r) = Unit

module _ {env : Env} where
  -- Every hostname in the cache goes to the tenant that owns it.
  pub record CacheHolds (w : World env) : Type 0 where
    pub holds :
        (host : Text) (id : ℕ)
        → env.cache_get (domain_key host) w.now w.cache ≡ ok (some id)
        → Owns host w.domains id

  judge_status-PassesOwner :
      (req : Request) (host : Text) (w : World env) (t : Tenant) (status : TenantStatus)
      → Owns host w.domains t.id
      → PassesOwner host w.domains (judge_status req t status)
  unfolding judge_status
  judge_status-PassesOwner req host w t TenantStatus.ready h = h
  judge_status-PassesOwner req host w t _ h = tt

  judge-PassesOwner :
      (req : Request) (host : Text) (w : World env) (o : Option Tenant)
      → OwnsOption host w.domains o
      → PassesOwner host w.domains (judge req o)
  unfolding judge
  judge-PassesOwner req host w none h = tt
  judge-PassesOwner req host w (some t) h = judge_status-PassesOwner req host w t t.status h

  owned_by_id :
      (host : Text) (id : ℕ) (w : World env) (o : Option Tenant)
      → Owns host w.domains id
      → tenant_by_id id w ≡ o
      → OwnsOption host w.domains o
  owned_by_id host id w none h e = tt
  owned_by_id host id w (some t) h e =
      subst (Owns host w.domains)
        (sym ((==_iff t.id id).0 (find_passes (λ (r : Tenant). r.id == id) w.tenants t e))) h

  owned_by_row :
      (host : Text) (w : World env) (d : Option Domain) (o : Option Tenant)
      → find (λ d. same_text d.hostname host) w.domains ≡ d
      → owner d w ≡ o
      → OwnsOption host w.domains o
  owned_by_row host w none none e h = tt
  owned_by_row host w none (some t) e h = cc
  owned_by_row host w (some d) o e h =
      owned_by_id host d.tenant w o (record { row = d; is_row = e; is_owner = refl }) h

  owned_by_hostname :
      (host : Text) (w : World env) → OwnsOption host w.domains (tenant_by_hostname host w)
  unfolding tenant_by_hostname
  owned_by_hostname host w = owned_by_row host w _ _ refl refl

module _ {env : Env} (laws : CacheLaws env) where
  abbrev Leaves : Text → World env → Result (Option Tenant) × World env → Type 0
  Leaves host w r = Post r (λ o w'. OwnsOption host w.domains o × CacheHolds w') (λ _. CacheHolds)

  -- The cache holds after the owner of a host has been stored.
  set-CacheHolds :
      (host : Text) (id timeout : ℕ) (w : World env)
      → CacheHolds w
      → Owns host w.domains id
      → CacheHolds
          (record w { cache = (env.cache_set (domain_key host) w.now id timeout w.cache).1 })
  set-CacheHolds host id timeout w h own = record {
    holds = λ other found e.
        elim (laws.set_then_get (domain_key host) (domain_key other) w.now id timeout found w.cache
          e) [
            | inl (k, v) ↦
                subst (Owns other w.domains) (sym v)
                  (subst (λ x. Owns x w.domains id) (sym (domain_key_injective other host k)) own)
            | inr old ↦ h.holds other found old
          ];
  }

  stored :
      (host : Text) (w : World env) (t : Tenant) (r : Result (Unit {0})) (c : env.Cache)
      → Owns host w.domains t.id
      → CacheHolds (record w { cache = c })
      → Post {A = Unit}
          (r, record w { cache = c })
          (λ _ w'. OwnsOption host w.domains (some t) × CacheHolds w')
          (λ _. CacheHolds)
  stored host w t (ok u) c own h = (own, h)
  stored host w t (err e) c own h = h

  remember-Leaves :
      (host : Text) (w : World env) (o : Option Tenant)
      → CacheHolds w
      → OwnsOption host w.domains o
      → Leaves host w (remember host o w)
  unfolding remember cache_set
  remember-Leaves host w none h own = (tt, h)
  remember-Leaves host w (some t) h own =
      Post-bind _ _ (cache_set (domain_key host) t.id 300) (λ _. pure (some t)) w
        (let (r, c) = env.cache_set (domain_key host) w.now t.id 300 w.cache in
          stored host w t r c own (set-CacheHolds host t.id 300 w h own))

  look_up-Leaves :
      (host : Text) (w : World env) (cached : Option ℕ)
      → CacheHolds w
      → env.cache_get (domain_key host) w.now w.cache ≡ ok cached
      → Leaves host w (look_up host cached w)
  unfolding look_up
  look_up-Leaves host w none h c =
      unfold ◌>>=◌ in
      remember-Leaves host w (tenant_by_hostname host w) h (owned_by_hostname host w)
  look_up-Leaves host w (some id) h c = (owned_by_id host id w _ (h.holds host id c) refl, h)

  -- What a request is given, and what is left of the cache.
  abbrev Serves : Request → World env → Result Verdict × World env → Type 0
  Serves req w r =
      Post r (λ v w'. PassesOwner (normalize req.host) w.domains v × CacheHolds w')
        (λ _. CacheHolds)

  looked_up :
      (req : Request) (w : World env) (cached : Result (Option ℕ))
      → CacheHolds w
      → env.cache_get (domain_key (normalize req.host)) w.now w.cache ≡ cached
      → Serves req w
          (continue cached (λ c. look_up (normalize req.host) c >>= λ t. pure (judge req t)) w)
  looked_up req w (err e) h c = h
  looked_up req w (ok cached) h c =
      let host = normalize req.host in
      Post-bind _ _ (look_up host cached) (λ t. pure (judge req t)) w
        (Post-weaken _ _ _ _ (look_up host cached w).0 (look_up host cached w).1
          (λ o w' (own, held). (judge-PassesOwner req host w o own, held)) (λ _ _ held. held)
          (look_up-Leaves host w cached h c))

-- While every hostname in the cache goes to the tenant that owns it, a request that is given a
-- tenant is given the owner of its normalized hostname, by the first domain row with it, and the
-- cache is left such again, also when it raises: no request is served as another tenant.
pub resolve-PassesOwner :
    {env : Env} (laws : CacheLaws env) (req : Request) (w : World env)
    → CacheHolds w
    → Post
        (resolve req w)
        (λ v w'. PassesOwner (normalize req.host) w.domains v × CacheHolds w')
        (λ _. CacheHolds)
resolve-PassesOwner {env} laws req w h = elim (Bool-cases (is_platform env.settings req)) [
  | inl p ↦ rw (resolve_platform req w p) (tt, h)
  | inr p ↦ rw (resolve_tenant req w p) (looked_up laws req w _ h refl)
]
