-- ===== src/Tenants/Domains.antt =====
-- backend/tenants/services.py, class DomainManager, and `Tenant.primary_domain`
use mifos_test.Prelude.{
  ◌+◌, Bool, true, false, ◌&&◌, ◌||◌, Option, List, [], ◌∷◌, ◌++◌, Text, text, ◌==◌, if◌then◌else◌,
  same_text, exists, find, keep, ltb, length,
}
use mifos_test.Exec.{Exec, integrity_error, data_error, ok, raise, pure, catch, ◌>>=◌, ◌>>◌}
use mifos_test.Models.{Tenant, Domain}
use mifos_test.Env.{Env, Settings}
use mifos_test.World.{World}

-- f"{tenant_code}.{settings.PLATFORM_BASE_DOMAIN}"
unfoldable pub generate_subdomain : Settings → Text → Text
generate_subdomain settings tenant_code = tenant_code ++ text "." ++ settings.platform_base_domain

-- f"domain:{hostname}"
abbrev pub domain_key : Text → Text
domain_key hostname = text "domain:" ++ hostname

-- `hostname` is unique, and a tenant has one primary domain at most.
abbrev pub domain_clashes : Domain → List Domain → Bool
domain_clashes d rows =
    exists
      (λ r.
        same_text r.hostname d.hostname || (d.is_primary && (r.is_primary && r.tenant == d.tenant)))
      rows

-- `tenant.domains.all()`
abbrev pub domains_of : {env : Env} → Tenant → World env → List Domain
domains_of t w = keep (λ d. d.tenant == t.id) w.domains

-- `tenant.primary_domain`
unfoldable pub primary_domain : {env : Env} → Tenant → World env → Option Domain
primary_domain t w = find (λ d. d.tenant == t.id && d.is_primary) w.domains

module _ {env : Env} where
  -- `Domain.objects.create(…)`
  unfoldable pub create_domain : Tenant → Text → Bool → Bool → Exec (World env) Domain
  create_domain t hostname is_primary is_custom w =
      let d : Domain = record {
        id = w.next_id;
        tenant = t.id;
        hostname = hostname;
        is_primary = is_primary;
        is_custom = is_custom;
        ssl_verified = false;
      } in
      if ltb 255 (length hostname)
      then (raise (data_error (text "tenants_domain")) w)
      else if domain_clashes d w.domains
      then (raise (integrity_error (text "tenants_domain")) w)
      else (ok d, record w { domains = w.domains ++ d ∷ []; next_id = w.next_id + 1 })

  unfoldable pub create_primary_domain : Tenant → Exec (World env) Domain
  unfolding create_domain generate_subdomain
  create_primary_domain t =
      create_domain t (generate_subdomain env.settings t.tenant_code) true false

  unfoldable pub add_custom_domain : Tenant → Text → Exec (World env) Domain
  unfolding create_domain
  add_custom_domain t hostname = create_domain t hostname false true

  unfoldable pub cache_delete : Text → Exec (World env) Unit
  cache_delete key w = let (r, c) = env.cache_delete key w.cache in (r, record w { cache = c })

  -- The loop of `bust_cache`; an exception ends it.
  unfoldable pub delete_keys : List Domain → Exec (World env) Unit
  unfolding cache_delete ◌>>=◌
  delete_keys [] = pure tt
  delete_keys (d ∷ ds) = cache_delete (domain_key d.hostname) >> delete_keys ds

  unfoldable pub bust_cache : Tenant → Exec (World env) Unit
  unfolding delete_keys catch
  bust_cache t w = catch (delete_keys (domains_of t w)) (λ _. pure tt) w
