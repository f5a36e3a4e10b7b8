-- ===== src/Scenarios/Resolve.antt =====
-- Requests to a tenant that is served, and the theorems about the middleware at them.
use mifos_test.Prelude.{
  ℕ, ◌+◌, Bool, List, Text, ltb, arith, sym, ap, if◌then◌else◌, ◌≡◌, refl, true, false, none, some,
  [], ◌∷◌, ◌⊎◌, inl, inr, text, same_text, same_text_iff,
}
use mifos_test.Exec.{ok}
use mifos_test.Exec.Post.{Post}
use mifos_test.Models.{Tenant, TenantStatus}
use mifos_test.World.{World, OnlyCache}
use mifos_test.Http.{Request, json_error}
use mifos_test.Tenants.{normalize, pass, refuse, resolve, suspend, domain_key}
use mifos_test.Tenants.Resolution.{Justified, resolve-Justified}
use mifos_test.Tenants.Isolation.{CacheLaws, CacheHolds, PassesOwner, resolve-PassesOwner}
use mifos_test.Tenants.Suspension.{suspended, suspension, suspend_columns, suspend_lem, changed}
use mifos_test.Tenants.Enforcement.{Withholds, suspended_tenant-Withholds}
use mifos_test.Scenarios.Toy.{toy, served, imara, cache_lookup}

abbrev pub ready_imara : Tenant
ready_imara = record imara { status = TenantStatus.ready; is_active = true }

-- The served tenant with its domain.
abbrev pub online : World (toy true)
online = record served {
  domains =
      (record {
        id = 60;
        tenant = 1;
        hostname = text "imara.bank.example";
        is_primary = true;
        is_custom = false;
        ssl_verified = false;
      })
      ∷ [];
}

abbrev pub members : Request
members = record {
  path = text "/api/v1/members/";
  host = text " IMARA.bank.example.:8443";
  forwarded_for = none;
  remote_addr = some (text "10.0.0.1");
  tenant = none;
}

resolve_served : (resolve members online).0 ≡ ok (pass (some ready_imara))
unfolding resolve
resolve_served = refl

resolve_suspended :
    (resolve members (suspend ready_imara (text "fraud") none online).1).0
    ≡ ok (
        refuse (
          json_error 403
            (text "TENANT_SUSPENDED")
            (text "This organization's account is suspended.")))
unfolding resolve suspend
resolve_suspended = refl

-- A hostname stored with an upper-case letter is never found, since the request's is lowered.
resolve_upper_case :
    (resolve
      (record members { host = text "Imara.example" })
      (record online {
        domains =
            (record {
              id = 61;
              tenant = 1;
              hostname = text "Imara.example";
              is_primary = false;
              is_custom = true;
              ssl_verified = true;
            })
            ∷ [];
      })).0
    ≡ ok (refuse (json_error 404 (text "TENANT_NOT_FOUND") (text "Organization not found.")))
unfolding resolve
resolve_upper_case = refl

resolve-Justified_example :
    Post
      (resolve members online)
      (λ v w'. Justified members online v × OnlyCache online w')
      (λ _ w'. OnlyCache online w')
resolve-Justified_example = resolve-Justified members online

kept_or_set :
    (key other : Text) (now value timeout found : ℕ) (c : List (Text × ℕ × ℕ)) (b : Bool)
    → same_text key other ≡ b
    → (if b
        then (if ltb now (now + timeout) then some value else none)
        else cache_lookup other now c)
      ≡ some found
    → ((other ≡ key) × (found ≡ value)) ⊎ (cache_lookup other now c ≡ some found)
kept_or_set key other now value timeout found c true same e =
    inl (sym ((same_text_iff key other).0 same), ground arith)
kept_or_set key other now value timeout found c false same e = inr e

toy_cache_laws : CacheLaws (toy true)
toy_cache_laws = record {
  set_then_get = λ key other now value timeout found c e.
      elim (kept_or_set key other now value timeout found c (same_text key other) refl (cc e)) [
        | inl hit ↦ inl hit
        | inr old ↦ inr (ap ok old)
      ];
}

pub online-CacheHolds : CacheHolds online
online-CacheHolds = record { holds = λ host id e. absurd (cc e) }

resolve-PassesOwner_example :
    Post
      (resolve members online)
      (λ v w'. PassesOwner (normalize members.host) online.domains v × CacheHolds w')
      (λ _. CacheHolds)
resolve-PassesOwner_example = resolve-PassesOwner toy_cache_laws members online online-CacheHolds

suspend_lem_example : suspend ready_imara (text "fraud") (some 40) online ≡ (
  ok (suspended ready_imara (text "fraud") 1000),
  changed suspend_columns
      (suspended ready_imara (text "fraud") 1000)
      (suspension (toy true) ready_imara (text "fraud") (some 40))
      (suspend ready_imara (text "fraud") (some 40) online).1.cache
      online,
)
suspend_lem_example = suspend_lem ready_imara (text "fraud") (some 40) online

suspended_tenant-Withholds_example :
    Post
      (resolve members (record (suspend ready_imara (text "fraud") none online).1 {
        now = 1100;
        cache = (domain_key (text "imara.bank.example"), 1, 1200) ∷ [];
      }))
      (λ v _. Withholds 1 v)
      (λ _ _. Unit)
suspended_tenant-Withholds_example =
    suspended_tenant-Withholds ready_imara (text "fraud") none online members 1100
      ((domain_key (text "imara.bank.example"), 1, 1200) ∷ [])
