-- ===== src/Organizations/Registration.antt =====
-- What the registration of a tenant leaves.
use mifos_test.Prelude.{
  ◌≤◌, ◌<◌, ◌||◌, true, some, List, arith, false, [], ◌∷◌, ◌++◌, ◌≡◌, inl, inr, refl, Text, text,
  ltb, length, exists, same_text, Bool-cases,
}
use mifos_test.Exec.{Exn, data_error, integrity_error, ◌>>=◌}
use mifos_test.Exec.Post.{Post}
use mifos_test.Models.{Organization, Tenant, TenantStatus}
use mifos_test.Env.{Env}
use mifos_test.World.{World}
use mifos_test.Organizations.Codes.{codes_of, suggest_tenant_code}
use mifos_test.Organizations.Register.{
  new_tenant, tenant_clashes, create_tenant_row, register_tenant,
}
use mifos_test.Organizations.Termination.{suggest_tenant_code-found}

-- One pending tenant is added, whose code no tenant had and whose unique columns no row shares.
pub record Registered {env : Env} (org : Organization) (w : World env) (t : Tenant) (w' : World env)
    : Type 0 where
  pub added : w'.tenants ≡ w.tenants ++ t ∷ []
  pub of_organization : t.organization ≡ org.id
  pub pending : t.status ≡ TenantStatus.pending
  pub inactive : t.is_active ≡ false
  pub database : t.db_name ≡ text "tenant_" ++ t.tenant_code
  pub fits : length t.tenant_code ≤ 32
  pub fresh_code : exists (same_text t.tenant_code) (codes_of w.tenants) ≡ false
  pub no_clash : exists (tenant_clashes t) w.tenants ≡ false
  pub jobs_same : w'.jobs ≡ w.jobs

-- Why the row of a tenant with that code is refused: the code does not fit its column, or another
-- row shares the code, the name of the database or the identifier at Fineract.
pub data Refused (code : Text) (rows : List Tenant) : Exn → Type 0 where
  too_long : 32 < length code → Refused code rows (data_error (text "tenants_tenant"))
  shared :
      exists
          (λ r.
            same_text r.tenant_code code
            || (same_text r.db_name (text "tenant_" ++ code)
                || same_text r.fineract_tenant_identifier code))
          rows
        ≡ true
      → Refused code rows (integrity_error (text "tenants_tenant"))

module _ {env : Env} where
  create_tenant_row_lem :
      (org : Organization) (code : Text) (w : World env)
      → exists (same_text code) (codes_of w.tenants) ≡ false
      → Post
          (create_tenant_row org code w)
          (λ t w'. (t.tenant_code ≡ code) × Registered org w t w')
          (λ e w'. (w' ≡ w) × Refused code w.tenants e)
  unfolding create_tenant_row
  create_tenant_row_lem org code w free = elim (Bool-cases (ltb 32 (length code))) [
    | inl long ↦ rw long (refl, too_long (ground (arith, long)))
    | inr fits ↦
        elim (Bool-cases (exists (tenant_clashes (new_tenant w.next_id org code)) w.tenants)) [
          | inl clash ↦ rw (fits, clash) (refl, shared clash)
          | inr clear ↦
              rw (fits, clear)
                (
                  refl,
                  record {
                    added = refl;
                    of_organization = refl;
                    pending = refl;
                    inactive = refl;
                    database = refl;
                    fits = ground (arith, fits);
                    fresh_code = free;
                    no_clash = clear;
                    jobs_same = refl;
                  },
                )
        ]
  ]

-- The registration of a tenant settles on a code that no tenant had. It adds one row under it,
-- pending and inactive; or it raises, for no other reason than that the code is longer than its
-- column or that another row shares the code, the database or the identifier that are made of it,
-- and then nothing is written.
pub register_tenant-Registered :
    {env : Env} (org : Organization) (name : Text) (w : World env)
    → (code : Text) × ((suggest_tenant_code env.slugify name w.tenants ≡ some code)
        × Post
            (register_tenant org name w)
            (λ t w'. (t.tenant_code ≡ code) × Registered org w t w')
            (λ e w'. (w' ≡ w) × Refused code w.tenants e))
unfolding register_tenant
register_tenant-Registered {env} org name w =
    let (code, (found, free)) = suggest_tenant_code-found env.slugify name w.tenants in
    (code, (found, unfold ◌>>=◌ in rw found (create_tenant_row_lem org code w free)))
