-- ===== src/Dashboard/Latest.antt =====
-- The job that the list of tenants shows beside each.
use mifos_test.Prelude.{
  ℕ, Bool, true, false, Option, none, some, List, [], ◌∷◌, ◌++◌, ◌≡◌, ◌≤◌, inl, inr, refl, sym, ap,
  ◌∙◌, subst, ==_iff, Text, ◌==◌, if◌then◌else◌, exists, exists-append, find, map, falling, Among,
  All, All-weaken, All-Among, All-self, All-keep, All_of_keep, Among-exists, All-falling,
  All_of_falling, falling-Pairwise, find-largest, find-Among, find-none, find_passes, Bool-cases,
  arith,
}
use mifos_test.Models.{Tenant, User, ProvisionJob}
use mifos_test.Env.{Env}
use mifos_test.World.{World}
use mifos_test.Organizations.{may_use_dashboard}
use mifos_test.Dashboard.{
  first_of_each, get, has_key, started_at, jobs_of, newest_first, ListPage, list_page, tenant_list,
  page,
}

get-append :
    (t : ℕ) (latest : List (ℕ × ProvisionJob)) (k : ℕ) (j : ProvisionJob)
    → get t (latest ++ (k, j) ∷ [])
      ≡ (if has_key t latest then get t latest else if k == t then some j else none)
get-append t [] k j = refl
get-append t ((u, i) ∷ latest) k j = ground (arith, get-append t latest k j)

get_no_key :
    (t : ℕ) (latest : List (ℕ × ProvisionJob)) → has_key t latest ≡ false → get t latest ≡ none
get_no_key t [] h = refl
get_no_key t ((u, i) ∷ latest) h = ground (arith, h, get_no_key t latest)

has_key_same :
    (b : Bool) (t : ℕ) (j : ProvisionJob) (latest : List (ℕ × ProvisionJob))
    → has_key j.tenant latest ≡ b
    → (j.tenant == t) ≡ true
    → has_key t latest ≡ b
has_key_same b t j latest h same = subst (λ u. has_key u latest ≡ b) ((==_iff j.tenant t).0 same) h

-- What the loop leaves under a tenant: what was there, else its first job.
get-first_of_each :
    (t : ℕ) (js : List ProvisionJob) (latest : List (ℕ × ProvisionJob))
    → get t (first_of_each js latest)
      ≡ (if has_key t latest then get t latest else find (λ j. j.tenant == t) js)
unfolding first_of_each
get-first_of_each t [] latest = ground (arith, get_no_key t latest)
get-first_of_each t (j ∷ js) latest = elim (Bool-cases (has_key j.tenant latest)) [
  | inl known ↦
      rw known (get-first_of_each t js latest ∙ ground (arith, has_key_same true t j latest known))
  | inr new ↦ rw new (
      get-first_of_each t js (latest ++ (j.tenant, j) ∷ [])
      ∙ ground (
        arith,
        has_key_same false t j latest new,
        get-append t latest j.tenant j,
        exists-append (λ entry. entry.0 == t) latest ((j.tenant, j) ∷ []),
      ))
]

rows_tenants :
    (f : Tenant → Option ProvisionJob) (ts : List Tenant)
    → map (λ (row : Tenant × Option ProvisionJob). row.0) (map (λ t. (t, f t)) ts) ≡ ts
rows_tenants f [] = refl
rows_tenants f (t ∷ ts) = ap (λ rest. t ∷ rest) (rows_tenants f ts)

module _ {env : Env} where
  -- No job of the tenant, or one of its jobs that started no earlier than any other of them.
  abbrev pub IsLatest : World env → Tenant → Option ProvisionJob → Type 0
  IsLatest w t none = All (λ k. (k.tenant == t.id) ≡ true → ⊥) w.jobs
  IsLatest w t (some j) =
      Among j w.jobs
      × ((j.tenant == t.id) ≡ true)
      × All (λ k. (k.tenant == t.id) ≡ true → k.started_at ≤ j.started_at) w.jobs

  module _ (tenants : List Tenant) (w : World env) (t : Tenant) (listed : Among t tenants) where
    -- A job that the query leaves out is no job of a tenant that is listed.
    not_of_listed :
        (k : ProvisionJob)
        → exists (λ (r : Tenant). r.id == k.tenant) tenants ≡ false
        → (k.tenant == t.id) ≡ true
        → ⊥
    not_of_listed k out same =
        let named : (t.id == k.tenant) ≡ true = ground (arith, same) in
        let in_list = Among-exists (λ (r : Tenant). r.id == k.tenant) tenants t listed named in
        ground (arith, out, in_list)

    found_IsLatest :
        (found : Option ProvisionJob)
        → find (λ k. k.tenant == t.id) (falling started_at (jobs_of tenants w)) ≡ found
        → IsLatest w t found
    found_IsLatest none e =
        All_of_keep (λ k. (k.tenant == t.id) ≡ true → ⊥) _ w.jobs not_of_listed
          (All_of_falling started_at _ (jobs_of tenants w) (find-none _ _ e))
    found_IsLatest (some j) e = (
      All-Among (λ k. Among k w.jobs) (falling started_at (jobs_of tenants w)) j
          (All-falling started_at _ (jobs_of tenants w)
            (All-keep (λ k. Among k w.jobs) _ w.jobs (All-self w.jobs)))
          (find-Among _ _ j e),
      find_passes (λ k. k.tenant == t.id) (falling started_at (jobs_of tenants w)) j e,
      All_of_keep (λ k. (k.tenant == t.id) ≡ true → k.started_at ≤ j.started_at) _ w.jobs
          (λ k out same. absurd (not_of_listed k out same))
          (All_of_falling started_at _ (jobs_of tenants w) (
            find-largest started_at (λ k. k.tenant == t.id) _ j
              (falling-Pairwise started_at (jobs_of tenants w)) e)),
    )

    listed_IsLatest :
        IsLatest w t (get t.id (first_of_each (falling started_at (jobs_of tenants w)) []))
    listed_IsLatest =
        found_IsLatest _ (sym (get-first_of_each t.id (falling started_at (jobs_of tenants w)) []))

  all_IsLatest :
      (f : Tenant → Option ProvisionJob) (w : World env) (ts : List Tenant)
      → All (λ t. IsLatest w t (f t)) ts
      → All
          (λ (row : Tenant × Option ProvisionJob). IsLatest w row.0 row.1)
          (map (λ t. (t, f t)) ts)
  all_IsLatest f w [] h = tt
  all_IsLatest f w (t ∷ ts) (first, rest) = (first, all_IsLatest f w ts rest)

  -- To staff the list of tenants shows every tenant, the newest first, each with the latest of its
  -- jobs: it is a job of that tenant, and no job of it started later. A tenant without one has none.
  pub tenant_list-Latest :
      (u : User) (host : Text) (w : World env)
      → may_use_dashboard u ≡ true
      → (p : ListPage) × (tenant_list (some u) host w ≡ page p)
        × (map (λ (row : Tenant × Option ProvisionJob). row.0) p.rows ≡ newest_first w.tenants)
        × All (λ (row : Tenant × Option ProvisionJob). IsLatest w row.0 row.1) p.rows
  unfolding tenant_list
  tenant_list-Latest u host w staff =
      let tenants = newest_first w.tenants in
      let latest =
        λ (t : Tenant). get t.id (first_of_each (falling started_at (jobs_of tenants w)) []) in
      (
        list_page host w,
        rw staff refl,
        rows_tenants latest tenants,
        all_IsLatest latest w tenants (
            All-weaken (λ t. Among t tenants) (λ t. IsLatest w t (latest t)) tenants
              (listed_IsLatest tenants w) (All-self tenants)),
      )
