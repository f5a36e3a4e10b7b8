-- ===== src/Registry/Keys.antt =====
-- How rows that are added or rewritten leave the unique columns.
use mifos_test.Prelude.{
  ℕ, ◌+◌, ◌≤◌, ◌<◌, All, All-weaken, Bool, false, List, [], ◌∷◌, ◌++◌, ◌≡◌, inl, inr, refl, sym,
  ◌∙◌, if◌then◌else◌, Bool-cases, rewrite, same_text_iff, Pairwise-append, Pairwise-rewrite, Differ,
  arith,
}
use mifos_test.Models.{Domain, User, Tenant}
use mifos_test.Tenants.{domain_clashes}
use mifos_test.Authentication.{email_taken}
use mifos_test.Domains.{certified}
use mifos_test.Registry.{OnePrimary, hostname_of, email_of, Unique}

older-later : (m n : ℕ) (ts : List Tenant) → m ≤ n → All (λ t. t.id < m) ts → All (λ t. t.id < n) ts
older-later m n ts later h =
    All-weaken (λ t. t.id < m) (λ t. t.id < n) ts (λ t old. ground (arith, later, old)) h

-- Primary keys only grow.
pub Unique-later :
    (k : ℕ) (ds : List Domain) (us : List User) (ts : List Tenant) (m n : ℕ)
    → m ≤ n
    → Unique k ds us ts m
    → Unique k ds us ts n
Unique-later k ds us ts m n later h = record {
  hostnames = h.hostnames;
  primaries = h.primaries;
  emails = h.emails;
  apart = h.apart;
  older = older-later m n ts later h.older;
  grown = ground (arith, later, h.grown);
}

-- A row that the unique columns let in.
pub Unique-domain :
    (k : ℕ) (ds : List Domain) (us : List User) (ts : List Tenant) (n : ℕ) (d : Domain)
    → domain_clashes d ds ≡ false
    → Unique k ds us ts n
    → Unique k (ds ++ d ∷ []) us ts (n + 1)
Unique-domain k ds us ts n d free u = record {
  hostnames =
      Pairwise-append (Differ hostname_of) _ d ds
        (λ r clear same.
          let hit = (same_text_iff r.hostname d.hostname).1 same in ground (arith, clear, hit))
        free u.hostnames;
  primaries = Pairwise-append OnePrimary _ d ds (λ r clear. ground (arith, clear)) free u.primaries;
  emails = u.emails;
  apart = u.apart;
  older = older-later n (n + 1) ts (ground arith) u.older;
  grown = ground (arith, u.grown);
}

-- The same for an account.
pub Unique-user :
    (k : ℕ) (ds : List Domain) (us : List User) (ts : List Tenant) (n : ℕ) (u : User)
    → email_taken u.email us ≡ false
    → Unique k ds us ts n
    → Unique k ds (us ++ u ∷ []) ts (n + 1)
Unique-user k ds us ts n u free h = record {
  hostnames = h.hostnames;
  primaries = h.primaries;
  emails =
      Pairwise-append (Differ email_of) _ u us
        (λ r clear same.
          let hit = (same_text_iff r.email u.email).1 same in ground (arith, clear, hit))
        free h.emails;
  apart = h.apart;
  older = older-later n (n + 1) ts (ground arith) h.older;
  grown = ground (arith, h.grown);
}

-- An update that leaves every address.
pub Unique-update :
    (p : User → Bool) (f : User → User) (k : ℕ) (ds : List Domain) (us : List User)
    (ts : List Tenant) (n : ℕ)
    → ((u : User) → (f u).email ≡ u.email)
    → Unique k ds us ts n
    → Unique k ds (rewrite p f us) ts n
Unique-update p f k ds us ts n same h = record {
  hostnames = h.hostnames;
  primaries = h.primaries;
  emails =
      Pairwise-rewrite (Differ email_of) p f us
        (λ x y differ e. differ (sym (left x) ∙ (e ∙ left y))) h.emails;
  apart = h.apart;
  older = h.older;
  grown = h.grown;
}
  where
    left : (x : User) → email_of (if p x then f x else x) ≡ x.email
    left x = elim (Bool-cases (p x)) [ inl hit ↦ rw hit (same x) | inr miss ↦ rw miss refl ]

-- An update of domains that leaves hostname, tenant and whether it is the primary one.
pub Unique-certified :
    (p : Domain → Bool) (k : ℕ) (ds : List Domain) (us : List User) (ts : List Tenant) (n : ℕ)
    → Unique k ds us ts n
    → Unique k (rewrite p certified ds) us ts n
Unique-certified p k ds us ts n h = record {
  hostnames =
      Pairwise-rewrite (Differ hostname_of) p certified ds
        (λ x y differ e. differ (sym (hostname_same x) ∙ (e ∙ hostname_same y))) h.hostnames;
  primaries =
      Pairwise-rewrite OnePrimary p certified ds
        (λ x y one. rw (primary_same x, primary_same y, tenant_same x, tenant_same y) one)
        h.primaries;
  emails = h.emails;
  apart = h.apart;
  older = h.older;
  grown = h.grown;
}
  where
    hostname_same : (x : Domain) → hostname_of (if p x then certified x else x) ≡ x.hostname
    hostname_same x = elim (Bool-cases (p x)) [ inl hit ↦ rw hit refl | inr miss ↦ rw miss refl ]

    primary_same : (x : Domain) → (if p x then certified x else x).is_primary ≡ x.is_primary
    primary_same x = elim (Bool-cases (p x)) [ inl hit ↦ rw hit refl | inr miss ↦ rw miss refl ]

    tenant_same : (x : Domain) → (if p x then certified x else x).tenant ≡ x.tenant
    tenant_same x = elim (Bool-cases (p x)) [ inl hit ↦ rw hit refl | inr miss ↦ rw miss refl ]
