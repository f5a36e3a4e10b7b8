-- ===== src/Registry.antt =====
-- The registry as a whole: what its rows satisfy at every time, and the operations that act on it.
pub mod Keys
pub mod Columns
pub mod Tables
pub mod Run
pub mod Pipeline
pub mod Requests
pub mod SigningIn
pub mod Adding
pub mod Views
pub mod Tasks
pub mod Steps
use mifos_test.Prelude.{ℕ, ◌≤◌, ◌<◌, false, ◌&&◌, List, Text, ◌≡◌, ◌≢◌, ◌==◌, All, Pairwise, Differ}
use mifos_test.Models.{Domain, User, Tenant}
use mifos_test.Env.{Env}
use mifos_test.World.{World}

-- Two rows that are not both the primary domain of one tenant.
abbrev pub OnePrimary : Domain → Domain → Type 0
OnePrimary d e = (d.is_primary && (e.is_primary && d.tenant == e.tenant)) ≡ false

abbrev pub hostname_of : Domain → Text
hostname_of d = d.hostname

abbrev pub email_of : User → Text
email_of u = u.email

-- Two tenants with nothing in common that has to be theirs alone.
abbrev pub Apart : Tenant → Tenant → Type 0
Apart t r =
    (t.id ≢ r.id)
    × (t.tenant_code ≢ r.tenant_code)
    × (t.db_name ≢ r.db_name)
    × (t.fineract_tenant_identifier ≢ r.fineract_tenant_identifier)

-- No hostname is there twice, no tenant has two primary domains, no two accounts have one address,
-- and no two tenants share a code, a database or a Fineract tenant. Every tenant is older than the
-- next primary key, which is at least `least`.
pub record Unique (least : ℕ) (domains : List Domain) (users : List User) (tenants : List Tenant)
    (next_id : ℕ) : Type 0 where
  pub hostnames : Pairwise (Differ hostname_of) domains
  pub primaries : Pairwise OnePrimary domains
  pub emails : Pairwise (Differ email_of) users
  pub apart : Pairwise Apart tenants
  pub older : All (λ t. t.id < next_id) tenants
  pub grown : least ≤ next_id

abbrev pub Sound : {env : Env} → World env → Type 0
Sound w = Unique 0 w.domains w.users w.tenants w.next_id
