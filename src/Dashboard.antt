-- ===== src/Dashboard.antt =====
-- backend/dashboard/views.py: the list of the tenants and the page of one.
pub mod Latest
pub mod Reveal
use mifos_test.Prelude.{
  ℕ, Bool, ◌&&◌, Option, none, some, List, [], ◌∷◌, ◌++◌, Text, text, ◌==◌, if◌then◌else◌, exists,
  find, keep, map, falling, is_nonempty, split_first,
}
use mifos_test.Models.{Tenant, Domain, User, ProvisionJob, is_ceo}
use mifos_test.Env.{Env}
use mifos_test.World.{World}
use mifos_test.Tenants.{primary_domain}
use mifos_test.Authentication.{belongs_to}
use mifos_test.Organizations.{Session, may_use_dashboard}

-- A page, a redirection to the login page, or the answer 404.
pub data Answer (P : Type 0) : Type 0 where
  page : P → Answer P
  to_login : Answer P
  not_found : Answer P

-- `@login_required` and the check for staff
abbrev pub for_staff : {P : Type 0} → Option User → Answer P → Answer P
for_staff none answer = to_login
for_staff (some u) answer = if may_use_dashboard u then answer else to_login

abbrev after_colon : Text → Text
after_colon [] = []
after_colon (c ∷ s) = if c == b':' then s else after_colon s

-- `host.split(":")[1] if ":" in host else ""`
unfoldable pub port_of : Text → Text
unfolding split_first
port_of host = split_first b':' (after_colon host)

-- `-created_at`: the last row comes first.
abbrev pub newest_first : List Tenant → List Tenant
newest_first [] = []
newest_first (t ∷ ts) = newest_first ts ++ t ∷ []

abbrev pub started_at : ProvisionJob → ℕ
started_at j = j.started_at

-- `latest.get(tenant)`
abbrev pub get : ℕ → List (ℕ × ProvisionJob) → Option ProvisionJob
get tenant [] = none
get tenant ((t, j) ∷ latest) = if t == tenant then some j else get tenant latest

abbrev pub has_key : ℕ → List (ℕ × ProvisionJob) → Bool
has_key tenant latest = exists (λ entry. entry.0 == tenant) latest

-- The loop of `tenant_list`: the first job of a tenant is kept.
unfoldable pub first_of_each : List ProvisionJob → List (ℕ × ProvisionJob) → List (ℕ × ProvisionJob)
first_of_each [] latest = latest
first_of_each (j ∷ js) latest =
    first_of_each js (if has_key j.tenant latest then latest else latest ++ (j.tenant, j) ∷ [])

pub record ListPage : Type 0 where
  pub rows : List (Tenant × Option ProvisionJob)
  pub current_port : Text

pub record DetailPage : Type 0 where
  pub tenant : Tenant
  pub domain : Option Domain
  pub admin_user : Option User
  pub admin_password : Option Text
  pub provisioning_error : Option Text
  pub latest_job : Option ProvisionJob
  pub subdomain_url : Option Text

-- The two keys are popped off the session.
abbrev pub emptied : Session
emptied = record { just_created_password = none; provisioning_error = none }

unfoldable pub subdomain_url : Text → Domain → Text
unfolding port_of
subdomain_url host d =
    let port = port_of host in
    text "http://" ++ d.hostname ++ (if is_nonempty port then text ":" ++ port else []) ++ text "/"

abbrev map_option : {A B : Type 0} → (A → B) → Option A → Option B
map_option f none = none
map_option f (some a) = some (f a)

abbrev head : {A : Type 0} → List A → Option A
head [] = none
head (x ∷ xs) = some x

module _ {env : Env} where
  -- `ProvisionJob.objects.filter(tenant__in=tenants)`
  abbrev pub jobs_of : List Tenant → World env → List ProvisionJob
  jobs_of tenants w = keep (λ j. exists (λ (t : Tenant). t.id == j.tenant) tenants) w.jobs

  abbrev pub list_page : Text → World env → ListPage
  list_page host w =
      let tenants = newest_first w.tenants in
      let latest = first_of_each (falling started_at (jobs_of tenants w)) [] in
      record {
        rows = map (λ (t : Tenant). (t, get t.id latest)) tenants;
        current_port = port_of host;
      }

  -- `tenant_list`
  unfoldable pub tenant_list : Option User → Text → World env → Answer ListPage
  unfolding first_of_each falling port_of
  tenant_list user host w = for_staff user (page (list_page host w))

  abbrev pub detail_page : Text → Session → World env → Tenant → DetailPage
  detail_page host session w t = record {
    tenant = t;
    domain = primary_domain t w;
    admin_user = find (λ u. belongs_to t.id u && is_ceo u.role) w.users;
    admin_password = session.just_created_password;
    provisioning_error = session.provisioning_error;
    latest_job = head (falling started_at (keep (λ j. j.tenant == t.id) w.jobs));
    subdomain_url = map_option (subdomain_url host) (primary_domain t w);
  }

  abbrev pub shown : Text → Session → World env → Option Tenant → Answer DetailPage × Session
  shown host session w none = (not_found, session)
  shown host session w (some t) = (page (detail_page host session w t), emptied)

  -- `tenant_detail`, with the session that it leaves
  unfoldable pub tenant_detail :
      Option User → Text → ℕ → Session → World env → Answer DetailPage × Session
  unfolding primary_domain falling subdomain_url
  tenant_detail none host id session w = (to_login, session)
  tenant_detail (some u) host id session w =
      if may_use_dashboard u
      then (shown host session w (find (λ t. t.id == id) w.tenants))
      else (to_login, session)
