-- ===== src/Dashboard/Reveal.antt =====
-- The password of a new administrator is shown once.
use mifos_test.Prelude.{
  ℕ, Option, none, some, Text, ◌≡◌, inl, inr, refl, ◌==◌, ==_iff, Bool-cases, find, find_passes,
}
use mifos_test.Models.{User, Tenant}
use mifos_test.Env.{Env}
use mifos_test.World.{World}
use mifos_test.Organizations.{Session, may_use_dashboard}
use mifos_test.Dashboard.{
  Answer, page, to_login, not_found, DetailPage, tenant_detail, shown, emptied,
}

-- An answer that shows neither a password nor an error.
abbrev pub IsSilent : Answer DetailPage → Type 0
IsSilent (page p) = (p.admin_password ≡ none) × (p.provisioning_error ≡ none)
IsSilent answer = Unit

-- The page of a tenant that is there shows what the session holds, and empties it; any other answer
-- shows nothing, and leaves the session.
abbrev pub Shows : Session → ℕ → Answer DetailPage × Session → Type 0
Shows session id (page p, after) =
    (p.tenant.id ≡ id)
    × (p.admin_password ≡ session.just_created_password)
    × (p.provisioning_error ≡ session.provisioning_error)
    × (after ≡ emptied)
Shows session id (answer, after) = after ≡ session

module _ {env : Env} where
  found-Shows :
      (host : Text) (session : Session) (w : World env) (id : ℕ) (found : Option Tenant)
      → find (λ t. t.id == id) w.tenants ≡ found
      → Shows session id (shown host session w found)
  found-Shows host session w id none e = refl
  found-Shows host session w id (some t) e =
      ((==_iff t.id id).0 (find_passes (λ t. t.id == id) w.tenants t e), refl, refl, refl)

  detail-Shows :
      (user : Option User) (host : Text) (id : ℕ) (session : Session) (w : World env)
      → Shows session id (tenant_detail user host id session w)
  unfolding tenant_detail
  detail-Shows none host id session w = refl
  detail-Shows (some u) host id session w = elim (Bool-cases (may_use_dashboard u)) [
    | inl staff ↦ rw staff (found-Shows host session w id _ refl)
    | inr other ↦ rw other refl
  ]

  found-IsSilent :
      (host : Text) (w : World env) (found : Option Tenant)
      → IsSilent (shown host emptied w found).0
  found-IsSilent host w none = tt
  found-IsSilent host w (some t) = (refl, refl)

  emptied-IsSilent :
      (user : Option User) (host : Text) (id : ℕ) (w : World env)
      → IsSilent (tenant_detail user host id emptied w).0
  unfolding tenant_detail
  emptied-IsSilent none host id w = tt
  emptied-IsSilent (some u) host id w = elim (Bool-cases (may_use_dashboard u)) [
    | inl staff ↦ rw staff (found-IsSilent host w _)
    | inr other ↦ rw other tt
  ]

  -- Two requests for pages of tenants, one after the other in one browser session, whatever
  -- happened to the registry in between. The first shows the password and the error that the session
  -- holds if it is answered by the page of that tenant, and only then they are taken out of the
  -- session. If it is, the second request shows neither, whatever tenant it is for.
  pub tenant_detail-Once :
      (user user' : Option User) (host host' : Text) (id id' : ℕ) (session : Session)
      (w w' : World env) (p : DetailPage)
      → Shows session id (tenant_detail user host id session w)
        × ((tenant_detail user host id session w).0 ≡ page p
            → IsSilent
                (tenant_detail user' host' id' (tenant_detail user host id session w).1 w').0)
  tenant_detail-Once user user' host host' id id' session w w' p =
      (detail-Shows user host id session w, second _ (detail-Shows user host id session w))
    where
      second :
          (r : Answer DetailPage × Session)
          → Shows session id r
          → r.0 ≡ page p
          → IsSilent (tenant_detail user' host' id' r.1 w').0
      second (page q, after) (same, password, error, empty) e =
          rw empty (emptied-IsSilent user' host' id' w')
      second (to_login, after) shows e = cc e
      second (not_found, after) shows e = cc e
