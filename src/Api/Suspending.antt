-- ===== src/Api/Suspending.antt =====
-- The administration of tenants through the interface: who may, and that a suspension takes hold.
use mifos_test.Prelude.{
  ℕ, Bool, true, false, not, ◌&&◌, Option, some, List, [], ◌∷◌, ◌≡◌, refl, Text, ◌==◌, find, exists,
  All, All-rewrite, All-find, rewrite, arith,
}
use mifos_test.Exec.{ok, err, ◌>>=◌}
use mifos_test.Exec.Post.{Post}
use mifos_test.Models.{User, Tenant, LoginSession}
use mifos_test.Env.{Env}
use mifos_test.World.{World}
use mifos_test.Http.{Framework, Request, view_response}
use mifos_test.Tenants.{suspend, resolve, tenant_by_id}
use mifos_test.Tenants.Enforcement.{Withholds, suspended_tenant-Withholds}
use mifos_test.Tenants.Suspension.{suspend_lem}
use mifos_test.Authentication.{
  super_admin_only, Client, belongs_to, is_of_tenant, revoked, revoke_tenant_sessions, user_of,
  session_of, rotate_refresh_token,
}
use mifos_test.Authentication.Reuse.{ended, reuse_refusal, reuse_lem}
use mifos_test.Api.Tenants.{suspend_view, activate_view, provision_view}

module _ {env : Env} (drf : Framework) (user : User) where
  suspend_view-passes :
      (id : ℕ) (reason : Text) (t : Tenant) (w : World env)
      → super_admin_only (some user) ≡ true
      → tenant_by_id id w ≡ some t
      → suspend_view drf user id (some reason) w
        ≡ (ok (view_response 200), (suspend t reason (some user.id) w).1)
  unfolding suspend_view
  suspend_view-passes id reason t w may found =
      rw (may, found) (rw (suspend_lem t reason (some user.id) w) (unfold ◌>>=◌ in refl))

  -- Nobody but a super admin suspends, activates or provisions a tenant: to anybody else the
  -- framework's refusal is answered, and nothing is changed.
  pub administration_refused :
      (id : ℕ) (form : Option Text) (w : World env)
      → super_admin_only (some user) ≡ false
      → (suspend_view drf user id form w ≡ (ok drf.denied, w))
        × (activate_view drf user id w ≡ (ok drf.denied, w))
        × (provision_view drf user id w ≡ (ok drf.denied, w))
  unfolding suspend_view activate_view provision_view
  administration_refused id form w may = (rw may refl, rw may refl, rw may refl)

-- Where a super admin suspends a tenant through the interface, the answer is 200, and no request
-- after it is given the tenant, at any later time, on any host and path, whatever the cache then
-- holds.
pub suspend_view-Withholds :
    {env : Env} (drf : Framework) (user : User) (id : ℕ) (reason : Text) (t : Tenant)
    (w : World env) (req : Request) (later : ℕ) (stale : env.Cache)
    → super_admin_only (some user) ≡ true
    → tenant_by_id id w ≡ some t
    → let (answer, after) = suspend_view drf user id (some reason) w in
      (answer ≡ ok (view_response 200))
      × Post
          (resolve req (record after { now = later; cache = stale }))
          (λ v _. Withholds t.id v)
          (λ _ _. Unit)
suspend_view-Withholds drf user id reason t w req later stale may found =
    rw (suspend_view-passes drf user id reason t w may found)
      (refl, suspended_tenant-Withholds t reason (some user.id) w req later stale)

-- A session of a user of that tenant is revoked.
abbrev IsEnded : ℕ → List User → LoginSession → Type 0
IsEnded tenant users s = is_of_tenant tenant users s ≡ true → s.is_revoked ≡ true

closed_if : (a b : Bool) → (a && not b) ≡ false → a ≡ true → b ≡ true
closed_if true true h e = refl
closed_if true false h e = cc
closed_if false b h e = cc

IsEnded-sessions :
    (tenant : ℕ) (users : List User) (rows : List LoginSession)
    → All
        (IsEnded tenant users)
        (rewrite (λ r. is_of_tenant tenant users r && not r.is_revoked) revoked rows)
IsEnded-sessions tenant users rows =
    All-rewrite (IsEnded tenant users) (λ r. is_of_tenant tenant users r && not r.is_revoked)
      revoked (λ _ _ _. refl)
      (λ r closed e. closed_if (is_of_tenant tenant users r) r.is_revoked closed e) rows

find-exists :
    (p q : User → Bool) (users : List User) (u : User)
    → find p users ≡ some u
    → q u ≡ true
    → exists (λ x. p x && q x) users ≡ true
find-exists p q [] u h e = cc
find-exists p q (x ∷ users) u h e = ground (arith, find-exists p q users u)

-- The world after a tenant was suspended and the task that the suspension queues has run.
abbrev pub cut_off : {env : Env} → Tenant → Text → Option ℕ → World env → World env
cut_off t reason actor w = (revoke_tenant_sessions t.id (suspend t reason actor w).1).1

-- Once a tenant was suspended and the task that the suspension queues has run, no refresh token of
-- a user of the tenant is exchanged any more: with any client it is refused, and all that is
-- written is the revocation of that user's sessions and the entry on the reuse. From a client whose
-- address the audit log's column takes the refusal is TOKEN_INVALID; from any other it is the
-- column's DataError, and there is no entry.
pub suspended_tenant-sign_out :
    {env : Env} (t : Tenant) (reason : Text) (actor : Option ℕ) (w : World env) (raw : Text)
    (s : LoginSession) (u : User) (client : Client)
    → session_of raw (cut_off t reason actor w) ≡ some s
    → user_of s (cut_off t reason actor w) ≡ some u
    → belongs_to t.id u ≡ true
    → rotate_refresh_token raw client (cut_off t reason actor w)
      ≡ (err (reuse_refusal env client), ended u client (cut_off t reason actor w))
unfolding revoke_tenant_sessions
suspended_tenant-sign_out {env} t reason actor w raw s u client listed known member =
    let before = (suspend t reason actor w).1 in
    reuse_lem raw s u client (cut_off t reason actor w) listed
      (All-find (IsEnded t.id before.users) _ _ s
        (IsEnded-sessions t.id before.users before.sessions) listed
        (find-exists (λ x. x.id == s.user) (belongs_to t.id) before.users u known member))
      known
