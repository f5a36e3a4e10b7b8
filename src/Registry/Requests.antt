-- ===== src/Registry/Requests.antt =====
-- Requests and tasks keep the registry sound.
use mifos_test.Prelude.{
  ◌||◌, not, ℕ, ◌+◌, ◌≤◌, Option, none, some, List, [], ◌∷◌, Text, ◌≡◌, ◌==◌, refl, Bool-cases, inl,
  inr, ltb, length, arith,
}
use mifos_test.Exec.{Exec, Result, ok, err}
use mifos_test.Exec.Keeps.{Keeps, Keeps-bind, Keeps-catch, Keeps-pure, keeps_rules}
use mifos_test.Models.{Tenant, User, Domain}
use mifos_test.Env.{inet_fits, Env}
use mifos_test.World.{World, atomic, settle}
use mifos_test.Tenants.{cache_delete, delete_keys, domains_of, bust_cache, suspend, activate}
use mifos_test.Authentication.{
  Client, register_failed_login, register_successful_login, update_user, count_failure,
  copy_counters, copy_login, clear_failures, refresh_token_for, create_session, insert_session,
  issue_session,
}
use mifos_test.Registry.{Unique}
use mifos_test.Registry.Keys.{Unique-update, Unique-later}
use mifos_test.Registry.Tables.{Holds, save_tenant-Holds, log-Holds, decrypt_secret-Holds}

module _ {env : Env} {least : ℕ} where
  -- A transaction that raises leaves the tables as they were; primary keys are not given back.
  settle-Holds :
      {A : Type 0} (r : Result A) (before after : World env)
      → Holds least before
      → Holds least after
      → before.next_id ≤ after.next_id
      → Holds least (settle r before after).1
  settle-Holds (ok a) before after h k later = k
  settle-Holds (err e) before after h k later =
      Unique-later least before.domains before.users before.tenants before.next_id after.next_id
        later h

  -- `Holds` with a later key.
  since : (w : World env) → Holds least w → Holds w.next_id w
  since w h = record {
    hostnames = h.hostnames;
    primaries = h.primaries;
    emails = h.emails;
    apart = h.apart;
    older = h.older;
    grown = ground arith;
  }

  pub atomic-Holds :
      {A : Type 0} (m : Exec (World env) A)
      → ((k : ℕ) → Keeps (Holds {env = env} k) m)
      → Keeps (Holds {env = env} least) (atomic m)
  unfolding atomic
  atomic-Holds m k = record {
    kept = λ w h.
        settle-Holds (m w).0 w (m w).1 h ((k least).kept w h)
          ((k w.next_id).kept w (since w h)).grown;
  }

  -- One primary key is used up.
  pub bumped :
      (w : World env) → Holds least w → Unique least w.domains w.users w.tenants (w.next_id + 1)
  bumped w h =
      Unique-later least w.domains w.users w.tenants w.next_id (w.next_id + 1) (ground arith) h

  cache_delete-Holds : (key : Text) → Keeps (Holds {env = env} least) (cache_delete key)
  unfolding cache_delete
  cache_delete-Holds key = record { kept = λ w h. h }

  delete_keys-Holds : (ds : List Domain) → Keeps (Holds {env = env} least) (delete_keys ds)
  unfolding delete_keys
  delete_keys-Holds [] = record { kept = λ w h. h }
  delete_keys-Holds (d ∷ ds) = Keeps-bind _ _ (cache_delete-Holds _) (λ _. delete_keys-Holds ds)

  pub bust_cache-Holds : (t : Tenant) → Keeps (Holds {env = env} least) (bust_cache t)
  unfolding bust_cache
  bust_cache-Holds t = record {
    kept =
        λ w h. (Keeps-catch _ _ (delete_keys-Holds (domains_of t w)) (λ _. Keeps-pure tt)).kept w h;
  }

  -- An update of the rows of a user that leaves the addresses.
  pub update_user-Holds :
      (copy : User → User) (u : User) (w : World env)
      → ((r : User) → (copy r).email ≡ r.email)
      → Holds least w
      → Holds least (update_user copy u w)
  update_user-Holds copy u w same h =
      Unique-update (λ r. r.id == u.id) copy least w.domains w.users w.tenants w.next_id same h

  pub failed_login-Holds : (u : User) → Keeps (Holds {env = env} least) (register_failed_login u)
  unfolding register_failed_login
  failed_login-Holds u = record {
    kept = λ w h.
        let counted = count_failure u w.now in
        elim (Bool-cases (ltb 32767 counted.failed_login_attempts)) [
          | inl long ↦ rw long h
          | inr fits ↦ rw fits (update_user-Holds (copy_counters counted) counted w (λ _. refl) h)
        ];
  }

  pub successful_login-Holds :
      (u : User) (ip : Option Text)
      → Keeps (Holds {env = env} least) (register_successful_login u ip)
  unfolding register_successful_login
  successful_login-Holds u ip = record {
    kept = λ w h. elim (Bool-cases (inet_fits env ip)) [
      | inl fits ↦ rw fits (
          update_user-Holds (copy_login (clear_failures u ip)) (clear_failures u ip) w (λ _. refl)
            h)
      | inr bad ↦ rw bad h
    ];
  }

  refresh_token_for-Holds : (u : User) → Keeps (Holds {env = env} least) (refresh_token_for u)
  unfolding refresh_token_for
  refresh_token_for-Holds u = record { kept = λ w h. h }

  insert_session-Holds :
      (u : User) (refresh : Text) (client : Client) (ip : Option Text)
      → Keeps (Holds {env = env} least) (insert_session u refresh client ip)
  unfolding insert_session
  insert_session-Holds u refresh client none = record { kept = λ w h. h }
  insert_session-Holds u refresh client (some []) = record { kept = λ w h. h }
  insert_session-Holds u refresh client (some (c ∷ cs)) = record {
    kept = λ w h. elim (Bool-cases (ltb 128 (length client.device) || not (env.is_inet (c ∷ cs)))) [
      | inl long ↦ rw long h
      | inr fits ↦ rw fits (bumped w h)
    ];
  }

  create_session-Holds :
      (u : User) (refresh : Text) (client : Client)
      → Keeps (Holds {env = env} least) (create_session u refresh client)
  unfolding create_session
  create_session-Holds u refresh client = insert_session-Holds u refresh client client.ip_address

  pub issue_session-Holds :
      (u : User) (client : Client) → Keeps (Holds {env = env} least) (issue_session u client)
  unfolding issue_session
  issue_session-Holds u client =
      search (keeps_rules, refresh_token_for-Holds, create_session-Holds) depth 8

module _ {env : Env} where
  ruleset request_rules =
      (keeps_rules, save_tenant-Holds, log-Holds, bust_cache-Holds, decrypt_secret-Holds)

  pub suspend-Holds :
      {least : ℕ} (t : Tenant) (reason : Text) (actor : Option ℕ)
      → Keeps (Holds {env = env} least) (suspend t reason actor)
  unfolding suspend
  suspend-Holds {least} t reason actor = search (request_rules, atomic-Holds) depth 14

  pub activate-Holds :
      {least : ℕ} (t : Tenant) (actor : Option ℕ)
      → Keeps (Holds {env = env} least) (activate t actor)
  unfolding activate
  activate-Holds {least} t actor = search (request_rules, atomic-Holds) depth 14
