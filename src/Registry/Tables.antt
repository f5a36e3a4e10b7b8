-- ===== src/Registry/Tables.antt =====
-- Operations that write no domain and no account, and the few that do.
use mifos_test.Prelude.{
  ℕ, Bool, false, List, Text, inl, inr, ltb, length, Bool-cases, Pairwise-keep, Differ, is_nonempty,
  arith,
}
use mifos_test.Exec.Keeps.{Keeps, Keeps-bind, keeps_rules}
use mifos_test.Models.{Domain, Tenant}
use mifos_test.Env.{Env, Task}
use mifos_test.World.{World, delay, token_urlsafe}
use mifos_test.Audit.{Entry, log}
use mifos_test.Crypto.{encrypt_secret, decrypt_secret}
use mifos_test.Json.{Json, Fields}
use mifos_test.Fineract.{
  create_tenant, create_tenant_user, delete_tenant, FineractClient, get_json, post_json, request,
  resolve_head_office_id, resolve_super_user_role_id,
}
use mifos_test.Tenants.{
  TenantColumn, save_tenant, any_too_long, any_clash, write_columns, delay_quietly,
  on_tenant_status_change, create_domain, domain_clashes,
}
use mifos_test.Authentication.{
  create_user, delete_users_of, email_taken, user_too_long, ExtraFields,
}
use mifos_test.Registry.{email_of, Unique}
use mifos_test.Registry.Columns.{saved-Apart, saved_older}
use mifos_test.Registry.Keys.{Unique-domain, Unique-user}

-- `Sound`, at a time when the next primary key is `least` or more.
abbrev pub Holds : {env : Env} → ℕ → World env → Type 0
Holds least w = Unique least w.domains w.users w.tenants w.next_id

module _ {env : Env} {least : ℕ} where
  pub delay-Holds : (task : Task) → Keeps (Holds {env = env} least) (delay task)
  unfolding delay
  delay-Holds task = record { kept = λ w h. h }

  pub token_urlsafe-Holds : (n : ℕ) → Keeps (Holds {env = env} least) (token_urlsafe n)
  unfolding token_urlsafe
  token_urlsafe-Holds n = record { kept = λ w h. h }

  pub log-Holds : (e : Entry) → Keeps (Holds {env = env} least) (log e)
  unfolding log
  log-Holds e = record { kept = λ w h. h }

  pub encrypt_secret-Holds : (raw : Text) → Keeps (Holds {env = env} least) (encrypt_secret raw)
  unfolding encrypt_secret
  encrypt_secret-Holds raw = record { kept = λ w h. ground arith }

  pub decrypt_secret-Holds : (token : Text) → Keeps (Holds {env = env} least) (decrypt_secret token)
  unfolding decrypt_secret
  decrypt_secret-Holds token = record { kept = λ w h. ground arith }

  pub delay_quietly-Holds : (task : Task) → Keeps (Holds {env = env} least) (delay_quietly task)
  unfolding delay_quietly
  delay_quietly-Holds task = search (keeps_rules, delay-Holds) depth 8

  on_tenant_status_change-Holds :
      (t : Tenant) → Keeps (Holds {env = env} least) (on_tenant_status_change t)
  unfolding on_tenant_status_change
  on_tenant_status_change-Holds t = search (keeps_rules, delay_quietly-Holds) depth 8

  pub save_tenant-Holds :
      (cs : List TenantColumn) (t : Tenant) → Keeps (Holds {env = env} least) (save_tenant cs t)
  unfolding save_tenant
  save_tenant-Holds cs t = record {
    kept = λ w h. elim (Bool-cases (any_too_long cs t)) [
      | inl long ↦ rw long h
      | inr fits ↦ elim (Bool-cases (any_clash cs t w.tenants)) [
        | inl clash ↦ rw (fits, clash) h
        | inr free ↦
            rw (fits, free)
              ((on_tenant_status_change-Holds t).kept (write_columns cs t w) (record {
                hostnames = h.hostnames;
                primaries = h.primaries;
                emails = h.emails;
                apart = saved-Apart cs t w.tenants free h.apart;
                older = saved_older cs t w.next_id w.tenants h.older;
                grown = h.grown;
              }))
      ]
    ];
  }

  pub create_tenant-Holds :
      (identifier name db_host db_name : Text)
      → Keeps (Holds {env = env} least) (create_tenant identifier name db_host db_name)
  unfolding create_tenant
  create_tenant-Holds identifier name db_host db_name = record { kept = λ w h. h }

  pub delete_tenant-Holds :
      (identifier : Text) → Keeps (Holds {env = env} least) (delete_tenant identifier)
  unfolding delete_tenant
  delete_tenant-Holds identifier = record { kept = λ w h. ground arith }

  get_json-Holds :
      (client : FineractClient) (path : Text) (params : Fields)
      → Keeps (Holds {env = env} least) (get_json client path params)
  unfolding get_json request
  get_json-Holds client path params = record { kept = λ w h. h }

  post_json-Holds :
      (client : FineractClient) (path : Text) (body : Json)
      → Keeps (Holds {env = env} least) (post_json client path body)
  unfolding post_json request
  post_json-Holds client path body = record { kept = λ w h. h }

  head_office-Holds :
      (client : FineractClient) → Keeps (Holds {env = env} least) (resolve_head_office_id client)
  unfolding resolve_head_office_id
  head_office-Holds client =
      Keeps-bind _ _ (get_json-Holds client _ _) (λ _. record { kept = λ w h. h })

  super_user_role-Holds :
      (client : FineractClient)
      → Keeps (Holds {env = env} least) (resolve_super_user_role_id client)
  unfolding resolve_super_user_role_id
  super_user_role-Holds client =
      Keeps-bind _ _ (get_json-Holds client _ _) (λ _. record { kept = λ w h. h })

  pub create_tenant_user-Holds :
      (identifier username password : Text)
      → Keeps (Holds {env = env} least) (create_tenant_user identifier username password)
  unfolding create_tenant_user
  create_tenant_user-Holds identifier username password =
      search (keeps_rules, head_office-Holds, super_user_role-Holds, post_json-Holds) depth 8

  pub create_domain-Holds :
      (t : Tenant) (hostname : Text) (is_primary is_custom : Bool)
      → Keeps (Holds {env = env} least) (create_domain t hostname is_primary is_custom)
  unfolding create_domain
  create_domain-Holds t hostname is_primary is_custom = record {
    kept = λ w h.
        let d : Domain = record {
          id = w.next_id;
          tenant = t.id;
          hostname = hostname;
          is_primary = is_primary;
          is_custom = is_custom;
          ssl_verified = false;
        } in
        elim (Bool-cases (ltb 255 (length hostname))) [
          | inl long ↦ rw long h
          | inr fits ↦ elim (Bool-cases (domain_clashes d w.domains)) [
            | inl clash ↦ rw (fits, clash) h
            | inr free ↦
                rw (fits, free) (Unique-domain least w.domains w.users w.tenants w.next_id d free h)
          ]
        ];
  }

  pub create_user-Holds :
      (email password : Text) (extra : ExtraFields)
      → Keeps (Holds {env = env} least) (create_user email password extra)
  unfolding create_user
  create_user-Holds email password extra = record {
    kept = λ w h. elim (Bool-cases (is_nonempty email)) [
      | inr empty ↦ rw empty h
      | inl named ↦ rw named (elim (Bool-cases (user_too_long (env.normalize_email email) extra)) [
        | inl long ↦ rw long h
        | inr fits ↦ elim (Bool-cases (email_taken (env.normalize_email email) w.users)) [
          | inl taken ↦ rw (fits, taken) h
          | inr free ↦
              rw (fits, free) (Unique-user least w.domains w.users w.tenants w.next_id _ free h)
        ]
      ])
    ];
  }

  pub delete_users_of-Holds : (id : ℕ) → Keeps (Holds {env = env} least) (delete_users_of id)
  unfolding delete_users_of
  delete_users_of-Holds id = record {
    kept = λ w h. record {
      hostnames = h.hostnames;
      primaries = h.primaries;
      emails = Pairwise-keep (Differ email_of) _ w.users h.emails;
      apart = h.apart;
      older = h.older;
      grown = h.grown;
    };
  }
