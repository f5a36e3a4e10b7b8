-- ===== src/Tenants/Routing.antt =====
-- backend/tenants/db_router.py and backend/tenants/connection_registry.py
use mifos_test.Prelude.{
  ℕ, Bool, true, Option, none, some, List, [], ◌∷◌, ◌++◌, Text, text, ◌==◌, if◌then◌else◌,
  same_text, exists, find,
}
use mifos_test.Exec.{Exec, Result, ok, err, pure}
use mifos_test.Models.{Tenant, EncryptedCredential}
use mifos_test.Env.{Env}
use mifos_test.World.{World}
use mifos_test.Crypto.{decrypt_secret}

abbrev pub control_plane_apps : List Text
control_plane_apps =
    text "organizations"
    ∷ text "tenants"
    ∷ text "provisioning"
    ∷ text "subscriptions"
    ∷ text "audit"
    ∷ text "authentication"
    ∷ text "domains"
    ∷ text "admin"
    ∷ text "auth"
    ∷ text "contenttypes"
    ∷ text "sessions"
    ∷ text "token_blacklist"
    ∷ []

abbrev pub default_alias : Text
default_alias = text "default"

-- `app_label in CONTROL_PLANE_APPS`
unfoldable pub is_control_plane : Text → Bool
unfolding same_text
is_control_plane app_label = exists (same_text app_label) control_plane_apps

-- `db_for_read` and `db_for_write`
unfoldable pub db_for_read : Text → Option Text
unfolding is_control_plane
db_for_read app_label = if is_control_plane app_label then some default_alias else none

unfoldable pub db_for_write : Text → Option Text
unfolding is_control_plane
db_for_write app_label = if is_control_plane app_label then some default_alias else none

-- `allow_migrate`: `none` leaves the question to the next router.
unfoldable pub allow_migrate : Text → Text → Option Bool
unfolding is_control_plane same_text
allow_migrate db app_label =
    if is_control_plane app_label
    then some (same_text db default_alias)
    else if same_text db default_alias
    then some true
    else none

-- An entry of `settings.DATABASES`, as far as tenants differ in it
pub record Database : Type 0 where
  pub name : Text
  pub user : Text
  pub password : Text
  pub host : Text
  pub port : ℕ

-- `settings.DATABASES`
abbrev pub Databases : Type 0
Databases = List (Text × Database)

abbrev pub has_alias : Text → Databases → Bool
has_alias alias databases = exists (λ entry. same_text entry.0 alias) databases

-- `settings.DATABASES[alias]`
abbrev pub database_of : Text → Databases → Option Database
database_of alias [] = none
database_of alias ((a, d) ∷ rest) = if same_text a alias then some d else database_of alias rest

unfoldable pub db_alias_for : Tenant → Text
db_alias_for t = text "tenant_" ++ t.tenant_code

abbrev pub database_for : Tenant → Text → Database
database_for t password = record {
  name = t.db_name;
  user = t.db_user;
  password = password;
  host = t.db_host;
  port = t.db_port;
}

abbrev pub registered : Text → Tenant → Databases → Result Text → Result Text × Databases
registered alias t databases (ok password) =
    (ok alias, databases ++ (alias, database_for t password) ∷ [])
registered alias t databases (err e) = (err e, databases)

module _ {env : Env} where
  abbrev pub credential_of : Tenant → World env → Option EncryptedCredential
  credential_of t w = find (λ c. c.tenant == t.id) w.credentials

  -- The password of the tenant's credential, or none at all
  unfoldable pub password_of : Option EncryptedCredential → Exec (World env) Text
  unfolding decrypt_secret
  password_of none = pure []
  password_of (some c) = decrypt_secret c.db_password_encrypted

  -- `ensure_registered`: the alias, with the databases that are known afterwards
  unfoldable pub ensure_registered : Tenant → World env → Databases → Result Text × Databases
  unfolding db_alias_for password_of
  ensure_registered t w databases =
      let alias = db_alias_for t in
      if has_alias alias databases
      then (ok alias, databases)
      else registered alias t databases (password_of (credential_of t w) w).0
