-- ===== src/Tenants/Registering.antt =====
-- Registering the connection of one tenant leaves every other connection alone, and the router
-- sends the tables of the control plane to one database.
use mifos_test.Prelude.{
  Bool, true, false, none, some, Text, ◌≡◌, ◌≢◌, ◌↔◌, refl, same_text, same_text_iff, if◌then◌else◌,
  arith,
}
use mifos_test.Exec.{Exn, Result, ok, err}
use mifos_test.Models.{Tenant}
use mifos_test.Env.{Env}
use mifos_test.World.{World}
use mifos_test.Tenants.Routing.{
  default_alias, is_control_plane, db_for_read, db_for_write, allow_migrate, Databases, has_alias,
  database_of, db_alias_for, credential_of, password_of, database_for,
}

-- The databases of the registry and of another tenant are as they were.
abbrev pub Leaves : Tenant → Databases → Databases → Type 0
Leaves u before after =
    (database_of default_alias after ≡ database_of default_alias before)
    × (database_of (db_alias_for u) after ≡ database_of (db_alias_for u) before)

module _ {env : Env} where
  -- How a call ends: the alias was there, it is added with the tenant's own database and the
  -- password that its credential decrypts to, or that password is not to be had.
  pub data Ensured (t : Tenant) (w : World env) (before : Databases)
      : Result Text × Databases → Type 0 where
    known :
        has_alias (db_alias_for t) before ≡ true → Ensured t w before (ok (db_alias_for t), before)
    opened :
        (password : Text) (after : Databases)
        → has_alias (db_alias_for t) before ≡ false
        → (password_of (credential_of t w) w).0 ≡ ok password
        → database_of (db_alias_for t) after ≡ some (database_for t password)
        → has_alias (db_alias_for t) after ≡ true
        → Ensured t w before (ok (db_alias_for t), after)
    unreadable :
        (e : Exn)
        → (password_of (credential_of t w) w).0 ≡ err e
        → Ensured t w before (err e, before)

-- The two tests of the router, by what the second decides.
routes :
    {D : Type 0} (control is_default : Bool)
    → (is_default ≡ true) ↔ D
    → let answer = if control then some is_default else if is_default then some true else none in
      ((answer ≡ some true) ↔ D)
      × ((answer ≡ some false)
          ↔ (((if control then some default_alias else none) ≡ some default_alias) × (¬ D)))
routes true true e = ground (arith, e)
routes true false e = ground (arith, e)
routes false true e = ground (arith, e)
routes false false e = ground (arith, e)

-- The router reads and writes the tables of an application in one database; it lets an application
-- be migrated exactly in the registry's database, and forbids that exactly for the applications of
-- the control plane elsewhere.
pub allow_migrate_iff :
    (db app : Text)
    → (db_for_read app ≡ db_for_write app)
      × ((allow_migrate db app ≡ some true) ↔ (db ≡ default_alias))
      × ((allow_migrate db app ≡ some false)
          ↔ ((db_for_write app ≡ some default_alias) × (db ≢ default_alias)))
unfolding db_for_read db_for_write allow_migrate
allow_migrate_iff db app =
    let (may, must_not) =
      routes (is_control_plane app) (same_text db default_alias) (same_text_iff db default_alias) in
    (refl, may, must_not)
