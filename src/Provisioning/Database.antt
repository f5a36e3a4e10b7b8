-- ===== src/Provisioning/Database.antt =====
-- backend/provisioning/services.py: get_superuser_connection and class DatabaseCreator
use mifos_test.Prelude.{
  ℕ, Bool, not, [], ◌∷◌, ◌++◌, Text, text, ◌==◌, if◌then◌else◌, exists, rewrite,
}
use mifos_test.Exec.{Exec, pure, modify, gets, catch, when, ◌>>=◌, ◌>>◌}
use mifos_test.Models.{EncryptedCredential}
use mifos_test.Env.{
  Env, Statement, select_role, select_database, create_role, grant_all, drop_database, drop_role,
}
use mifos_test.World.{World, token_urlsafe}
use mifos_test.Crypto.{encrypt_secret}
use mifos_test.Tenants.{TenantColumn}
use mifos_test.Provisioning.State.{Run, call, set_tenant, save}

-- f"{db_name}_role"
abbrev pub role_name_of : Text → Text
role_name_of db_name = db_name ++ text "_role"

module _ {env : Env} where
  -- `get_superuser_connection()`: the connection itself holds no state that the code reads.
  unfoldable pub get_superuser_connection : Exec (World env) Unit
  get_superuser_connection w = (env.pg_connect w.pg, w)

  -- `cur.execute(…)`, and `cur.fetchone()` as a test
  unfoldable pub execute : Statement → Exec (World env) Bool
  execute q w = let (r, pg) = env.pg_execute q w.pg in (r, record w { pg = pg })

  -- `if not cur.fetchone(): cur.execute(…)`
  unfoldable pub execute_unless : Bool → Statement → Exec (World env) Unit
  unfolding execute ◌>>=◌
  execute_unless found q = when (not found) (execute q >> pure tt)

  -- The statements of `create_database`. Its `except` logs and raises again.
  unfoldable pub create_role_and_database : Text → Text → Text → Exec (World env) Unit
  unfolding get_superuser_connection execute execute_unless ◌>>=◌
  create_role_and_database role_name password db_name = do
    get_superuser_connection
    role_found ← execute (select_role role_name)
    execute_unless role_found (create_role role_name password)
    database_found ← execute (select_database db_name)
    execute_unless database_found (Statement.create_database db_name role_name)

  -- `EncryptedCredential.objects.get_or_create(tenant=tenant)`
  unfoldable pub ensure_credential : ℕ → Exec (World env) Unit
  ensure_credential tenant = modify λ w.
      if exists (λ (c : EncryptedCredential). c.tenant == tenant) w.credentials
      then w
      else record w {
        credentials =
            w.credentials ++ (record { tenant = tenant; db_password_encrypted = [] }) ∷ [];
      }

  -- `credential.set_password(raw); credential.save()`
  unfoldable pub store_password : ℕ → Text → Exec (World env) Unit
  unfolding encrypt_secret ◌>>=◌
  store_password tenant raw = do
    token ← encrypt_secret raw
    modify λ w. record w {
      credentials =
          rewrite (λ (c : EncryptedCredential). c.tenant == tenant)
            (λ c. record c { db_password_encrypted = token }) w.credentials;
    }

  -- `DatabaseCreator.create_database`
  unfoldable pub create_database : Exec (Run env) Unit
  unfolding create_role_and_database ensure_credential store_password token_urlsafe call save ◌>>=◌
  create_database = do
    db_name ← gets (λ s. s.tenant.db_name)
    let role_name = role_name_of db_name
    password ← call (token_urlsafe 32)
    call (create_role_and_database role_name password db_name)
    set_tenant λ t. record t { db_user = role_name; db_host = env.settings.pg_superuser_host }
    save (TenantColumn.db_user ∷ TenantColumn.db_host ∷ [])
    tenant ← gets (λ s. s.tenant.id)
    call (ensure_credential tenant)
    call (store_password tenant password)

  -- `DatabaseCreator.grant_permissions`
  unfoldable pub grant_permissions : Exec (Run env) Unit
  unfolding get_superuser_connection execute call ◌>>=◌
  grant_permissions = do
    t ← gets (λ s. s.tenant)
    call (get_superuser_connection >> execute (grant_all t.db_name t.db_user) >> pure tt)

  -- The statements of `drop_all`, under the `except` that logs and goes on.
  unfoldable pub drop_quietly : Text → Exec (World env) Unit
  unfolding execute catch ◌>>=◌
  drop_quietly db_name =
      catch
        (execute (drop_database db_name) >> execute (drop_role (role_name_of db_name)) >> pure tt)
        (λ _. pure tt)

  -- `DatabaseCreator.drop_all`: the connection is opened before the `try`.
  unfoldable pub drop_all : Exec (Run env) Unit
  unfolding get_superuser_connection drop_quietly call ◌>>=◌
  drop_all = do
    db_name ← gets (λ s. s.tenant.db_name)
    call (get_superuser_connection >> drop_quietly db_name)
