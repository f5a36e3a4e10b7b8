-- ===== src/Scenarios/Routes.antt =====
-- Lookups, connections and backups at concrete tenants.
use mifos_test.Prelude.{◌≡◌, refl, true, [], ◌∷◌, text, same_text}
use mifos_test.Exec.{ok}
use mifos_test.Exec.Post.{Post}
use mifos_test.Models.{Tenant}
use mifos_test.Env.{Task}
use mifos_test.Tenants.{
  normalize, resolve, ensure_registered, Databases, Database, default_alias, backup_tenant_database,
  backup_all_tenant_databases,
}
use mifos_test.Tenants.Direct.{specified, CacheRaised, resolve_refines}
use mifos_test.Tenants.Backups.{
  BackedUp, due_ids, Queued, backup_tenant_database-BackedUp, backup_all-Queued,
}
use mifos_test.Scenarios.Toy.{fresh, imara, served}
use mifos_test.Scenarios.Resolve.{online, members, online-CacheHolds}

resolve_refines_example :
    Post
      (resolve members online)
      (λ v _. v ≡ specified members online)
      (λ e _. CacheRaised (normalize members.host) online e)
resolve_refines_example = resolve_refines members online online-CacheHolds

-- Another tenant, and the table of databases that the settings start with.
abbrev upendo : Tenant
upendo = record imara { id = 2; tenant_code = text "upendo" }

abbrev registry_database : Database
registry_database = record {
  name = text "tenant_registry";
  user = text "registry_app_role";
  password = text "pw";
  host = text "localhost";
  port = 5432;
}

abbrev configured : Databases
configured = (default_alias, registry_database) ∷ []

first_use : (ensure_registered imara (fresh true true) configured).0 ≡ ok (text "tenant_imara")
unfolding ensure_registered same_text
first_use = refl

backup_written :
    (backup_tenant_database 1 served).1.disk
    ≡ text "/backups/imara/2026-05-01_imara.dump" ∷ text "/backups/imara" ∷ []
unfolding backup_tenant_database
backup_written = refl

-- A tenant that is not served is not backed up.
backup_left_out : (backup_tenant_database 1 (fresh true true)).1.disk ≡ []
unfolding backup_tenant_database
backup_left_out = refl

backups_queued : (backup_all_tenant_databases served).1.broker ≡ Task.backup_tenant_database 1 ∷ []
unfolding backup_all_tenant_databases
backups_queued = refl

backup_tenant_database-BackedUp_example : BackedUp 1 served (backup_tenant_database 1 served)
backup_tenant_database-BackedUp_example = backup_tenant_database-BackedUp 1 served

backup_all-Queued_example :
    Queued (due_ids served.tenants) served (backup_all_tenant_databases served)
backup_all-Queued_example = backup_all-Queued served
