-- ===== src/Tenants/Tasks.antt =====
-- backend/tenants/tasks.py: the backups, and a provisioning task of the same name as that of
-- backend/provisioning/tasks.py.
use mifos_test.Prelude.{
  ℕ, ◌&&◌, Option, none, some, List, [], ◌∷◌, ◌++◌, Text, text, ◌==◌, find, keep, map,
}
use mifos_test.Exec.{Exec, python_error, pure, raise, gets, ◌>>=◌, ◌>>◌}
use mifos_test.Models.{Tenant, ProvisionJob, is_ready}
use mifos_test.Env.{Env, PgDump, Task}
use mifos_test.World.{World, delay}

-- f"/backups/{tenant.tenant_code}", and the file in it
abbrev pub backup_dir : Tenant → Text
backup_dir t = text "/backups/" ++ t.tenant_code

abbrev pub backup_file : Text → Tenant → Text
backup_file date t =
    backup_dir t ++ (text "/" ++ (date ++ (text "_" ++ (t.tenant_code ++ text ".dump"))))

-- `cmd` and `env`
abbrev pub dump_command : Env → Tenant → ℕ → PgDump
dump_command env t now = record {
  host = t.db_host;
  port = t.db_port;
  user = env.settings.pg_superuser_name;
  password = env.settings.pg_superuser_password;
  file = backup_file (env.today now) t;
  db_name = t.db_name;
}

module _ {env : Env} where
  unfoldable pub make_dirs : Text → Exec (World env) Unit
  make_dirs path w = let (r, disk) = env.makedirs path w.disk in (r, record w { disk = disk })

  unfoldable pub run_dump : PgDump → Exec (World env) Unit
  run_dump command w =
      let (r, disk) = env.run_pg_dump command w.disk in (r, record w { disk = disk })

  -- `Tenant.objects.get(id=tenant_id, status=READY)`
  abbrev pub ready_tenant : ℕ → World env → Option Tenant
  ready_tenant id w = find (λ t. t.id == id && is_ready t.status) w.tenants

  unfoldable pub backup_found : Option Tenant → Exec (World env) Unit
  unfolding make_dirs run_dump ◌>>=◌
  backup_found none = pure tt
  backup_found (some t) =
      make_dirs (backup_dir t) >> (gets (λ w. w.now) >>= λ now. run_dump (dump_command env t now))

  -- `backup_tenant_database`; its `except` logs and raises again.
  unfoldable pub backup_tenant_database : ℕ → Exec (World env) Unit
  unfolding backup_found ◌>>=◌
  backup_tenant_database id = gets (ready_tenant id) >>= backup_found

  -- `for tenant_id in tenant_ids`
  unfoldable pub queue_backups : List ℕ → Exec (World env) Unit
  unfolding delay ◌>>=◌
  queue_backups [] = pure tt
  queue_backups (id ∷ ids) = delay (Task.backup_tenant_database id) >> queue_backups ids

  -- `backup_all_tenant_databases`
  unfoldable pub backup_all_tenant_databases : Exec (World env) Unit
  unfolding queue_backups
  backup_all_tenant_databases w =
      queue_backups (map (λ (t : Tenant). t.id) (keep (λ t. is_ready t.status) w.tenants)) w

  abbrev status_of_class : Option ProvisionJob → Exec (World env) Unit
  status_of_class none = pure tt
  status_of_class (some job) =
      raise (python_error (text "type object 'ProvisionJob' has no attribute 'Status'"))

  -- `provision_tenant_database_task`: for a job that is there the first statement reads
  -- `ProvisionJob.Status`, which the class does not have, outside the `try`.
  unfoldable pub provision_tenant_database_task : ℕ → Exec (World env) Unit
  unfolding ◌>>=◌
  provision_tenant_database_task job_id =
      gets (λ w. find (λ (j : ProvisionJob). j.id == job_id) w.jobs) >>= status_of_class
