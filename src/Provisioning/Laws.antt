-- ===== src/Provisioning/Laws.antt =====
-- What the theorems rely on of PostgreSQL.
use mifos_test.Prelude.{Bool, false, Text, ◌≡◌}
use mifos_test.Exec.{ok}
use mifos_test.Env.{Env, drop_database, drop_role}

-- The server accepts connections, and a DROP … IF EXISTS of the superuser goes through: nobody is
-- connected to the database, and the role owns nothing else.
pub record DropLaws (env : Env) : Type 0 where
  pub has_database : Text → env.Pg → Bool
  pub has_role : Text → env.Pg → Bool
  pub connects : (pg : env.Pg) → env.pg_connect pg ≡ ok tt
  pub drop_database_succeeds :
      (d : Text) (pg : env.Pg) → (b : Bool) × ((env.pg_execute (drop_database d) pg).0 ≡ ok b)
  pub drop_role_succeeds :
      (r : Text) (pg : env.Pg) → (b : Bool) × ((env.pg_execute (drop_role r) pg).0 ≡ ok b)
  pub drop_database_removes :
      (d : Text) (pg : env.Pg) → has_database d (env.pg_execute (drop_database d) pg).1 ≡ false
  pub drop_role_removes :
      (r : Text) (pg : env.Pg) → has_role r (env.pg_execute (drop_role r) pg).1 ≡ false
  pub drop_role_keeps :
      (r d : Text) (pg : env.Pg)
      → has_database d pg ≡ false
      → has_database d (env.pg_execute (drop_role r) pg).1 ≡ false
