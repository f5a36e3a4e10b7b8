-- ===== src/Authentication/Lockout.antt =====
-- backend/authentication/models.py: the login counters of User.
use mifos_test.Prelude.{
  ℕ, ◌+◌, ◌*◌, Bool, Option, none, some, Text, text, ◌==◌, ltb, leb, if◌then◌else◌, rewrite,
  is_truthy,
}
use mifos_test.Exec.{Exec, data_error, raise, ok}
use mifos_test.Models.{User}
use mifos_test.World.{World}
use mifos_test.Env.{Env, inet_fits}

-- `is_locked`
unfoldable pub is_locked : User → ℕ → Bool
is_locked u now = elim u.locked_until [ none ↦ Bool.false | some until ↦ ltb now until ]

-- The object after one more failure, and after a success.
unfoldable pub count_failure : User → ℕ → User
count_failure u now =
    let counted = record u { failed_login_attempts = u.failed_login_attempts + 1 } in
    if leb 5 (u.failed_login_attempts + 1)
    then record counted { locked_until = some (now + 30 * 60) }
    else counted

unfoldable pub clear_failures : User → Option Text → User
clear_failures u ip = record u {
  failed_login_attempts = 0;
  locked_until = none;
  last_login_ip = if is_truthy ip then ip else u.last_login_ip;
}

-- The columns of the two saves, from the object to its row.
abbrev pub copy_counters : User → User → User
copy_counters u row = record row {
  failed_login_attempts = u.failed_login_attempts;
  locked_until = u.locked_until;
}

abbrev pub copy_login : User → User → User
copy_login u row = record (copy_counters u row) { last_login_ip = u.last_login_ip }

module _ {env : Env} where
  -- `user.save(update_fields=[…])`, with the copy of those fields
  abbrev pub update_user : (User → User) → User → World env → World env
  update_user copy u w = record w { users = rewrite (λ r. r.id == u.id) copy w.users }

  -- `register_failed_login`; the counter is a `smallint`.
  unfoldable pub register_failed_login : User → Exec (World env) User
  unfolding count_failure
  register_failed_login u w =
      let u' = count_failure u w.now in
      if ltb 32767 u'.failed_login_attempts
      then raise (data_error (text "authentication_user")) w
      else (ok u', update_user (copy_counters u') u' w)

  -- `register_successful_login`; `last_login_ip` is an `inet`.
  unfoldable pub register_successful_login : User → Option Text → Exec (World env) User
  unfolding clear_failures
  register_successful_login u ip w =
      let u' = clear_failures u ip in
      if inet_fits env ip
      then (ok u', update_user (copy_login u') u' w)
      else raise (data_error (text "authentication_user")) w
