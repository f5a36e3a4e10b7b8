-- ===== src/Authentication/Users.antt =====
-- backend/authentication/models.py: UserManager and the login counters of User.
use mifos_test.Prelude.{
  ℕ, ◌+◌, Bool, true, false, not, ◌||◌, Option, none, some, List, [], ◌∷◌, ◌++◌, Text, text, ◌==◌,
  ltb, length, is_nonempty, if◌then◌else◌, same_text, exists, keep, map,
}
use mifos_test.Exec.{Exec, value_error, integrity_error, data_error, ok, raise, modify}
use mifos_test.Models.{User, Role, LoginSession, AuditLog, ApiKey}
use mifos_test.Env.{Env}
use mifos_test.World.{World}

-- The `**extra_fields` that callers of `create_user` give.
pub record ExtraFields : Type 0 where
  pub tenant : Option ℕ
  pub role : Role
  pub first_name : Text
  pub is_platform_staff : Bool
  pub is_superuser : Bool
  pub is_active : Bool
  pub is_staff : Bool

-- The columns' defaults, where a caller gives nothing.
abbrev pub no_extra_fields : ExtraFields
no_extra_fields = record {
  tenant = none;
  role = Role.member;
  first_name = [];
  is_platform_staff = false;
  is_superuser = false;
  is_active = true;
  is_staff = false;
}

abbrev new_user : ℕ → Text → Text → ExtraFields → User
new_user id email password extra = record {
  id = id;
  tenant = extra.tenant;
  email = email;
  password = password;
  phone_number = [];
  first_name = extra.first_name;
  last_name = [];
  role = extra.role;
  branch_id = none;
  is_platform_staff = extra.is_platform_staff;
  is_superuser = extra.is_superuser;
  is_active = extra.is_active;
  is_staff = extra.is_staff;
  is_email_verified = false;
  mfa_enabled = false;
  mfa_secret_encrypted = none;
  failed_login_attempts = 0;
  locked_until = none;
  password_changed_at = none;
  last_login_ip = none;
}

-- `email` is unique over all users.
abbrev pub email_taken : Text → List User → Bool
email_taken email rows = exists (λ u. same_text u.email email) rows

-- `user.tenant_id == tenant.id`
abbrev pub belongs_to : ℕ → User → Bool
belongs_to id u = elim u.tenant [ none ↦ false | some t ↦ t == id ]

-- The lengths of `email` and `first_name`.
abbrev pub user_too_long : Text → ExtraFields → Bool
user_too_long email extra = ltb 254 (length email) || ltb 100 (length extra.first_name)

-- A foreign key that names a user of the tenant.
abbrev is_deleted : ℕ → List User → Option ℕ → Bool
is_deleted tenant users none = false
is_deleted tenant users (some u) = exists (λ r. r.id == u) (keep (belongs_to tenant) users)

module _ {env : Env} where
  abbrev insert_user : Text → Text → ExtraFields → Exec (World env) User
  insert_user email password extra w =
      let u = new_user w.next_id email (env.make_password w.draws password) extra in
      if user_too_long email extra
      then raise (data_error (text "authentication_user")) w
      else if email_taken email w.users
      then raise (integrity_error (text "authentication_user")) w
      else (
        ok u,
        record w { users = w.users ++ u ∷ []; next_id = w.next_id + 1; draws = w.draws + 1 },
      )

  -- `User.objects.create_user(email, password, **extra)`
  unfoldable pub create_user : Text → Text → ExtraFields → Exec (World env) User
  create_user email password extra w =
      if not (is_nonempty email)
      then raise (value_error (text "Users must have an email address")) w
      else insert_user (env.normalize_email email) password extra w

  -- `create_superuser`, where the caller sets none of the four defaults
  unfoldable pub create_superuser : Text → Text → ExtraFields → Exec (World env) User
  unfolding create_user
  create_superuser email password extra = create_user email password (record extra {
    is_staff = true;
    is_superuser = true;
    is_platform_staff = true;
    role = Role.super_admin;
  })

  -- `User.objects.filter(tenant=tenant).delete()`, with what `on_delete` does to the rows that
  -- refer to a deleted user: sessions go, keys and log rows lose the reference.
  unfoldable pub delete_users_of : ℕ → Exec (World env) Unit
  delete_users_of tenant = modify λ w. record w {
    users = keep (λ u. not (belongs_to tenant u)) w.users;
    sessions =
        keep (λ (s : LoginSession). not (is_deleted tenant w.users (some s.user))) w.sessions;
    api_keys =
        map
          (λ (k : ApiKey).
            if is_deleted tenant w.users k.created_by then record k { created_by = none } else k)
          w.api_keys;
    audit_logs =
        map
          (λ (a : AuditLog).
            if is_deleted tenant w.users a.actor_user then record a { actor_user = none } else a)
          w.audit_logs;
  }
