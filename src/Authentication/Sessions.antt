-- ===== src/Authentication/Sessions.antt =====
-- backend/authentication/services.py: the sessions of AuthenticationService, and the tasks of
-- backend/authentication/tasks.py on them.
use mifos_test.Prelude.{
  ℕ, ◌+◌, ◌*◌, Bool, true, false, not, ◌&&◌, ◌||◌, Option, none, some, List, [], ◌∷◌, ◌++◌, Text,
  text, ◌==◌, ltb, length, if◌then◌else◌, rewrite, keep, exists,
}
use mifos_test.Exec.{Exec, integrity_error, data_error, raise, ok, modify, pure, ◌>>=◌, ◌>>◌}
use mifos_test.Models.{User, LoginSession}
use mifos_test.Env.{Env}
use mifos_test.World.{World}
use mifos_test.Authentication.Users.{belongs_to}

-- `REFRESH_TOKEN_LIFETIME`, seven days in seconds
abbrev pub refresh_token_lifetime : ℕ
refresh_token_lifetime = 7 * 24 * 3600

-- The pair of tokens that a client is handed.
pub record Tokens : Type 0 where
  pub access : Text
  pub refresh : Text

-- Who signs in, and from where. `device` may be empty.
pub record Client : Type 0 where
  pub ip_address : Option Text
  pub user_agent : Text
  pub device : Text

abbrev pub revoked : LoginSession → LoginSession
revoked s = record s { is_revoked = true }

-- `filter(user=user, is_revoked=False)`
abbrev pub is_open_of : ℕ → LoginSession → Bool
is_open_of user s = s.user == user && not s.is_revoked

-- A session of a user of that tenant.
abbrev pub is_of_tenant : ℕ → List User → LoginSession → Bool
is_of_tenant tenant users s = exists (λ u. u.id == s.user && belongs_to tenant u) users

module _ {env : Env} where
  -- The row of a session opened now.
  abbrev pub new_session : User → Text → Client → Text → World env → LoginSession
  new_session u refresh client ip w = record {
    id = w.next_id;
    user = u.id;
    refresh_token_hash = env.sha256 refresh;
    device_fingerprint = client.device;
    ip_address = ip;
    user_agent = client.user_agent;
    is_revoked = false;
    created_at = w.now;
    expires_at = w.now + refresh_token_lifetime;
  }

  -- `LoginSession.objects.create(…)`; the address may not be missing, and has to be an IP.
  unfoldable pub insert_session : User → Text → Client → Option Text → Exec (World env) Unit
  insert_session u refresh client none w =
      raise (integrity_error (text "authentication_loginsession")) w
  insert_session u refresh client (some []) w =
      raise (integrity_error (text "authentication_loginsession")) w
  insert_session u refresh client (some (c ∷ cs)) w =
      if ltb 128 (length client.device) || not (env.is_inet (c ∷ cs))
      then raise (data_error (text "authentication_loginsession")) w
      else (
        ok tt,
        record w {
          sessions = w.sessions ++ new_session u refresh client (c ∷ cs) w ∷ [];
          next_id = w.next_id + 1;
        },
      )

  unfoldable pub create_session : User → Text → Client → Exec (World env) Unit
  unfolding insert_session
  create_session u refresh client = insert_session u refresh client client.ip_address

  -- `RefreshToken.for_user(user)` with its claims, as `str`
  unfoldable pub refresh_token_for : User → Exec (World env) Text
  refresh_token_for u w =
      (env.jwt_for_user u.id u.tenant u.role w.now w.draws, record w { draws = w.draws + 1 })

  -- `issue_session`
  unfoldable pub issue_session : User → Client → Exec (World env) Tokens
  unfolding create_session refresh_token_for ◌>>=◌
  issue_session u client = do
    refresh ← refresh_token_for u
    create_session u refresh client
    pure (record { access = env.jwt_access refresh; refresh = refresh })

  -- `session.revoke()`
  unfoldable pub revoke : LoginSession → Exec (World env) Unit
  revoke session =
      modify λ w. record w { sessions = rewrite (λ r. r.id == session.id) revoked w.sessions }

  -- `revoke_all_sessions(user)`
  unfoldable pub revoke_all_sessions : ℕ → Exec (World env) Unit
  revoke_all_sessions user =
      modify λ w. record w { sessions = rewrite (is_open_of user) revoked w.sessions }

  -- `purge_expired_sessions`
  unfoldable pub purge_expired_sessions : Exec (World env) Unit
  purge_expired_sessions =
      modify λ w. record w { sessions = keep (λ r. not (ltb r.expires_at w.now)) w.sessions }

  -- `revoke_tenant_sessions(tenant_id)`
  unfoldable pub revoke_tenant_sessions : ℕ → Exec (World env) Unit
  revoke_tenant_sessions tenant = modify λ w. record w {
    sessions = rewrite (λ r. is_of_tenant tenant w.users r && not r.is_revoked) revoked w.sessions;
  }
