-- ===== src/Authentication/Service.antt =====
-- backend/authentication/services.py: sign-in and the rotation of refresh tokens.
use mifos_test.Prelude.{
  ℕ, Bool, true, false, not, ◌&&◌, Option, none, some, List, [], ◌∷◌, Text, text, ◌==◌,
  if◌then◌else◌, same_text, find, keep, lower,
}
use mifos_test.Json.{end}
use mifos_test.Exec.{
  Result, ok, err, Exec, Exn, authentication_error, does_not_exist, python_error, token_error, ok,
  err, pure, raise, gets, or_raise, ◌>>=◌, ◌>>◌,
}
use mifos_test.Models.{User, LoginSession}
use mifos_test.Env.{Env}
use mifos_test.World.{World}
use mifos_test.Audit.{Entry, log}
use mifos_test.Authentication.Lockout.{is_locked, register_failed_login, register_successful_login}
use mifos_test.Authentication.Sessions.{Tokens, Client, issue_session, revoke, revoke_all_sessions}
use mifos_test.Authentication.Mfa.{verify_mfa}

abbrev pub invalid_credentials : Exn
invalid_credentials =
    authentication_error (text "INVALID_CREDENTIALS") (text "Invalid email or password.")

abbrev pub account_locked : Exn
account_locked =
    authentication_error (text "ACCOUNT_LOCKED")
      (text "Account temporarily locked. Try again later.")

abbrev pub mfa_required : Exn
mfa_required = authentication_error (text "MFA_REQUIRED") (text "A valid MFA code is required.")

abbrev pub token_invalid : Exn
token_invalid =
    authentication_error (text "TOKEN_INVALID")
      (text "Refresh token is invalid or has been revoked.")

abbrev pub same_tenant : Option ℕ → Option ℕ → Bool
same_tenant none none = true
same_tenant (some a) (some b) = a == b
same_tenant _ _ = false

-- `filter(tenant=tenant, email__iexact=email)`
abbrev pub is_account : Option ℕ → Text → User → Bool
is_account tenant email u = same_tenant u.tenant tenant && same_text (lower u.email) (lower email)

-- `get` of the rows that a filter leaves, with the handler of `authenticate`
abbrev pub the_user : {S : Type 0} → List User → Exec S User
the_user [] = raise invalid_credentials
the_user (u ∷ []) = pure u
the_user (u ∷ v ∷ us) = raise (python_error (text "MultipleObjectsReturned"))

abbrev pub login_entry : Env → Text → Option ℕ → Option ℕ → User → Option Text → Entry
login_entry env action actor tenant u ip = record {
  actor = actor;
  tenant = tenant;
  action = action;
  actor_ip = ip;
  target_type = text "User";
  target_id = env.id_text u.id;
  metadata = end;
}

-- `except TokenError: pass`
abbrev pass_token_error : Result (Unit {0}) → Result (Unit {0})
pass_token_error (err (token_error m)) = ok tt
pass_token_error r = r

module _ {env : Env} where
  unfoldable pub get_user : Option ℕ → Text → Exec (World env) User
  unfolding same_text lower
  get_user tenant email w = the_user (keep (is_account tenant email) w.users) w

  -- A wrong password.
  unfoldable pub refuse_login : Option ℕ → User → Client → Exec (World env) Tokens
  unfolding register_failed_login log ◌>>=◌
  refuse_login tenant u client =
      register_failed_login u
      >> (log (login_entry env (text "LOGIN_FAILED") none tenant u client.ip_address)
          >> raise invalid_credentials)

  -- The right password, and the second factor if it is on.
  unfoldable pub admit : Option ℕ → User → Client → Exec (World env) Tokens
  unfolding register_successful_login log issue_session ◌>>=◌
  admit tenant u client = register_successful_login u client.ip_address >>= λ u.
      log (login_entry env (text "LOGIN_SUCCESS") (some u.id) tenant u client.ip_address)
      >> issue_session u client

  -- A code that is missing or empty is refused.
  unfoldable pub check_code : User → Option Text → Exec (World env) Bool
  unfolding verify_mfa
  check_code u none = pure false
  check_code u (some []) = pure false
  check_code u (some (c ∷ cs)) = verify_mfa u (c ∷ cs)

  -- Whether the second factor lets the user through.
  unfoldable pub second_factor : User → Option Text → Exec (World env) Bool
  unfolding check_code
  second_factor u code = if not u.mfa_enabled then pure true else check_code u code

  -- `authenticate`, for the user that was found
  unfoldable pub authenticate_user :
      Option ℕ → User → Text → Client → Option Text → Exec (World env) Tokens
  unfolding is_locked refuse_login second_factor admit ◌>>=◌
  authenticate_user tenant u password client code w =
      if is_locked u w.now
      then raise account_locked w
      else if not (env.check_password password u.password)
      then refuse_login tenant u client w
      else (second_factor u code >>= λ passed.
            if passed then admit tenant u client else raise mfa_required)
          w

  -- `authenticate`
  unfoldable pub authenticate :
      Option ℕ → Text → Text → Client → Option Text → Exec (World env) Tokens
  unfolding get_user authenticate_user ◌>>=◌
  authenticate tenant email password client code =
      get_user tenant email >>= λ u. authenticate_user tenant u password client code

  -- `RefreshToken(raw).blacklist()`, with its `except`
  unfoldable pub blacklist : Text → Exec (World env) Unit
  blacklist raw w = (pass_token_error (env.jwt_blacklist raw w.now), w)

  -- `session.user`
  abbrev pub user_of : LoginSession → World env → Option User
  user_of session w = find (λ u. u.id == session.user) w.users

  -- A token that was used before: every session of the user is revoked.
  unfoldable pub report_reuse : LoginSession → Client → Exec (World env) Tokens
  unfolding revoke_all_sessions log ◌>>=◌
  report_reuse session client = do
    u ← λ w. or_raise (user_of session w) does_not_exist w
    revoke_all_sessions u.id
    log (
        login_entry env (text "REFRESH_TOKEN_REUSE_DETECTED") (some u.id) u.tenant u
          client.ip_address)
    raise token_invalid

  -- The session of an unused token goes on under a new token, on the device it was opened with.
  unfoldable pub rotate_session : Text → LoginSession → Client → Exec (World env) Tokens
  unfolding blacklist revoke issue_session ◌>>=◌
  rotate_session raw session client = do
    blacklist raw
    revoke session
    u ← λ w. or_raise (user_of session w) does_not_exist w
    issue_session u (record client { device = session.device_fingerprint })

  unfoldable pub rotate_found : Text → Option LoginSession → Client → Exec (World env) Tokens
  unfolding report_reuse rotate_session
  rotate_found raw none client = raise token_invalid
  rotate_found raw (some session) client =
      if session.is_revoked then report_reuse session client else rotate_session raw session client

  -- `LoginSession.objects.filter(refresh_token_hash=…).first()`
  abbrev pub session_of : Text → World env → Option LoginSession
  session_of raw w = find (λ s. same_text s.refresh_token_hash (env.sha256 raw)) w.sessions

  -- `rotate_refresh_token`
  unfoldable pub rotate_refresh_token : Text → Client → Exec (World env) Tokens
  unfolding rotate_found same_text ◌>>=◌
  rotate_refresh_token raw client = gets (session_of raw) >>= λ found. rotate_found raw found client
