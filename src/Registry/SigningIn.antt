-- ===== src/Registry/SigningIn.antt =====
-- Sign-in, the rotation of tokens and second factors keep the registry sound.
use mifos_test.Prelude.{
  ℕ, Bool, true, false, Option, none, some, List, [], ◌∷◌, Text, Bool-cases, inl, inr, keep,
  if◌then◌else◌,
}
use mifos_test.Exec.{Exn, raise, or_raise}
use mifos_test.Exec.Keeps.{Keeps, Keeps-bind, keeps_rules}
use mifos_test.Models.{User, LoginSession}
use mifos_test.Env.{Env}
use mifos_test.World.{World}
use mifos_test.Authentication.{
  Client, is_locked, get_user, is_account, the_user, refuse_login, admit, check_code, second_factor,
  verify_mfa, verify_secret, authenticate_user, authenticate, blacklist, revoke,
  revoke_all_sessions, report_reuse, rotate_session, rotate_found, rotate_refresh_token,
  mfa_required,
}
use mifos_test.Registry.Tables.{Holds, log-Holds, decrypt_secret-Holds}
use mifos_test.Registry.Requests.{failed_login-Holds, successful_login-Holds, issue_session-Holds}

module _ {env : Env} {least : ℕ} where
  get_user-Holds :
      (tenant : Option ℕ) (email : Text) → Keeps (Holds {env = env} least) (get_user tenant email)
  unfolding get_user
  get_user-Holds tenant email = record {
    kept = λ w h. of_rows w h (keep (is_account tenant email) w.users);
  }
    where
      of_rows : (w : World env) → Holds least w → (us : List User) → Holds least (the_user us w).1
      of_rows w h [] = h
      of_rows w h (u ∷ []) = h
      of_rows w h (u ∷ v ∷ us) = h

  refuse_login-Holds :
      (tenant : Option ℕ) (u : User) (client : Client)
      → Keeps (Holds {env = env} least) (refuse_login tenant u client)
  unfolding refuse_login
  refuse_login-Holds tenant u client = search (keeps_rules, failed_login-Holds, log-Holds) depth 8

  admit-Holds :
      (tenant : Option ℕ) (u : User) (client : Client)
      → Keeps (Holds {env = env} least) (admit tenant u client)
  unfolding admit
  admit-Holds tenant u client =
      search (keeps_rules, successful_login-Holds, log-Holds, issue_session-Holds) depth 8

  verify_secret-Holds :
      (secret : Option Text) (code : Text)
      → Keeps (Holds {env = env} least) (verify_secret secret code)
  unfolding verify_secret
  verify_secret-Holds none code = record { kept = λ w h. h }
  verify_secret-Holds (some []) code = record { kept = λ w h. h }
  verify_secret-Holds (some (c ∷ cs)) code = search (keeps_rules, decrypt_secret-Holds) depth 8

  pub verify_mfa-Holds :
      (u : User) (code : Text) → Keeps (Holds {env = env} least) (verify_mfa u code)
  unfolding verify_mfa
  verify_mfa-Holds u code = verify_secret-Holds u.mfa_secret_encrypted code

  check_code-Holds :
      (u : User) (code : Option Text) → Keeps (Holds {env = env} least) (check_code u code)
  unfolding check_code
  check_code-Holds u none = record { kept = λ w h. h }
  check_code-Holds u (some []) = record { kept = λ w h. h }
  check_code-Holds u (some (c ∷ cs)) = verify_mfa-Holds u (c ∷ cs)

  second_factor-Holds :
      (u : User) (code : Option Text) → Keeps (Holds {env = env} least) (second_factor u code)
  unfolding second_factor
  second_factor-Holds u code = elim (Bool-cases u.mfa_enabled) [
    | inl on ↦ rw on (check_code-Holds u code)
    | inr off ↦ rw off (record { kept = λ w h. h })
  ]

  passed-Holds :
      (tenant : Option ℕ) (u : User) (client : Client) (passed : Bool)
      → Keeps
          (Holds {env = env} least)
          (if passed then admit tenant u client else raise mfa_required)
  passed-Holds tenant u client true = admit-Holds tenant u client
  passed-Holds tenant u client false = record { kept = λ w h. h }

  authenticate_user-Holds :
      (tenant : Option ℕ) (u : User) (password : Text) (client : Client) (code : Option Text)
      → Keeps (Holds {env = env} least) (authenticate_user tenant u password client code)
  unfolding authenticate_user
  authenticate_user-Holds tenant u password client code = record {
    kept = λ w h. elim (Bool-cases (is_locked u w.now)) [
      | inl locked ↦ rw locked h
      | inr open_ ↦ rw open_ (elim (Bool-cases (env.check_password password u.password)) [
        | inr wrong ↦ rw wrong ((refuse_login-Holds tenant u client).kept w h)
        | inl right ↦ rw right (
            (Keeps-bind (second_factor u code) _ (second_factor-Holds u code)
                (passed-Holds tenant u client)).kept
              w h)
      ])
    ];
  }

  pub authenticate-Holds :
      (tenant : Option ℕ) (email password : Text) (client : Client) (code : Option Text)
      → Keeps (Holds {env = env} least) (authenticate tenant email password client code)
  unfolding authenticate
  authenticate-Holds tenant email password client code =
      search (keeps_rules, get_user-Holds, authenticate_user-Holds) depth 8

  blacklist-Holds : (raw : Text) → Keeps (Holds {env = env} least) (blacklist raw)
  unfolding blacklist
  blacklist-Holds raw = record { kept = λ w h. h }

  revoke-Holds : (s : LoginSession) → Keeps (Holds {env = env} least) (revoke s)
  unfolding revoke
  revoke-Holds s = record { kept = λ w h. h }

  pub revoke_all_sessions-Holds :
      (user : ℕ) → Keeps (Holds {env = env} least) (revoke_all_sessions user)
  unfolding revoke_all_sessions
  revoke_all_sessions-Holds user = record { kept = λ w h. h }

  value-Holds :
      {A : Type 0} (o : Option A) (e : Exn) (w : World env)
      → Holds least w
      → Holds least (or_raise o e w).1
  value-Holds none e w h = h
  value-Holds (some a) e w h = h

  pub or_raise-Holds :
      {A : Type 0} (read : World env → Option A) (e : Exn)
      → Keeps (Holds {env = env} least) (λ w. or_raise (read w) e w)
  or_raise-Holds read e = record { kept = λ w h. value-Holds (read w) e w h }

  report_reuse-Holds :
      (s : LoginSession) (client : Client) → Keeps (Holds {env = env} least) (report_reuse s client)
  unfolding report_reuse
  report_reuse-Holds s client =
      search (keeps_rules, or_raise-Holds, revoke_all_sessions-Holds, log-Holds) depth 10

  rotate_session-Holds :
      (raw : Text) (s : LoginSession) (client : Client)
      → Keeps (Holds {env = env} least) (rotate_session raw s client)
  unfolding rotate_session
  rotate_session-Holds raw s client =
      search (keeps_rules, or_raise-Holds, blacklist-Holds, revoke-Holds, issue_session-Holds) depth
        10

  rotate_found-Holds :
      (raw : Text) (found : Option LoginSession) (client : Client)
      → Keeps (Holds {env = env} least) (rotate_found raw found client)
  unfolding rotate_found
  rotate_found-Holds raw none client = record { kept = λ w h. h }
  rotate_found-Holds raw (some s) client = elim (Bool-cases s.is_revoked) [
    | inl used ↦ rw used (report_reuse-Holds s client)
    | inr fresh ↦ rw fresh (rotate_session-Holds raw s client)
  ]

  pub rotate_refresh_token-Holds :
      (raw : Text) (client : Client)
      → Keeps (Holds {env = env} least) (rotate_refresh_token raw client)
  unfolding rotate_refresh_token
  rotate_refresh_token-Holds raw client = search (keeps_rules, rotate_found-Holds) depth 8
