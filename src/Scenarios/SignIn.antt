-- ===== src/Scenarios/SignIn.antt =====
-- Sign-in with a wrong and a right password, and the theorems about it there.
use mifos_test.Prelude.{
  ℕ, All, false, ◌≡◌, refl, true, none, some, [], ◌∷◌, ◌++◌, map, text, arith, same_text, lower,
}
use mifos_test.Exec.{data_error, err, ok}
use mifos_test.Exec.Post.{Post}
use mifos_test.Models.{User, LoginSession}
use mifos_test.World.{World}
use mifos_test.Authentication.{
  Client, authenticate, account_locked, invalid_credentials, token_invalid, rotate_refresh_token,
}
use mifos_test.Authentication.SignIn.{Admissible, sign_in_lem}
use mifos_test.Authentication.Admission.{Opened, IsCleared}
use mifos_test.Authentication.Reuse.{reuse_refusal, IsSignedOut, ended, single_use, reuse_lem}
use mifos_test.Authentication.Guesses.{Guess, attempts, five_guesses-Lock}
use mifos_test.Scenarios.Toy.{toy, fresh, blank_user}

abbrev pub ann : User
ann = record blank_user { id = 41; email = text "Ann@bank.example"; tenant = some 1 }

abbrev pub branch : World (toy true)
branch = record (fresh true true) { users = blank_user ∷ ann ∷ [] }

abbrev pub phone : Client
phone = record { ip_address = some (text "10.0.0.1"); user_agent = []; device = [] }

abbrev pub wrong : Guess
wrong = record { password = text "no"; client = phone; code = none; at = 1000 }

abbrev right : Guess
right = record { password = text "pw"; client = phone; code = none; at = 2700 }

-- The address is compared without its case, and the failure is counted in the row.
sign_in_wrong :
    let (r, w) = authenticate (some 1) (text "ann@BANK.example") wrong.password phone none branch in
    (r ≡ err invalid_credentials)
    × (map (λ (u : User). u.failed_login_attempts) w.users ≡ 0 ∷ 1 ∷ [])
unfolding authenticate
sign_in_wrong = (refl, refl)

-- A signed-in user has a session for the refresh token that was handed out.
sign_in_right :
    let (r, w) = authenticate (some 1) (text "ann@bank.example") right.password phone none branch in
    (r ≡ ok (record { access = text "a" ++ (41 ∷ 1000 ∷ 0 ∷ []); refresh = 41 ∷ 1000 ∷ 0 ∷ [] }))
    × (map (λ (s : LoginSession). s.refresh_token_hash) w.sessions
        ≡ (text "h" ++ (41 ∷ 1000 ∷ 0 ∷ [])) ∷ [])
unfolding authenticate
sign_in_right = (refl, refl)

five_guesses-Lock_example :
    let email = text "ann@bank.example" in
    let four = record (attempts (some 1) email (wrong ∷ wrong ∷ wrong ∷ wrong ∷ []) branch) {
      now = 1000;
    } in
    let five = (authenticate (some 1) email (text "no") phone none four).1 in
    let later = record five { now = 2700 } in
    authenticate (some 1) email (text "pw") phone none later ≡ (err account_locked, later)
unfolding same_text lower
five_guesses-Lock_example =
    five_guesses-Lock (some 1) (text "ann@bank.example") branch ann
      (wrong ∷ wrong ∷ wrong ∷ wrong ∷ []) wrong right refl refl refl
      (refl, (refl, (refl, (refl, tt)))) refl refl (omega arith)

sign_in_lem_example :
    Post
      (authenticate (some 1) (text "ann@bank.example") (text "pw") phone none branch)
      (λ tokens w'.
        Admissible ann (text "pw") none branch
        × (Opened (toy true) 41 phone tokens 1000 [] w'.sessions × All (IsCleared 41) w'.users))
      (λ _ w'. w'.sessions ≡ [])
unfolding same_text lower
sign_in_lem_example =
    sign_in_lem (some 1) (text "ann@bank.example") ann (text "pw") phone none branch refl

abbrev pub ann_session : LoginSession
ann_session = record {
  id = 70;
  user = 41;
  refresh_token_hash = text "hraw";
  device_fingerprint = text "laptop";
  ip_address = text "10.0.0.2";
  user_agent = [];
  is_revoked = false;
  created_at = 900;
  expires_at = 2000;
}

abbrev signed_in : World (toy true)
signed_in = record branch { sessions = ann_session ∷ [] }

-- The parameter answers `TokenError`, as for an expired token, and the exchange goes through.
rotate_expired :
    let (r, w) = rotate_refresh_token (text "raw") phone (record signed_in { now = 5000 }) in
    (r ≡ ok (record { access = text "a" ++ (41 ∷ 5000 ∷ 0 ∷ []); refresh = 41 ∷ 5000 ∷ 0 ∷ [] }))
    × (map (λ (s : LoginSession). s.is_revoked) w.sessions ≡ true ∷ false ∷ [])
unfolding rotate_refresh_token
rotate_expired = (refl, refl)

single_use_example :
    Post
      (rotate_refresh_token (text "raw") phone signed_in)
      (λ _ w'.
        (thief : Client) (later : ℕ)
        → let (r, w'') = rotate_refresh_token (text "raw") thief (record w' { now = later }) in
          (r ≡ err (reuse_refusal (toy true) thief)) × IsSignedOut 41 w''.sessions)
      (λ _ _. Unit)
unfolding same_text
single_use_example = single_use (text "raw") ann_session ann phone signed_in refl refl refl

abbrev spent : World (toy true)
spent = record branch { sessions = record ann_session { is_revoked = true } ∷ [] }

reuse_lem_example :
    rotate_refresh_token (text "raw") phone spent ≡ (err token_invalid, ended ann phone spent)
unfolding same_text
reuse_lem_example =
    reuse_lem (text "raw") (record ann_session { is_revoked = true }) ann phone spent refl refl refl

-- A client that forwards an address that is no IP: the reuse ends the sessions and is not logged.
abbrev nowhere : Client
nowhere = record phone { ip_address = some (text "unknown") }

forged_address :
    let (r, w) = rotate_refresh_token (text "raw") nowhere spent in
    (r ≡ err (data_error (text "audit_auditlog"))) × (w.audit_logs ≡ spent.audit_logs)
unfolding rotate_refresh_token
forged_address = (refl, refl)
