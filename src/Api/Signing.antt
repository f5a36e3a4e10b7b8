-- ===== src/Api/Signing.antt =====
-- The sign-in view against the service behind it.
use mifos_test.Prelude.{ℕ, ◌+◌, ◌<◌, Option, none, some, List, ◌≡◌, refl, Text, text, All, length}
use mifos_test.Exec.{
  Result, ok, err, value_error, runtime_error, integrity_error, data_error, does_not_exist,
  fineract_timeout, fineract_api_error, python_error, authentication_error, token_error, external,
  gaierror, catch, continue, handle_result, pure, ◌>>=◌,
}
use mifos_test.Models.{User, Tenant}
use mifos_test.Env.{Env}
use mifos_test.World.{World}
use mifos_test.Http.{Framework, Response, json_error}
use mifos_test.Authentication.{account_locked, Tokens, Client, authenticate, rotate_refresh_token}
use mifos_test.Authentication.Guesses.{Guess, IsWrong, attempts, five_guesses-Lock}
use mifos_test.Authentication.Attempt.{IsAccount}
use mifos_test.Api.Accounts.{LoginData, tokens_reply, id_of, unauthorized, login_view, refresh_view}

-- The answer to what the service returned or raised: 401 with code and message to an exception of
-- the service's own, while any other goes on to the framework.
abbrev pub answer_to : Result Tokens → Result Response
answer_to (ok tokens) = ok (tokens_reply tokens)
answer_to (err (authentication_error code message)) = ok (json_error 401 code message)
answer_to (err e) = err e

-- The throttle's own answer, or that the account is locked.
abbrev pub locked_reply : Option Response → Response
locked_reply (some r) = r
locked_reply none =
    json_error 401 (text "ACCOUNT_LOCKED") (text "Account temporarily locked. Try again later.")

module _ {env : Env} where
  answered :
      (r : Result Tokens) (w : World env)
      → let (s, v) = continue r (λ tokens. pure (tokens_reply tokens)) w in
        handle_result s unauthorized v ≡ (answer_to r, w)
  answered (ok tokens) w = refl
  answered (err (value_error m)) w = refl
  answered (err (runtime_error m)) w = refl
  answered (err (integrity_error m)) w = refl
  answered (err (data_error m)) w = refl
  answered (err does_not_exist) w = refl
  answered (err (fineract_timeout m)) w = refl
  answered (err (fineract_api_error n j)) w = refl
  answered (err (python_error m)) w = refl
  answered (err (authentication_error c m)) w = refl
  answered (err (token_error m)) w = refl
  answered (err gaierror) w = refl
  answered (err (external m)) w = refl

  login_view-answer :
      (drf : Framework) (tenant : Option Tenant) (f : LoginData) (client : Client) (w : World env)
      → drf.throttled (text "login") ≡ none
      → let (r, w') = authenticate (id_of tenant) f.email f.password client f.mfa_code w in
        login_view drf tenant (some f) client w ≡ (answer_to r, w')
  unfolding login_view catch ◌>>=◌
  login_view-answer drf tenant f client w let_in =
      let (r, w') = authenticate (id_of tenant) f.email f.password client f.mfa_code w in
      rw let_in (answered r w')

  -- A locked account at the sign-in view, by what the throttle answers.
  locked_answer :
      (drf : Framework) (tenant : Option Tenant) (f : LoginData) (client : Client) (w : World env)
      (o : Option Response)
      → drf.throttled (text "login") ≡ o
      → authenticate (id_of tenant) f.email f.password client f.mfa_code w ≡ (err account_locked, w)
      → login_view drf tenant (some f) client w ≡ (ok (locked_reply o), w)
  locked_answer drf tenant f client w none let_in locked =
      rw (login_view-answer drf tenant f client w let_in) (rw locked refl)
  locked_answer drf tenant f client w (some r) held locked = unfold login_view in rw held refl

  refresh_view-answer :
      (drf : Framework) (raw : Text) (client : Client) (w : World env)
      → let (r, w') = rotate_refresh_token raw client w in
        refresh_view drf (some raw) client w ≡ (answer_to r, w')
  unfolding refresh_view catch ◌>>=◌
  refresh_view-answer drf raw client w =
      let (r, w') = rotate_refresh_token raw client w in answered r w'

-- The views of sign-in and of refresh do what the service does and leave its world: they answer 200
-- with the tokens that it returns and 401 with code and message where it refuses, and they raise
-- any other exception as it came. Data that the serializer refuses is answered without it. The
-- throttle lets the sign-in through.
pub views-answer :
    {env : Env} (drf : Framework) (tenant : Option Tenant) (f : LoginData) (raw : Text)
    (client : Client) (w : World env)
    → drf.throttled (text "login") ≡ none
    → let (r, w') = authenticate (id_of tenant) f.email f.password client f.mfa_code w in
      let (s, w'') = rotate_refresh_token raw client w in
      (login_view drf tenant (some f) client w ≡ (answer_to r, w'))
      × (refresh_view drf (some raw) client w ≡ (answer_to s, w''))
      × (login_view drf tenant none client w ≡ (ok drf.invalid, w))
      × (refresh_view drf none client w ≡ (ok drf.invalid, w))
views-answer drf tenant f raw client w let_in = (
  login_view-answer drf tenant f client w let_in,
  refresh_view-answer drf raw client w,
  unfold login_view in rw let_in refl,
  unfold refresh_view in refl,
)

-- After five wrong passwords in a row for the account that a tenant has under an address, with
-- nothing between them but time and no failures or lock before, any sign-in to it within thirty
-- minutes of the fifth is answered 401 ACCOUNT_LOCKED, whatever it presents, where the framework's
-- throttle of sign-ins lets it through, and by the throttle else; in both cases the view writes
-- nothing.
pub locked_login :
    {env : Env} (drf : Framework) (tenant : Option Tenant) (f : LoginData) (client : Client)
    (w : World env) (u : User) (gs : List Guess) (last : Guess) (now : ℕ)
    → IsAccount (id_of tenant) f.email w u
    → u.failed_login_attempts ≡ 0
    → u.locked_until ≡ none
    → All (IsWrong env u) gs
    → length gs ≡ 4
    → IsWrong env u last
    → now < last.at + 1800
    → let four = record (attempts (id_of tenant) f.email gs w) { now = last.at } in
      let five = (authenticate (id_of tenant) f.email last.password last.client last.code four).1 in
      let later = record five { now = now } in
      login_view drf tenant (some f) client later
      ≡ (ok (locked_reply (drf.throttled (text "login"))), later)
locked_login drf tenant f client w u gs last now h fresh free wrong four bad soon =
    locked_answer drf tenant f client _ _ refl (
      five_guesses-Lock (id_of tenant) f.email w u gs last
        (record { password = f.password; client = client; code = f.mfa_code; at = now }) h fresh
        free wrong four bad soon)
