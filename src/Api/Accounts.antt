-- ===== src/Api/Accounts.antt =====
-- backend/authentication/views.py: sign-in, refresh, sign-out and second factors
use mifos_test.Prelude.{ℕ, true, Option, none, some, List, Text, text, ◌==◌, keep, if◌then◌else◌}
use mifos_test.Json.{bool, str, end, field, obj}
use mifos_test.Exec.{Exec, Exn, authentication_error, pure, raise, catch, ◌>>=◌, ◌>>◌}
use mifos_test.Models.{User, Tenant, LoginSession}
use mifos_test.Env.{Env}
use mifos_test.World.{World}
use mifos_test.Http.{
  Framework, Response, json_error, json_reply, view_response, given, unless_throttled,
}
use mifos_test.Authentication.{
  Tokens, Client, authenticate, rotate_refresh_token, revoke_all_sessions, enroll_mfa,
  confirm_mfa_enrollment,
}

-- `LoginSerializer.validated_data`
pub record LoginData : Type 0 where
  pub email : Text
  pub password : Text
  pub mfa_code : Option Text

abbrev pub tokens_reply : Tokens → Response
tokens_reply tokens = json_reply 200 (
    obj
      (field (text "access") (str tokens.access) (field (text "refresh") (str tokens.refresh) end)))

-- `getattr(request, "tenant", None)`, by its id
abbrev pub id_of : Option Tenant → Option ℕ
id_of none = none
id_of (some t) = some t.id

module _ {env : Env} where
  -- `except AuthenticationError as exc: …`; any other exception is raised.
  abbrev pub unauthorized : Exn → Exec (World env) Response
  unauthorized (authentication_error code message) = pure (json_error 401 code message)
  unauthorized e = raise e

  -- `LoginView.post`, for what the serializer made of the data, under `throttle_scope = "login"`
  unfoldable pub login_view :
      Framework → Option Tenant → Option LoginData → Client → Exec (World env) Response
  unfolding authenticate catch ◌>>=◌
  login_view drf tenant form client = unless_throttled (drf.throttled (text "login")) (
      given form drf.invalid λ f.
        catch
          (authenticate (id_of tenant) f.email f.password client f.mfa_code >>= λ tokens.
            pure (tokens_reply tokens))
          unauthorized)

  -- `RefreshView.post`
  unfoldable pub refresh_view : Framework → Option Text → Client → Exec (World env) Response
  unfolding rotate_refresh_token catch ◌>>=◌
  refresh_view drf form client = given form drf.invalid λ refresh.
      catch (rotate_refresh_token refresh client >>= λ tokens. pure (tokens_reply tokens))
        unauthorized

  -- `LogoutAllView.post`, for a request that is signed in, as are those below
  unfoldable pub logout_all_view : User → Exec (World env) Response
  unfolding revoke_all_sessions ◌>>=◌
  logout_all_view u = revoke_all_sessions u.id >> pure (view_response 204)

  -- `MFAEnrollView.post`
  unfoldable pub mfa_enroll_view : User → Exec (World env) Response
  unfolding enroll_mfa ◌>>=◌
  mfa_enroll_view u = enroll_mfa u >>= λ uri.
      pure (json_reply 200 (obj (field (text "provisioning_uri") (str uri) end)))

  -- `MFAConfirmView.post`
  unfoldable pub mfa_confirm_view : User → Text → Exec (World env) Response
  unfolding confirm_mfa_enrollment ◌>>=◌
  mfa_confirm_view u code = confirm_mfa_enrollment u code >>= λ confirmed. pure (
      if confirmed
      then json_reply 200 (obj (field (text "mfa_enabled") (bool true) end))
      else json_error 400 (text "MFA_INVALID_CODE") (text "Invalid code."))

  -- `LoginSessionViewSet.get_queryset`, in the order of the rows
  unfoldable pub sessions_of : User → World env → List LoginSession
  sessions_of u w = keep (λ s. s.user == u.id) w.sessions
