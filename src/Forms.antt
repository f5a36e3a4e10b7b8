-- ===== src/Forms.antt =====
-- backend/portal/forms.py, backend/dashboard/forms.py: who may sign in on the pages; and
-- backend/tenant_manager/exceptions.py.
use mifos_test.Prelude.{ℕ, Option, none, some, Text, text, if◌then◌else◌}
use mifos_test.Json.{Json, str, obj, field, end}
use mifos_test.Models.{User, Tenant}
use mifos_test.Authentication.{belongs_to}
use mifos_test.Organizations.{may_use_dashboard}

-- A sign-in that goes on, or is refused with the code of its ValidationError.
pub data Confirmed : Type 0 where
  confirmed : Confirmed
  rejected : Text → Confirmed

-- `super().confirm_login_allowed(user)` raises, or the next test follows.
abbrev next : Confirmed → Confirmed → Confirmed
next confirmed test = test
next (rejected code) test = rejected code

-- `TenantLoginForm.confirm_login_allowed`, where `allowed` is the framework's
unfoldable pub confirm_tenant_login : (User → Confirmed) → Option Tenant → User → Confirmed
confirm_tenant_login allowed tenant u = next (allowed u) (elim tenant [
  | none ↦ rejected (text "wrong_tenant")
  | some t ↦ if belongs_to t.id u then confirmed else rejected (text "wrong_tenant")
])

-- `StaffLoginForm.confirm_login_allowed`
unfoldable pub confirm_staff_login : (User → Confirmed) → User → Confirmed
unfolding may_use_dashboard
confirm_staff_login allowed u =
    next (allowed u) (if may_use_dashboard u then confirmed else rejected (text "not_staff"))

-- An exception as `api_exception_handler` sees it: `default_code` or the name of its class, and
-- `detail` where it has one, with the framework's answer where there is one.
pub record ApiException : Type 0 where
  pub code : Text
  pub detail : Option Text

-- `str(getattr(exc, "detail", response.data))`
abbrev message_of : Option Text → Text → Text
message_of none body = body
message_of (some detail) body = detail

-- `api_exception_handler`, on the data of the framework's answer, with its text
unfoldable pub api_exception_handler :
    (Json → Text) → ApiException → Option (ℕ × Json) → Option (ℕ × Json)
api_exception_handler as_text exc none = none
api_exception_handler as_text exc (some (status, body)) = some (
  status,
  obj (
      field (text "error")
        (obj (
          field (text "code") (str exc.code) (
            field (text "message") (str (message_of exc.detail (as_text body)))
              (field (text "detail") body end))))
        end),
)
