-- ===== src/Middleware.antt =====
-- The middleware that a request passes, in the order of MIDDLEWARE in
-- backend/tenant_manager/settings/base.py, and backend/tenant_manager/security_headers.py. The
-- framework's own middleware is left out.
pub mod Order
pub mod Headers
use mifos_test.Prelude.{
  Bool, Option, none, some, List, [], ◌∷◌, ◌++◌, Text, text, same_text, exists, lower,
  if◌then◌else◌,
}
use mifos_test.Exec.{Exec, pure, ◌>>=◌}
use mifos_test.Models.{User, Tenant}
use mifos_test.Env.{Env}
use mifos_test.World.{World}
use mifos_test.Http.{Request, Response}
use mifos_test.Tenants.{resolver}
use mifos_test.Authentication.{rate_limit}
use mifos_test.Audit.{audit_requests}

-- `request.tenant = tenant`
abbrev pub attach : Option Tenant → Request → Request
attach t req = record req { tenant = t }

module _ {env : Env} where
  abbrev pub answer_or : Exec (World env) Response → Option Response → Exec (World env) Response
  answer_or get_response none = get_response
  answer_or get_response (some blocked) = pure blocked

  -- `RateLimitMiddleware.__call__`
  unfoldable pub rate_limiter :
      (Request → Exec (World env) Response) → Request → Exec (World env) Response
  unfolding rate_limit ◌>>=◌
  rate_limiter get_response req = rate_limit req >>= answer_or (get_response req)

  -- MIDDLEWARE: the resolver, the rate limit, the audit log, and then the view
  unfoldable pub serve :
      (Request → Exec (World env) Response)
      → Text
      → Option User
      → Request
      → Exec (World env) Response
  unfolding resolver rate_limiter audit_requests
  serve view method user req =
      resolver
        (λ t. rate_limiter (λ seen. audit_requests (view seen) method user seen) (attach t req)) req

-- The headers of an answer, by name
abbrev pub Headers : Type 0
Headers = List (Text × Text)

-- `name in response`: the case of a name does not count.
abbrev pub has_header : Text → Headers → Bool
has_header name headers = exists (λ h. same_text (lower h.0) (lower name)) headers

-- `response.setdefault(name, value)`
unfoldable pub set_default : Text → Text → Headers → Headers
unfolding same_text lower
set_default name value headers =
    if has_header name headers then headers else headers ++ (name, value) ∷ []

abbrev pub content_security_policy : Text
content_security_policy =
    text "default-src 'self'; style-src 'self' 'unsafe-inline'; script-src 'self' 'unsafe-inline'; "
    ++ text "img-src 'self' data:; font-src 'self'; connect-src 'self'; frame-ancestors 'none'; "
    ++ text "base-uri 'self'; form-action 'self';"

abbrev pub hardening : Headers
hardening =
    (text "X-Content-Type-Options", text "nosniff")
    ∷ (text "X-Frame-Options", text "DENY")
    ∷ (text "Content-Security-Policy", content_security_policy)
    ∷ (text "Referrer-Policy", text "strict-origin-when-cross-origin")
    ∷ (text "Permissions-Policy", text "geolocation=(), microphone=(), camera=()")
    ∷ []

abbrev pub set_defaults : Headers → Headers → Headers
set_defaults [] headers = headers
set_defaults ((name, value) ∷ rest) headers = set_defaults rest (set_default name value headers)

-- `SecurityHeadersMiddleware.__call__`, on the headers of the answer
unfoldable pub secured : Headers → Headers
unfolding set_default
secured headers = set_defaults hardening headers
