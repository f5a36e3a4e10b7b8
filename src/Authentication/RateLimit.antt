-- ===== src/Authentication/RateLimit.antt =====
-- backend/authentication/middleware.py, class RateLimitMiddleware
use mifos_test.Prelude.{
  ℕ, ◌+◌, Bool, Option, none, some, Text, text, ◌++◌, leb, if◌then◌else◌, same_text,
}
use mifos_test.Exec.{Exec, pure, ◌>>=◌, ◌>>◌}
use mifos_test.Env.{Env, Settings}
use mifos_test.World.{World, cache_get, cache_set}
use mifos_test.Http.{Request, Response, json_error, get_client_ip}

-- Whether the path is one of LOGIN_PATHS.
abbrev pub is_login : Request → Bool
is_login req = same_text req.path (text "/api/v1/auth/login/")

unfoldable pub limit_of : Settings → Request → ℕ
unfolding same_text
limit_of settings req =
    if is_login req then settings.login_rate_limit_per_minute else settings.rate_limit_per_minute

-- A missing address is printed as `None`.
abbrev pub ip_text : Option Text → Text
ip_text none = text "None"
ip_text (some ip) = ip

abbrev pub tenant_text : Env → Request → Text
tenant_text env req = elim req.tenant [ none ↦ text "anon" | some t ↦ env.id_text t.id ]

unfoldable pub limit_key : Env → Request → Text
unfolding same_text get_client_ip
limit_key env req =
    text "rl:"
    ++ (if is_login req then text "login" else text "req")
    ++ text ":"
    ++ tenant_text env req
    ++ text ":"
    ++ ip_text (get_client_ip req)

abbrev pub too_many_requests : Response
too_many_requests =
    json_error 429 (text "RATE_LIMITED") (text "Too many requests. Please slow down.")

-- `cache.get(cache_key, 0)`
abbrev pub count_of : Option ℕ → ℕ
count_of none = 0
count_of (some n) = n

module _ {env : Env} where
  -- The answer for the count that was read; `none` when the request goes on.
  unfoldable pub admit_request : Text → ℕ → ℕ → Exec (World env) (Option Response)
  unfolding cache_set ◌>>=◌
  admit_request key limit count =
      if leb limit count
      then pure (some too_many_requests)
      else (cache_set key (count + 1) 60 >> pure none)

  -- `__call__`, up to the call of `get_response`
  unfoldable pub rate_limit : Request → Exec (World env) (Option Response)
  unfolding limit_key limit_of cache_get admit_request ◌>>=◌
  rate_limit req = cache_get (limit_key env req) >>= λ c.
      admit_request (limit_key env req) (limit_of env.settings req) (count_of c)
