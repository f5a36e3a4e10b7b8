-- ===== src/Domains.antt =====
-- backend/domains: views.py and tasks.py
pub mod Permission
pub mod Adding
use mifos_test.Prelude.{ℕ, true, Option, none, some, [], ◌∷◌, Text, text, ◌==◌, find, rewrite}
use mifos_test.Json.{str, end, field, obj}
use mifos_test.Exec.{
  Exec, Result, ok, err, gaierror, does_not_exist, pure, raise, modify, or_raise, catch, ◌>>=◌,
  ◌>>◌,
}
use mifos_test.Models.{User, Tenant, Domain}
use mifos_test.Env.{Env, Task}
use mifos_test.World.{World, delay}
use mifos_test.Http.{Response, json_error, json_reply, permitted, given}
use mifos_test.Tenants
use mifos_test.Authentication.{tenant_ceo_or_admin}

abbrev pub hostname_required : Response
hostname_required = json_error 400 (text "HOSTNAME_REQUIRED") (text "hostname is required.")

abbrev pub addition_failed : Response
addition_failed =
    json_error 500 (text "DOMAIN_ADDITION_FAILED")
      (text "Failed to add domain due to an internal server error.")

abbrev pub verification_pending : Env → Domain → Response
verification_pending env d = json_reply 202 (
    obj (
      field (text "id") (str (env.id_text d.id)) (
        field (text "hostname") (str d.hostname)
          (field (text "status") (str (text "verification_pending")) end))))

-- A `hostname` that is missing or empty.
abbrev pub nonempty : Option Text → Option Text
nonempty none = none
nonempty (some []) = none
nonempty (some (c ∷ s)) = some (c ∷ s)

abbrev pub certified : Domain → Domain
certified d = record d { ssl_verified = true }

module _ {env : Env} where
  -- The `try` of `add_custom_domain`
  unfoldable pub register_domain : Tenant → Text → Exec (World env) Response
  unfolding Tenants.add_custom_domain delay ◌>>=◌
  register_domain t hostname = do
    d ← Tenants.add_custom_domain t hostname
    delay (Task.verify_custom_domain d.id)
    pure (verification_pending env d)

  -- `add_custom_domain`, with its permission class
  unfoldable pub add_custom_domain :
      Response → Option User → Option Tenant → Option Text → Exec (World env) Response
  unfolding tenant_ceo_or_admin register_domain catch
  add_custom_domain denied user tenant hostname =
      permitted (tenant_ceo_or_admin user tenant) denied (
        given (nonempty hostname) hostname_required λ hostname.
          given tenant denied λ t. catch (register_domain t hostname) (λ _. pure addition_failed))

  -- `except socket.gaierror: pass`; any other exception is raised.
  abbrev pub confirm : Domain → Result (Unit {0}) → Exec (World env) Unit
  confirm d (ok u) =
      modify λ w. record w { domains = rewrite (λ r. r.id == d.id) certified w.domains }
  confirm d (err gaierror) = pure tt
  confirm d (err e) = raise e

  -- `verify_custom_domain`
  unfoldable pub verify_custom_domain : ℕ → Exec (World env) Unit
  unfolding ◌>>=◌
  verify_custom_domain id = do
    d ← λ w. or_raise (find (λ d. d.id == id) w.domains) does_not_exist w
    λ w. confirm d (env.gethostbyname d.hostname w.now) w
