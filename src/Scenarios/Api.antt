-- ===== src/Scenarios/Api.antt =====
-- Requests to the REST interface at concrete accounts and tenants.
use mifos_test.Prelude.{
  ◌≡◌, refl, true, false, none, some, [], ◌∷◌, text, map, arith, same_text, same_text_refl, lower,
  ◌++◌,
}
use mifos_test.Exec.{ok, err}
use mifos_test.Exec.Post.{Post}
use mifos_test.Models.{User, Role, Tenant, Domain, ApiKey}
use mifos_test.World.{World}
use mifos_test.Http.{Framework, json_error, view_response}
use mifos_test.Tenants.{resolve, suspend, domain_key}
use mifos_test.Tenants.Enforcement.{Withholds}
use mifos_test.Authentication.{
  super_admin_only, revoke_tenant_sessions, authenticate, rotate_refresh_token, enroll_mfa,
  token_invalid,
}
use mifos_test.Authentication.Guesses.{attempts}
use mifos_test.Authentication.Reuse.{ended}
use mifos_test.Authentication.Enrollment.{FernetLaws, Enrolled, enroll_mfa-Enrolled}
use mifos_test.Domains.{add_custom_domain, verify_custom_domain}
use mifos_test.Domains.Adding.{Outcome, add_custom_domain-Outcome}
use mifos_test.Api.{suspend_view, login_view, destroy_key, create_key, keys_of, LoginData}
use mifos_test.Api.Suspending.{suspend_view-Withholds, suspended_tenant-sign_out, cut_off}
use mifos_test.Api.Signing.{locked_login}
use mifos_test.Api.Keys.{destroy_key-keys_of, HashLaws, Created, create_key-Created}
use mifos_test.Scenarios.Toy.{toy, imara, blank_user}
use mifos_test.Scenarios.Resolve.{online, members, ready_imara}
use mifos_test.Scenarios.SignIn.{ann, branch, phone, wrong, ann_session}

abbrev pub drf : Framework
drf = record {
  denied = view_response 403;
  missing = view_response 404;
  invalid = view_response 400;
  throttled = λ _. none;
}

abbrev pub root : User
root = record blank_user { role = Role.super_admin }

-- The head of the tenant.
abbrev head : User
head = record ann { role = Role.ceo }

-- A custom domain is added and, once its name resolves, verified.
domain_verified :
    map
      (λ (d : Domain). d.ssl_verified)
      (verify_custom_domain 50
        (add_custom_domain drf.denied
          (some head)
          (some ready_imara)
          (some (text "pesa.example"))
          online).1).1.domains
    ≡ false ∷ true ∷ []
unfolding add_custom_domain verify_custom_domain same_text
domain_verified = refl

domain_taken :
    (add_custom_domain drf.denied
      (some head)
      (some ready_imara)
      (some (text "imara.bank.example"))
      online).1.domains
    ≡ online.domains
unfolding add_custom_domain same_text
domain_taken = refl

add_custom_domain-Outcome_example :
    Outcome drf.denied (some head) (some ready_imara) (some (text "pesa.example")) online (
      add_custom_domain drf.denied
        (some head)
        (some ready_imara)
        (some (text "pesa.example"))
        online)
add_custom_domain-Outcome_example =
    add_custom_domain-Outcome drf.denied (some head) (some ready_imara) (some (text "pesa.example"))
      online

suspend_view-Withholds_example :
    let (answer, after) = suspend_view drf root 1 (some (text "fraud")) online in
    (answer ≡ ok (view_response 200))
    × Post
        (resolve members (record after {
          now = 1100;
          cache = (domain_key (text "imara.bank.example"), 1, 1200) ∷ [];
        }))
        (λ v _. Withholds 1 v)
        (λ _ _. Unit)
unfolding super_admin_only
suspend_view-Withholds_example =
    suspend_view-Withholds drf root 1 (text "fraud") ready_imara online members 1100
      ((domain_key (text "imara.bank.example"), 1, 1200) ∷ []) refl refl

-- A user of the tenant with an open session.
abbrev at_work : World (toy true)
at_work = record online { users = ann ∷ []; sessions = ann_session ∷ [] }

suspended_tenant-sign_out_example :
    let after = cut_off ready_imara (text "fraud") none at_work in
    rotate_refresh_token (text "raw") phone after ≡ (err token_invalid, ended ann phone after)
unfolding same_text revoke_tenant_sessions suspend
suspended_tenant-sign_out_example =
    suspended_tenant-sign_out ready_imara (text "fraud") none at_work (text "raw")
      (record ann_session { is_revoked = true }) ann phone refl refl refl

toy_fernet_laws : FernetLaws (toy true)
toy_fernet_laws = record {
  decrypts = λ key raw token iv e. ground (arith, e);
  nonempty = λ key raw iv e. cc e;
}

enroll_mfa-Enrolled_example :
    Post
      (enroll_mfa ann branch)
      (λ uri w'. Enrolled toy_fernet_laws ann ann uri w')
      (λ _ w'. w'.users ≡ branch.users)
enroll_mfa-Enrolled_example = enroll_mfa-Enrolled toy_fernet_laws ann ann branch refl

abbrev ann_form : LoginData
ann_form = record { email = text "ann@bank.example"; password = text "pw"; mfa_code = none }

locked_login_example :
    let email = text "ann@bank.example" in
    let four = record (attempts (some 1) email (wrong ∷ wrong ∷ wrong ∷ wrong ∷ []) branch) {
      now = 1000;
    } in
    let five = (authenticate (some 1) email (text "no") phone none four).1 in
    let later = record five { now = 2700 } in
    login_view drf (some imara) (some ann_form) phone later ≡ (
      ok (
          json_error 401
            (text "ACCOUNT_LOCKED")
            (text "Account temporarily locked. Try again later.")),
      later,
    )
unfolding same_text lower
locked_login_example =
    locked_login drf (some imara) ann_form phone branch ann (wrong ∷ wrong ∷ wrong ∷ wrong ∷ [])
      wrong 2700 refl refl refl (refl, (refl, (refl, (refl, tt)))) refl refl (omega arith)

abbrev key_of_imara : ApiKey
key_of_imara = record {
  id = 90;
  tenant = 1;
  name = text "POS";
  key_prefix = text "bnk_live_abc";
  key_hash = text "#";
  scopes = [];
  is_active = true;
  last_used_at = none;
  expires_at = none;
  created_by = some 41;
}

abbrev upendo : Tenant
upendo = record imara { id = 2; tenant_code = text "upendo" }

abbrev with_keys : World (toy true)
with_keys = record online { api_keys = key_of_imara ∷ (record key_of_imara { id = 91 }) ∷ [] }

key_deactivated :
    map (λ (k : ApiKey). k.is_active) (destroy_key drf (some imara) 91 with_keys).1.api_keys
    ≡ true ∷ false ∷ []
unfolding destroy_key
key_deactivated = refl

destroy_key-keys_of_example :
    keys_of (some imara) (destroy_key drf (some upendo) 91 with_keys).1
    ≡ keys_of (some imara) with_keys
destroy_key-keys_of_example =
    destroy_key-keys_of drf (some upendo) 91 with_keys imara (λ e. cc e)
      (((λ e. absurd (omega (arith, e))), tt), (tt, tt))

toy_hash_laws : HashLaws (toy true)
toy_hash_laws = record { matches = λ salt raw. same_text_refl (text "#" ++ raw) }

create_key-Created_example :
    Post
      (create_key (some imara) ann (text "POS") [] with_keys)
      (λ k w'. Created imara ann with_keys k w')
      (λ _ w'. w'.api_keys ≡ with_keys.api_keys)
create_key-Created_example = create_key-Created toy_hash_laws imara ann (text "POS") [] with_keys
