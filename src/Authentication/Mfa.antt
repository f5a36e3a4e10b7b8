-- ===== src/Authentication/Mfa.antt =====
-- backend/authentication/services.py: second factors.
use mifos_test.Prelude.{Option, ◌+◌, Bool, true, false, none, some, [], ◌∷◌, Text, if◌then◌else◌}
use mifos_test.Exec.{Exec, ok, pure, gets, modify, ◌>>=◌, ◌>>◌}
use mifos_test.Crypto.{encrypt_secret, decrypt_secret}
use mifos_test.Models.{User}
use mifos_test.Env.{Env}
use mifos_test.World.{World}
use mifos_test.Authentication.Lockout.{update_user}

module _ {env : Env} where
  -- `pyotp.random_base32()`
  unfoldable pub random_base32 : Exec (World env) Text
  random_base32 w = (ok (env.random_base32 w.draws), record w { draws = w.draws + 1 })

  -- `enroll_mfa`
  unfoldable pub enroll_mfa : User → Exec (World env) Text
  unfolding random_base32 encrypt_secret ◌>>=◌
  enroll_mfa u = do
    secret ← random_base32
    encrypted ← encrypt_secret secret
    modify (update_user (λ r. record r { mfa_secret_encrypted = some encrypted }) u)
    pure (env.provisioning_uri secret u.email)

  -- `verify_mfa`, for what the column holds
  unfoldable pub verify_secret : Option Text → Text → Exec (World env) Bool
  unfolding decrypt_secret ◌>>=◌
  verify_secret none code = pure false
  verify_secret (some []) code = pure false
  verify_secret (some (c ∷ cs)) code =
      decrypt_secret (c ∷ cs) >>= λ secret. gets (λ w. env.totp_verify secret code w.now)

  unfoldable pub verify_mfa : User → Text → Exec (World env) Bool
  unfolding verify_secret
  verify_mfa u code = verify_secret u.mfa_secret_encrypted code

  -- `confirm_mfa_enrollment`
  unfoldable pub confirm_mfa_enrollment : User → Text → Exec (World env) Bool
  unfolding verify_mfa ◌>>=◌
  confirm_mfa_enrollment u code = do
    verified ← verify_mfa u code
    if verified
        then (modify (update_user (λ r. record r { mfa_enabled = true }) u) >> pure true)
        else pure false
