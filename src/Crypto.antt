-- ===== src/Crypto.antt =====
-- backend/tenant_manager/crypto.py
use mifos_test.Prelude.{◌+◌, not, Text, text, is_nonempty, if◌then◌else◌}
use mifos_test.Exec.{Exec, runtime_error, raise}
use mifos_test.Env.{Env}
use mifos_test.World.{World}

module _ {env : Env} where
  -- `_fernet()` refuses an empty key.
  unfoldable pub encrypt_secret : Text → Exec (World env) Text
  encrypt_secret raw w =
      if not (is_nonempty env.settings.credential_encryption_key)
      then raise (runtime_error (text "CREDENTIAL_ENCRYPTION_KEY is not configured")) w
      else (
        env.fernet_encrypt env.settings.credential_encryption_key w.draws raw,
        record w { draws = w.draws + 1 },
      )

  unfoldable pub decrypt_secret : Text → Exec (World env) Text
  decrypt_secret token w =
      if not (is_nonempty env.settings.credential_encryption_key)
      then raise (runtime_error (text "CREDENTIAL_ENCRYPTION_KEY is not configured")) w
      else (env.fernet_decrypt env.settings.credential_encryption_key token, w)
