-- ===== src/Authentication/Attempt.antt =====
-- One attempt to sign in: to a locked account, and with a wrong password.
use mifos_test.Prelude.{
  Bool-cases, inl, inr, ℕ, ◌+◌, ◌<◌, true, false, Option, none, some, [], ◌∷◌, ◌++◌, ◌≡◌, refl, ap,
  ◌∙◌, if◌then◌else◌, ◌==◌, ltb, Text, text, arith, keep, rewrite, keep-rewrite,
}
use mifos_test.Exec.{Exn, data_error, err, raise, ok, ◌>>=◌, ◌>>◌}
use mifos_test.Models.{User}
use mifos_test.Env.{Env, inet_fits}
use mifos_test.World.{World}
use mifos_test.Audit.{rows_of, log}
use mifos_test.Authentication.Lockout.{
  is_locked, count_failure, register_failed_login, copy_counters, update_user,
}
use mifos_test.Authentication.Sessions.{Client}
use mifos_test.Authentication.Service.{
  invalid_credentials, account_locked, is_account, login_entry, get_user, refuse_login,
  authenticate_user, authenticate,
}

-- The object and its row agree after a failure.
copy_counters-count_failure :
    (u : User) (now : ℕ) → copy_counters (count_failure u now) u ≡ count_failure u now
unfolding count_failure
copy_counters-count_failure u now = ground arith

failures-count_failure :
    (u : User) (now : ℕ) → (count_failure u now).failed_login_attempts ≡ u.failed_login_attempts + 1
unfolding count_failure
failures-count_failure u now = ground arith

same_row : (u : User) (now : ℕ) → (u.id == (count_failure u now).id) ≡ true
unfolding count_failure
same_row u now = ground arith

pub few_failures :
    (u : User) (now : ℕ)
    → u.failed_login_attempts + 1 < 5
    → count_failure u now ≡ record u { failed_login_attempts = u.failed_login_attempts + 1 }
unfolding count_failure
few_failures u now few = ground arith

pub locked_at_five :
    (u : User) (now : ℕ)
    → u.failed_login_attempts ≡ 4
    → count_failure u now ≡ record u { failed_login_attempts = 5; locked_until = some (now + 1800) }
unfolding count_failure
locked_at_five u now four = rw four refl

pub open_of_none : (u : User) (now : ℕ) → u.locked_until ≡ none → is_locked u now ≡ false
unfolding is_locked
open_of_none u now free = rw free refl

-- What a wrong password raises: the column of the entry refuses an address that is no IP.
abbrev pub refusal : Env → Client → Exn
refusal env client =
    if inet_fits env client.ip_address
    then invalid_credentials
    else data_error (text "audit_auditlog")

module _ {env : Env} (tenant : Option ℕ) (email : Text) where
  -- The one account with that address.
  abbrev pub IsAccount : World env → User → Type 0
  IsAccount w u = keep (is_account tenant email) w.users ≡ u ∷ []

  found : (w : World env) (u : User) → IsAccount w u → get_user tenant email w ≡ (ok u, w)
  unfolding get_user
  found w u h = rw h refl

  -- What a wrong password leaves: the counter in the row, and an entry in the audit log.
  abbrev pub failed : User → Client → World env → World env
  failed u client w =
      let u' = count_failure u w.now in
      record (update_user (copy_counters u') u' w) {
        audit_logs =
            w.audit_logs
            ++ rows_of env (login_entry env (text "LOGIN_FAILED") none tenant u client.ip_address)
                w.now;
      }

  pub authenticate-user :
      (w : World env) (u : User) (password : Text) (client : Client) (code : Option Text)
      → IsAccount w u
      → authenticate tenant email password client code w
        ≡ authenticate_user tenant u password client code w
  unfolding authenticate
  authenticate-user w u password client code h = unfold ◌>>=◌ in rw (found w u h) refl

  -- A locked account refuses whatever is presented, and nothing is written.
  pub locked_lem :
      (w : World env) (u : User) (password : Text) (client : Client) (code : Option Text)
      → IsAccount w u
      → is_locked u w.now ≡ true
      → authenticate tenant email password client code w ≡ (err account_locked, w)
  locked_lem w u password client code h locked =
      rw (authenticate-user w u password client code h) (unfold authenticate_user in rw locked refl)

  register_lem :
      (w : World env) (u : User)
      → u.failed_login_attempts < 32767
      → let u' = count_failure u w.now in
        register_failed_login u w ≡ (ok u', update_user (copy_counters u') u' w)
  unfolding register_failed_login
  register_lem w u small =
      let counted = failures-count_failure u w.now in
      let fits : ltb 32767 (count_failure u w.now).failed_login_attempts ≡ false = ground arith in
      rw fits refl

  refuse_login-then :
      (u : User) (client : Client)
      → refuse_login {env = env} tenant u client ≡ (
          register_failed_login u
          >> (log (login_entry env (text "LOGIN_FAILED") none tenant u client.ip_address)
              >> raise invalid_credentials))
  unfolding refuse_login
  refuse_login-then u client = refl

  refuse_login_lem :
      (w : World env) (u : User) (client : Client)
      → u.failed_login_attempts < 32767
      → refuse_login tenant u client w ≡ (err (refusal env client), failed u client w)
  refuse_login_lem w u client small = rw (refuse_login-then u client) (
      unfold ◌>>=◌ log in
      rw (register_lem w u small) (elim (Bool-cases (inet_fits env client.ip_address)) [
        | inl fits ↦ rw fits refl
        | inr bad ↦ rw bad refl
      ]))

  -- A wrong password is refused and counted, also where the entry is refused.
  pub wrong_lem :
      (w : World env) (u : User) (password : Text) (client : Client) (code : Option Text)
      → IsAccount w u
      → is_locked u w.now ≡ false
      → env.check_password password u.password ≡ false
      → u.failed_login_attempts < 32767
      → authenticate tenant email password client code w
        ≡ (err (refusal env client), failed u client w)
  wrong_lem w u password client code h free wrong small =
      rw (authenticate-user w u password client code h)
        (unfold authenticate_user in rw (free, wrong) (refuse_login_lem w u client small))

  pub counted-IsAccount :
      (w : World env) (u : User) (client : Client)
      → IsAccount w u
      → IsAccount (failed u client w) (count_failure u w.now)
  counted-IsAccount w u client h =
      let u' = count_failure u w.now in
      keep-rewrite (is_account tenant email) (λ r. r.id == u'.id) (copy_counters u') w.users
        (λ x. refl)
      ∙ ap (rewrite (λ r. r.id == u'.id) (copy_counters u')) h
      ∙ ap (λ b. (if b then copy_counters u' u else u) ∷ []) (same_row u w.now)
      ∙ ap (λ v. v ∷ []) (copy_counters-count_failure u w.now)
