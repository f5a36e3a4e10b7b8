-- ===== src/Authentication/SignIn.antt =====
-- What a sign-in requires and what it leaves.
use mifos_test.Prelude.{
  ℕ, is_nonempty, Bool, true, false, Option, none, some, [], ◌∷◌, ◌≡◌, inl, inr, refl, sym, subst,
  Bool-cases, ltb, Text, text, All, if◌then◌else◌,
}
use mifos_test.Exec.{Result, err, ok, raise, continue, ◌>>=◌, ◌>>◌}
use mifos_test.Exec.Post.{Post, Post-bind, Post-weaken, Post-of_state, Post-raise}
use mifos_test.Exec.Keeps.{Keeps, Keeps-pure, keeps_rules}
use mifos_test.Crypto.{decrypt_secret}
use mifos_test.Models.{User}
use mifos_test.Env.{Env}
use mifos_test.World.{World}
use mifos_test.Audit.{log}
use mifos_test.Authentication.Lockout.{is_locked, count_failure, register_failed_login}
use mifos_test.Authentication.Sessions.{Client, Tokens}
use mifos_test.Authentication.Mfa.{verify_mfa, verify_secret}
use mifos_test.Authentication.Service.{
  check_code, invalid_credentials, mfa_required, login_entry, refuse_login, admit, second_factor,
  authenticate_user, authenticate,
}
use mifos_test.Authentication.Attempt.{IsAccount, authenticate-user}
use mifos_test.Authentication.Admission.{IsCleared, Opened, admit_lem}

module _ {env : Env} where
  -- The second factor is looked at, and nothing is written.
  decrypt_secret-same : (token : Text) (w : World env) → Keeps (λ v. v ≡ w) (decrypt_secret token)
  unfolding decrypt_secret
  decrypt_secret-same token w = record {
    kept = λ v h. elim (Bool-cases (is_nonempty env.settings.credential_encryption_key)) [
      | inl set ↦ rw set h
      | inr unset ↦ rw unset h
    ];
  }

  verify_secret-same :
      (secret : Option Text) (code : Text) (w : World env)
      → Keeps (λ v. v ≡ w) (verify_secret secret code)
  unfolding verify_secret
  verify_secret-same none code w = Keeps-pure false
  verify_secret-same (some []) code w = Keeps-pure false
  verify_secret-same (some (c ∷ cs)) code w = search (keeps_rules, decrypt_secret-same) depth 8

  check_code-same :
      (u : User) (code : Option Text) (w : World env) → Keeps (λ v. v ≡ w) (check_code u code)
  unfolding check_code
  check_code-same u none w = Keeps-pure false
  check_code-same u (some []) w = Keeps-pure false
  check_code-same u (some (c ∷ cs)) w =
      unfold verify_mfa in verify_secret-same u.mfa_secret_encrypted (c ∷ cs) w

  second_factor-same :
      (u : User) (code : Option Text) (w : World env) → (second_factor u code w).1 ≡ w
  unfolding second_factor
  second_factor-same u code w = elim (Bool-cases u.mfa_enabled) [
    | inl on ↦ rw on ((check_code-same u code w).kept w refl)
    | inr off ↦ rw off refl
  ]

  register_failed_login-sessions :
      (u : User) (w : World env) → (register_failed_login u w).1.sessions ≡ w.sessions
  unfolding register_failed_login
  register_failed_login-sessions u w =
      elim (Bool-cases (ltb 32767 (count_failure u w.now).failed_login_attempts)) [
        | inl full ↦ rw full refl
        | inr room ↦ rw room refl
      ]

  refuse_login-then :
      (tenant : Option ℕ) (u : User) (client : Client)
      → refuse_login {env = env} tenant u client ≡ (
          register_failed_login u
          >> (log (login_entry env (text "LOGIN_FAILED") none tenant u client.ip_address)
              >> raise invalid_credentials))
  unfolding refuse_login
  refuse_login-then tenant u client = refl

  refuse_login_lem :
      (tenant : Option ℕ) (u : User) (client : Client) (w : World env)
      → Post (refuse_login tenant u client w) (λ _ _. ⊥) (λ _ w'. w'.sessions ≡ w.sessions)
  refuse_login_lem tenant u client w =
      let entry = login_entry env (text "LOGIN_FAILED") none tenant u client.ip_address in
      rw (refuse_login-then tenant u client) (
        Post-bind _ _ (register_failed_login u) (λ _. log entry >> raise invalid_credentials) w
          (Post-of_state _ _ (λ v. v.sessions ≡ w.sessions) (register_failed_login u w)
            (λ _ t h.
              Post-raise Tokens (λ v. v.sessions ≡ w.sessions) invalid_credentials (log entry) t
                (unfold log in h))
            (λ _ _ h. h) (register_failed_login-sessions u w)))

  -- What a sign-in requires.
  pub record Admissible (u : User) (password : Text) (code : Option Text) (w : World env)
      : Type 0 where
    pub not_locked : is_locked u w.now ≡ false
    pub right_password : env.check_password password u.password ≡ true
    pub factor : second_factor u code w ≡ (ok true, w)

  abbrev pub Signs :
      User → Text → Option Text → Client → World env → Result Tokens × World env → Type 0
  Signs u password code client w r =
      Post r
        (λ tokens w'.
          Admissible u password code w
          × (Opened env u.id client tokens w.now w.sessions w'.sessions
              × All (IsCleared u.id) w'.users))
        (λ _ w'. w'.sessions ≡ w.sessions)

  factored :
      (tenant : Option ℕ) (u : User) (password : Text) (client : Client) (code : Option Text)
      (w : World env) (r : Result Bool)
      → is_locked u w.now ≡ false
      → env.check_password password u.password ≡ true
      → second_factor u code w ≡ (r, w)
      → Signs u password code client w
          (continue r (λ passed. if passed then admit tenant u client else raise mfa_required) w)
  factored tenant u password client code w (err e) free right factor = refl
  factored tenant u password client code w (ok false) free right factor = refl
  factored tenant u password client code w (ok true) free right factor =
      Post-weaken _ _ _ _ (admit tenant u client w).0 (admit tenant u client w).1
        (λ _ _ h. (record { not_locked = free; right_password = right; factor = factor }, h))
        (λ _ _ same. same) (admit_lem tenant u client w)

  checked :
      (tenant : Option ℕ) (u : User) (password : Text) (client : Client) (code : Option Text)
      (w : World env)
      → is_locked u w.now ≡ false
      → env.check_password password u.password ≡ true
      → Signs u password code client w (
          (second_factor u code >>= λ passed.
          if passed then admit tenant u client else raise mfa_required)
            w)
  checked tenant u password client code w free right =
      let same : second_factor u code w ≡ ((second_factor u code w).0, w) =
        λ i. ((second_factor u code w).0, second_factor-same u code w i) in
      unfold ◌>>=◌ in
      subst
        (λ v. Signs u password code client w (
          continue (second_factor u code w).0
            (λ passed. if passed then admit tenant u client else raise mfa_required) v))
        (sym (second_factor-same u code w))
        (factored tenant u password client code w _ free right same)

  opened_or_not :
      (tenant : Option ℕ) (u : User) (password : Text) (client : Client) (code : Option Text)
      (w : World env)
      → Signs u password code client w (authenticate_user tenant u password client code w)
  unfolding authenticate_user
  opened_or_not tenant u password client code w = elim (Bool-cases (is_locked u w.now)) [
    | inl locked ↦ rw locked refl
    | inr free ↦ elim (Bool-cases (env.check_password password u.password)) [
      | inl right ↦ rw (free, right) (checked tenant u password client code w free right)
      | inr wrong ↦
          rw (free, wrong)
            (Post-weaken _ _ _ _ (refuse_login tenant u client w).0
              (refuse_login tenant u client w).1 (λ _ _ h. absurd h) (λ _ _ same. same)
              (refuse_login_lem tenant u client w))
    ]
  ]

-- Sign-in to the one account with an address. It returns tokens only if the account is not locked,
-- the password matches and the second factor, where it is on, lets the user through; then exactly
-- one session is added, for the token and the client, to end after the token's lifetime, and the
-- user's failures and lock are cleared. Whenever it raises, no session is added.
pub sign_in_lem :
    {env : Env} (tenant : Option ℕ) (email : Text) (u : User) (password : Text) (client : Client)
    (code : Option Text) (w : World env)
    → IsAccount tenant email w u
    → Post
        (authenticate tenant email password client code w)
        (λ tokens w'.
          Admissible u password code w
          × (Opened env u.id client tokens w.now w.sessions w'.sessions
              × All (IsCleared u.id) w'.users))
        (λ _ w'. w'.sessions ≡ w.sessions)
sign_in_lem tenant email u password client code w h =
    rw (authenticate-user tenant email w u password client code h)
      (opened_or_not tenant u password client code w)
