-- ===== src/Authentication/Enrollment.antt =====
-- Enrolling a second factor, and what it then accepts.
use mifos_test.Prelude.{
  ℕ, true, Option, some, [], ◌∷◌, ◌≡◌, ◌≢◌, refl, Text, ◌==◌, find, find-rewrite, find_passes, ◌+◌,
  is_nonempty, Bool-cases, inl, inr, rewrite,
}
use mifos_test.Exec.{Result, ok, err, continue, ◌>>=◌}
use mifos_test.Exec.Post.{Post}
use mifos_test.Models.{User}
use mifos_test.Env.{Env}
use mifos_test.World.{World}
use mifos_test.Crypto.{encrypt_secret, decrypt_secret}
use mifos_test.Authentication.Mfa.{random_base32, enroll_mfa, verify_secret, verify_mfa}

-- What Fernet promises: a token that it made under a key is not empty, and it decrypts to what was
-- encrypted.
pub record FernetLaws (env : Env) : Type 0 where
  pub decrypts :
      (key raw token : Text) (iv : ℕ)
      → env.fernet_encrypt key iv raw ≡ ok token
      → env.fernet_decrypt key token ≡ ok raw
  pub nonempty : (key raw : Text) (iv : ℕ) → env.fernet_encrypt key iv raw ≢ ok []

-- The row of that id.
abbrev pub row_of : {env : Env} → ℕ → World env → Option User
row_of id w = find (λ (r : User). r.id == id) w.users

module _ {env : Env} (laws : FernetLaws env) where
  -- A row with a second factor that accepts the codes of this secret and no others.
  pub record Accepts (secret : Text) (row : User) : Type 0 where
    pub verified :
        (code : Text) (w : World env)
        → verify_mfa row code w ≡ (ok (env.totp_verify secret code w.now), w)

  stored-Accepts :
      (row : User) (secret token : Text) (iv : ℕ)
      → is_nonempty env.settings.credential_encryption_key ≡ true
      → env.fernet_encrypt env.settings.credential_encryption_key iv secret ≡ ok token
      → Accepts secret (record row { mfa_secret_encrypted = some token })
  stored-Accepts row secret [] iv keyed e = absurd (laws.nonempty _ secret iv e)
  stored-Accepts row secret (c ∷ cs) iv keyed e = record {
    verified = λ code w.
        unfold verify_mfa verify_secret decrypt_secret ◌>>=◌ in
        rw (keyed, laws.decrypts _ secret (c ∷ cs) iv e) refl;
  }

  -- What an enrollment leaves: the address to enroll with, and a row that accepts its secret.
  pub record Enrolled (u row : User) (uri : Text) (w' : World env) : Type 0 where
    pub secret : Text
    pub enrolled : User
    pub shown : uri ≡ env.provisioning_uri secret u.email
    pub listed : row_of u.id w' ≡ some enrolled
    pub accepts : Accepts secret enrolled
    pub as_before : enrolled ≡ record row { mfa_secret_encrypted = enrolled.mfa_secret_encrypted }

  Enrolled-with :
      (u row : User) (w : World env) (secret : Text) (iv draws : ℕ) (r : Result Text)
      → row_of u.id w ≡ some row
      → is_nonempty env.settings.credential_encryption_key ≡ true
      → env.fernet_encrypt env.settings.credential_encryption_key iv secret ≡ r
      → Post {A = Text}
          (continue r
            (λ token v. (
              ok (env.provisioning_uri secret u.email),
              record v {
                users =
                    rewrite
                      (λ x. x.id == u.id)
                      (λ x. record x { mfa_secret_encrypted = some token })
                      v.users;
              },
            ))
            (record w { draws = draws }))
          (λ uri w'. Enrolled u row uri w')
          (λ _ w'. w'.users ≡ w.users)
  Enrolled-with u row w secret iv draws (err e) known keyed enc = refl
  Enrolled-with u row w secret iv draws (ok token) known keyed enc = record {
    secret = secret;
    enrolled = record row { mfa_secret_encrypted = some token };
    shown = refl;
    listed =
        find-rewrite (λ (x : User). x.id == u.id) (λ x. x.id == u.id)
          (λ x. record x { mfa_secret_encrypted = some token }) w.users row (λ _. refl)
          (find_passes (λ (x : User). x.id == u.id) w.users row known) known;
    accepts = stored-Accepts row secret token iv keyed enc;
    as_before = refl;
  }

-- With a Fernet that decrypts what it encrypted, an enrollment returns the address of a secret to
-- the user, and leaves a row for the user, else as it was, whose second factor then accepts at any
-- later time exactly the codes that the authenticator accepts for that secret; or it raises, and
-- the accounts are as they were.
pub enroll_mfa-Enrolled :
    {env : Env} (laws : FernetLaws env) (u row : User) (w : World env)
    → row_of u.id w ≡ some row
    → Post (enroll_mfa u w) (λ uri w'. Enrolled laws u row uri w') (λ _ w'. w'.users ≡ w.users)
unfolding enroll_mfa random_base32 encrypt_secret ◌>>=◌
enroll_mfa-Enrolled {env} laws u row w known =
    elim (Bool-cases (is_nonempty env.settings.credential_encryption_key)) [
      | inl keyed ↦ rw keyed (
          Enrolled-with laws u row w (env.random_base32 w.draws) (w.draws + 1) (w.draws + 1 + 1) _
            known keyed refl)
      | inr unset ↦ rw unset refl
    ]
