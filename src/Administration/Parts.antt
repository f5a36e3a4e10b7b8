-- ===== src/Administration/Parts.antt =====
-- The account and the domain of a tenant that is added on its page.
use mifos_test.Prelude.{
  Bool, true, false, Option, none, some, List, [], ◌∷◌, ◌++◌, ◌≡◌, inl, inr, refl, Text, Bool-cases,
  ◌==◌, ==_refl, keep, is_nonempty, ltb, length, arith,
}
use mifos_test.Exec.{◌>>=◌}
use mifos_test.Exec.Post.{Post}
use mifos_test.Models.{Tenant, User, is_ceo}
use mifos_test.Env.{Env}
use mifos_test.World.{World}
use mifos_test.Tenants.{domains_of, create_domain, generate_subdomain, domain_clashes}
use mifos_test.Authentication.{create_user, email_taken, user_too_long}
use mifos_test.Administration.{ceo_of, make_admin, ensure_domain}

is_nonempty-keep :
    {A : Type 0} (p : A → Bool) (x : A) (xs : List A)
    → p x ≡ true
    → is_nonempty (keep p (xs ++ x ∷ [])) ≡ true
is_nonempty-keep p x [] h = ground (arith, h)
is_nonempty-keep p x (y ∷ xs) h = ground (arith, is_nonempty-keep p x xs h)

module _ {env : Env} where
  -- The account that `create_user` adds.
  pub record Account (email : Text) (t : Tenant) (w : World env) (u : User) (w' : World env)
      : Type 0 where
    pub users : w'.users ≡ w.users ++ u ∷ []
    pub jobs : w'.jobs ≡ w.jobs
    pub email_of : u.email ≡ env.normalize_email email
    pub tenant_of : u.tenant ≡ some t.id
    pub role_of : is_ceo u.role ≡ true
    pub active_of : u.is_active ≡ true

  create_user-Account :
      (email password : Text) (t : Tenant) (w : World env)
      → Post (create_user email password (ceo_of t) w) (Account email t w) (λ _ _. Unit)
  unfolding create_user
  create_user-Account email password t w = elim (Bool-cases (is_nonempty email)) [
    | inr empty ↦ rw empty tt
    | inl named ↦
        rw named (elim (Bool-cases (user_too_long (env.normalize_email email) (ceo_of t))) [
          | inl long ↦ rw long tt
          | inr fits ↦ elim (Bool-cases (email_taken (env.normalize_email email) w.users)) [
            | inl taken ↦ rw (fits, taken) tt
            | inr free ↦
                rw (fits, free)
                  (record {
                    users = refl;
                    jobs = refl;
                    email_of = refl;
                    tenant_of = refl;
                    role_of = refl;
                    active_of = refl;
                  })
          ]
        ])
  ]

  pub make_admin-Account :
      (email password : Text) (t : Tenant) (found : Option User) (w : World env)
      → found ≡ none
      → Post (make_admin t email password found w) (Account email t w) (λ _ _. Unit)
  make_admin-Account email password t found w unused =
      rw unused (create_user-Account email password t w)

  -- A domain of the tenant is there, and neither accounts nor jobs changed.
  pub record WithDomain (t : Tenant) (w : World env) (u : Unit {0}) (w' : World env) : Type 0 where
    pub users : w'.users ≡ w.users
    pub jobs : w'.jobs ≡ w.jobs
    pub domain : is_nonempty (domains_of t w') ≡ true

  pub ensure_domain-WithDomain :
      (t : Tenant) (w : World env) → Post (ensure_domain t w) (WithDomain t w) (λ _ _. Unit)
  unfolding ensure_domain create_domain ◌>>=◌
  ensure_domain-WithDomain t w = elim (Bool-cases (is_nonempty (domains_of t w))) [
    | inl there ↦ rw there (record { users = refl; jobs = refl; domain = there })
    | inr missing ↦
        rw missing
          (elim (Bool-cases (ltb 255 (length (generate_subdomain env.settings t.tenant_code)))) [
            | inl long ↦ rw long tt
            | inr fits ↦
                elim (Bool-cases (
                  domain_clashes
                    (record {
                      id = w.next_id;
                      tenant = t.id;
                      hostname = generate_subdomain env.settings t.tenant_code;
                      is_primary = true;
                      is_custom = false;
                      ssl_verified = false;
                    })
                    w.domains)) [
                      | inl clash ↦ rw (fits, clash) tt
                      | inr free ↦
                          rw (fits, free)
                            (record {
                              users = refl;
                              jobs = refl;
                              domain =
                                  is_nonempty-keep (λ d. d.tenant == t.id) _ w.domains
                                    (==_refl t.id);
                            })
                    ]
          ])
  ]
