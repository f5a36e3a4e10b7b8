-- ===== src/Authentication/Admission.antt =====
-- What the issue of a session leaves, and what a sign-in leaves when it is admitted.
use mifos_test.Prelude.{
  true, not, ◌||◌, ℕ, ◌+◌, false, Option, none, some, List, [], ◌∷◌, ◌++◌, ◌≡◌, inl, inr, refl, sym,
  subst, ◌==◌, ==_iff, Bool-cases, ltb, length, Text, text, rewrite, All, All-rewrite,
}
use mifos_test.Exec.{data_error, Result, err, ok, pure, continue, ◌>>=◌, ◌>>◌}
use mifos_test.Exec.Post.{Post, Post-weaken}
use mifos_test.Models.{User, LoginSession}
use mifos_test.Env.{Env, inet_fits}
use mifos_test.World.{World}
use mifos_test.Audit.{rows_of, log}
use mifos_test.Authentication.Lockout.{
  clear_failures, copy_login, update_user, register_successful_login,
}
use mifos_test.Authentication.Sessions.{
  Client, Tokens, new_session, insert_session, create_session, refresh_token_for, issue_session,
  refresh_token_lifetime,
}
use mifos_test.Authentication.Service.{login_entry, admit}

-- The login counters of that user are cleared.
abbrev pub IsCleared : ℕ → User → Type 0
IsCleared id r = r.id ≡ id → (r.failed_login_attempts ≡ 0) × (r.locked_until ≡ none)

IsCleared-rows :
    (u : User) (ip : Option Text) (rows : List User)
    → let u' = clear_failures u ip in
      All (IsCleared u.id) (rewrite (λ r. r.id == u'.id) (copy_login u') rows)
unfolding clear_failures
IsCleared-rows u ip rows =
    All-rewrite (IsCleared u.id) (λ r. r.id == u.id) (copy_login (clear_failures u ip))
      (λ r _ _. (refl, refl)) (λ r p e. cc (p, (==_iff r.id u.id).1 e)) rows

clear_failures-id : (u : User) (ip : Option Text) → (clear_failures u ip).id ≡ u.id
unfolding clear_failures
clear_failures-id u ip = refl

-- One session is added, for that token, user and client.
pub record Opened (env : Env) (id : ℕ) (client : Client) (tokens : Tokens) (now : ℕ)
    (before after : List LoginSession) : Type 0 where
  pub session : LoginSession
  pub added : after ≡ before ++ session ∷ []
  pub of_user : session.user ≡ id
  pub of_token : session.refresh_token_hash ≡ env.sha256 tokens.refresh
  pub of_client : client.ip_address ≡ some session.ip_address
  pub not_revoked : session.is_revoked ≡ false
  pub ends : session.expires_at ≡ now + refresh_token_lifetime

abbrev tokens_of : Env → Text → Tokens
tokens_of env refresh = record { access = env.jwt_access refresh; refresh = refresh }

module _ {env : Env} where
  abbrev pub Issues : ℕ → Client → World env → Result Tokens × World env → Type 0
  Issues id client w r =
      Post r
        (λ tokens w'.
          Opened env id client tokens w.now w.sessions w'.sessions × (w'.users ≡ w.users))
        (λ _ w'. w'.sessions ≡ w.sessions)

  inserted :
      (u : User) (refresh : Text) (client : Client) (ip : Option Text) (w : World env)
      → client.ip_address ≡ ip
      → Issues u.id client w
          ((insert_session u refresh client ip >> pure (tokens_of env refresh)) w)
  unfolding insert_session
  inserted u refresh client none w from = unfold ◌>>=◌ in refl
  inserted u refresh client (some []) w from = unfold ◌>>=◌ in refl
  inserted u refresh client (some (c ∷ cs)) w from =
      elim (Bool-cases (ltb 128 (length client.device) || not (env.is_inet (c ∷ cs)))) [
        | inl long ↦ unfold ◌>>=◌ in rw long refl
        | inr fits ↦
            unfold ◌>>=◌ in
            rw fits (
              record {
                session = new_session u refresh client (c ∷ cs) w;
                added = refl;
                of_user = refl;
                of_token = refl;
                of_client = from;
                not_revoked = refl;
                ends = refl;
              },
              refl,
            )
      ]

  issued :
      (u : User) (client : Client) (w : World env) (r : Result Text)
      → Issues u.id client w (
          continue r (λ refresh. create_session u refresh client >> pure (tokens_of env refresh)) w)
  issued u client w (err e) = refl
  issued u client w (ok refresh) =
      unfold create_session in inserted u refresh client client.ip_address w refl

  issue_session_lem :
      (u : User) (client : Client) (w : World env) → Issues u.id client w (issue_session u client w)
  unfolding issue_session refresh_token_for
  issue_session_lem u client w =
      unfold ◌>>=◌ create_session in
      issued u client (record w { draws = w.draws + 1 })
        (env.jwt_for_user u.id u.tenant u.role w.now w.draws)

  -- What a sign-in leaves.
  abbrev pub SignsIn : User → Client → World env → Result Tokens × World env → Type 0
  SignsIn u client w r =
      Post r
        (λ tokens w'.
          Opened env u.id client tokens w.now w.sessions w'.sessions
          × All (IsCleared u.id) w'.users)
        (λ _ w'. w'.sessions ≡ w.sessions)

  registered :
      (u : User) (ip : Option Text) (w : World env)
      → inet_fits env ip ≡ true
      → let u' = clear_failures u ip in
        register_successful_login u ip w ≡ (ok u', update_user (copy_login u') u' w)
  unfolding register_successful_login
  registered u ip w fits = rw fits refl

  admit-then :
      (tenant : Option ℕ) (u : User) (client : Client) (w : World env)
      → inet_fits env client.ip_address ≡ true
      → let u' = clear_failures u client.ip_address in
        admit tenant u client w
        ≡ issue_session u' client (record (update_user (copy_login u') u' w) {
          audit_logs =
              w.audit_logs
              ++ rows_of env
                  (login_entry env (text "LOGIN_SUCCESS") (some u'.id) tenant u' client.ip_address)
                  w.now;
        })
  unfolding admit
  admit-then tenant u client w fits =
      unfold ◌>>=◌ log in rw (registered u client.ip_address w fits) (rw fits refl)

  -- An address that is no IP is refused when the login is registered.
  admit-bad :
      (tenant : Option ℕ) (u : User) (client : Client) (w : World env)
      → inet_fits env client.ip_address ≡ false
      → admit tenant u client w ≡ (err (data_error (text "authentication_user")), w)
  unfolding admit
  admit-bad tenant u client w bad = unfold ◌>>=◌ register_successful_login in rw bad refl

  pub admit_lem :
      (tenant : Option ℕ) (u : User) (client : Client) (w : World env)
      → SignsIn u client w (admit tenant u client w)
  admit_lem tenant u client w = elim (Bool-cases (inet_fits env client.ip_address)) [
    | inr bad ↦ rw (admit-bad tenant u client w bad) refl
    | inl fits ↦ rw (admit-then tenant u client w fits) (
        Post-weaken _ _ _ _ (issue_session _ client _).0 (issue_session _ client _).1
          (λ tokens w' (opened, users). (
            subst (λ id. Opened env id client tokens w.now w.sessions w'.sessions)
                (clear_failures-id u client.ip_address) opened,
            subst (All (IsCleared u.id)) (sym users) (IsCleared-rows u client.ip_address w.users),
          ))
          (λ _ _ same. same) (issue_session_lem (clear_failures u client.ip_address) client _))
  ]
