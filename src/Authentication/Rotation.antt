-- ===== src/Authentication/Rotation.antt =====
-- A refresh token is good for one exchange, and its reuse ends every session of its user.
use mifos_test.Prelude.{
  ◌||◌, not, ltb, length, Bool-cases, inl, inr, Option, none, some, List, [], ◌∷◌, ◌≡◌, refl, ◌==◌,
  ==_refl, Text, same_text, find-append, find-rewrite,
}
use mifos_test.Exec.{Exn, ok, or_raise, does_not_exist, Exec, ◌>>=◌, ◌>>◌}
use mifos_test.Exec.Post.{Post, Post-bind, Post-of_state}
use mifos_test.Exec.Keeps.{Keeps, keeps_rules}
use mifos_test.Models.{User, LoginSession}
use mifos_test.Env.{Env}
use mifos_test.World.{World}
use mifos_test.Authentication.Sessions.{
  Client, Tokens, revoked, new_session, insert_session, create_session, refresh_token_for,
  issue_session, revoke,
}
use mifos_test.Authentication.Service.{user_of, session_of, blacklist, rotate_session}

module _ {env : Env} (raw : Text) (session : LoginSession) (users : List User) where
  -- The token's session is there, as `row`, and the accounts are `users`.
  abbrev pub Holds : LoginSession → World env → Type 0
  Holds row w = (session_of raw w ≡ some row) × (w.users ≡ users)

  blacklist-Holds : Keeps (Holds session) (blacklist raw)
  unfolding blacklist
  blacklist-Holds = record { kept = λ w h. h }

  insert_session-Holds :
      (u : User) (refresh : Text) (client : Client) (ip : Option Text) (w : World env)
      → Holds (revoked session) w
      → Holds (revoked session) (insert_session u refresh client ip w).1
  unfolding insert_session
  insert_session-Holds u refresh client none w h = h
  insert_session-Holds u refresh client (some []) w h = h
  insert_session-Holds u refresh client (some (c ∷ cs)) w h =
      elim (Bool-cases (ltb 128 (length client.device) || not (env.is_inet (c ∷ cs)))) [
        | inl long ↦ rw long h
        | inr fits ↦ rw fits (
          find-append (λ s. same_text s.refresh_token_hash (env.sha256 raw)) w.sessions
              (new_session u refresh client (c ∷ cs) w ∷ []) (revoked session) h.0,
          h.1,
        )
      ]

  create_session-Holds :
      (u : User) (refresh : Text) (client : Client)
      → Keeps (Holds (revoked session)) (create_session u refresh client)
  unfolding create_session
  create_session-Holds u refresh client = record {
    kept = λ w h. insert_session-Holds u refresh client client.ip_address w h;
  }

  refresh_token_for-Holds : (u : User) → Keeps (Holds (revoked session)) (refresh_token_for u)
  unfolding refresh_token_for
  refresh_token_for-Holds u = record { kept = λ w h. h }

  issue_session-Holds :
      (u : User) (client : Client) → Keeps (Holds (revoked session)) (issue_session u client)
  unfolding issue_session
  issue_session-Holds u client =
      search (keeps_rules, refresh_token_for-Holds, create_session-Holds) depth 10

  or_raise-Holds :
      (o : Option User) (e : Exn) (w : World env)
      → Holds (revoked session) w
      → Holds (revoked session) (or_raise o e w).1
  or_raise-Holds none e w h = h
  or_raise-Holds (some u) e w h = h

  user_of-Holds :
      Keeps
        (Holds (revoked session))
        (λ (w : World env). or_raise (user_of session w) does_not_exist w)
  user_of-Holds = record { kept = λ w h. or_raise-Holds (user_of session w) does_not_exist w h }

  -- The rotation once the old session is revoked.
  abbrev reopen : Client → Exec (World env) Tokens
  reopen client = (λ (w : World env). or_raise (user_of session w) does_not_exist w) >>= λ u.
      issue_session u (record client { device = session.device_fingerprint })

  reopen-Holds : (client : Client) → Keeps (Holds (revoked session)) (reopen client)
  reopen-Holds client = search (keeps_rules, user_of-Holds, issue_session-Holds) depth 10

  rotate_session-then :
      (client : Client)
      → rotate_session raw session client ≡ (blacklist raw >> (revoke session >> reopen client))
  unfolding rotate_session
  rotate_session-then client = refl

  revoke-Holds : (w : World env) → Holds session w → Holds (revoked session) (revoke session w).1
  unfolding revoke
  revoke-Holds w (listed, same) = (
    find-rewrite (λ s. same_text s.refresh_token_hash (env.sha256 raw)) (λ r. r.id == session.id)
        revoked w.sessions session (λ y. refl) (==_refl session.id) listed,
    same,
  )

  revoke_lem : (w : World env) → revoke session w ≡ (ok tt, (revoke session w).1)
  unfolding revoke
  revoke_lem w = refl

  -- A rotation that succeeds leaves the old session revoked.
  pub rotated :
      (client : Client) (w : World env)
      → Holds session w
      → Post (rotate_session raw session client w) (λ _. Holds (revoked session)) (λ _ _. Unit)
  rotated client w h = rw (rotate_session-then client) (
      Post-bind _ _ (blacklist raw) (λ _. revoke session >> reopen client) w
        (Post-of_state _ _ (Holds session) (blacklist raw w)
          (λ _ t q.
            Post-of_state _ _ (Holds (revoked session)) ((revoke session >> reopen client) t)
              (λ _ _ k. k) (λ _ _ _. tt)
              (unfold ◌>>=◌ in rw (revoke_lem t) ((reopen-Holds client).kept _ (revoke-Holds t q))))
          (λ _ _ _. tt) (blacklist-Holds.kept w h)))
