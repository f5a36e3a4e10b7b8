-- ===== src/Authentication/Reuse.antt =====
-- A refresh token is good for one exchange, and its reuse ends every session of its user.
use mifos_test.Prelude.{
  Bool-cases, inl, inr, if◌then◌else◌, ℕ, true, false, some, List, ◌++◌, ◌≡◌, refl, arith, Text,
  text, rewrite, All, All-rewrite,
}
use mifos_test.Exec.{Exn, data_error, err, ◌>>=◌}
use mifos_test.Exec.Post.{Post, Post-weaken}
use mifos_test.Models.{User, LoginSession}
use mifos_test.Env.{Env, inet_fits}
use mifos_test.World.{World}
use mifos_test.Audit.{rows_of, log}
use mifos_test.Authentication.Sessions.{Client, revoked, is_open_of, revoke_all_sessions}
use mifos_test.Authentication.Service.{
  token_invalid, login_entry, user_of, session_of, report_reuse, rotate_session, rotate_found,
  rotate_refresh_token,
}
use mifos_test.Authentication.Rotation.{rotated}

-- Every session of that user is revoked.
abbrev pub IsSignedOut : ℕ → List LoginSession → Type 0
IsSignedOut user sessions = All (λ r. r.user ≡ user → r.is_revoked ≡ true) sessions

signed_out :
    (user : ℕ) (rows : List LoginSession)
    → IsSignedOut user (rewrite (is_open_of user) revoked rows)
signed_out user rows =
    All-rewrite (λ r. r.user ≡ user → r.is_revoked ≡ true) (is_open_of user) revoked (λ _ _ _. refl)
      (λ r closed e. ground arith) rows

-- What the discovery of a reuse raises.
abbrev pub reuse_refusal : Env → Client → Exn
reuse_refusal env client =
    if inet_fits env client.ip_address then token_invalid else data_error (text "audit_auditlog")

module _ {env : Env} where
  -- What the discovery of a reuse leaves.
  abbrev pub ended : User → Client → World env → World env
  ended u client w = record w {
    sessions = rewrite (is_open_of u.id) revoked w.sessions;
    audit_logs =
        w.audit_logs
        ++ rows_of env
            (login_entry env (text "REFRESH_TOKEN_REUSE_DETECTED") (some u.id) u.tenant u
              client.ip_address)
            w.now;
  }

  rotate-found :
      (raw : Text) (client : Client) (w : World env)
      → rotate_refresh_token raw client w ≡ rotate_found raw (session_of raw w) client w
  unfolding rotate_refresh_token
  rotate-found raw client w = refl

  report_reuse_lem :
      (s : LoginSession) (u : User) (client : Client) (w : World env)
      → user_of s w ≡ some u
      → report_reuse s client w ≡ (err (reuse_refusal env client), ended u client w)
  unfolding report_reuse
  report_reuse_lem s u client w e =
      unfold ◌>>=◌ revoke_all_sessions log in
      rw e (elim (Bool-cases (inet_fits env client.ip_address)) [
        | inl fits ↦ rw fits refl
        | inr bad ↦ rw bad refl
      ])

-- A token whose session is revoked, with the row of its user there, is refused, every session of
-- that user is revoked, and nothing else is changed but the audit log. From a client whose address
-- the log's column takes the refusal is TOKEN_INVALID and the reuse is in the log; from any other
-- it is the column's DataError, and the log has no entry.
pub reuse_lem :
    {env : Env} (raw : Text) (s : LoginSession) (u : User) (client : Client) (w : World env)
    → session_of raw w ≡ some s
    → s.is_revoked ≡ true
    → user_of s w ≡ some u
    → rotate_refresh_token raw client w ≡ (err (reuse_refusal env client), ended u client w)
reuse_lem raw s u client w listed closed known =
    rw (rotate-found raw client w, listed)
      (unfold rotate_found in rw closed (report_reuse_lem s u client w known))

-- A refresh token is good for one exchange: when its session is not revoked, the row of its user is
-- there and it is exchanged, then whoever presents it again next, at any time and with any client,
-- is refused, and every session of its user is revoked by that, the one of the exchange included.
-- The refusal is TOKEN_INVALID, or the DataError of the audit log's column where the client's
-- address is no IP.
pub single_use :
    {env : Env} (raw : Text) (s : LoginSession) (u : User) (client : Client) (w : World env)
    → session_of raw w ≡ some s
    → s.is_revoked ≡ false
    → user_of s w ≡ some u
    → Post
        (rotate_refresh_token raw client w)
        (λ _ w'.
          (thief : Client) (later : ℕ)
          → let (r, w'') = rotate_refresh_token raw thief (record w' { now = later }) in
            (r ≡ err (reuse_refusal env thief)) × IsSignedOut u.id w''.sessions)
        (λ _ _. Unit)
single_use {env} raw s u client w listed open_session known =
    rw (rotate-found raw client w, listed)
      (unfold rotate_found in
        rw open_session (
          Post-weaken _ _ _ _ (rotate_session raw s client w).0 (rotate_session raw s client w).1
            (λ _ w' (closed, same) thief later.
              rw
                (reuse_lem raw (revoked s) u thief (record w' { now = later }) closed refl
                  (rw same known))
                (refl, signed_out u.id w'.sessions))
            (λ _ _ _. tt) (rotated raw s w.users client w (listed, refl))))
