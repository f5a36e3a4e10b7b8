-- ===== src/Authentication/Guesses.antt =====
-- Five wrong passwords lock an account.
use mifos_test.Prelude.{
  ℕ, ◌+◌, ◌<◌, true, false, Option, none, some, List, [], ◌∷◌, ◌≡◌, refl, sym, ap, subst, Text,
  arith, All, length, keep,
}
use mifos_test.Exec.{Result, err}
use mifos_test.Models.{User}
use mifos_test.Env.{Env}
use mifos_test.World.{World}
use mifos_test.Authentication.Lockout.{is_locked}
use mifos_test.Authentication.Sessions.{Client, Tokens}
use mifos_test.Authentication.Service.{account_locked, is_account, authenticate}
use mifos_test.Authentication.Attempt.{
  few_failures, locked_at_five, open_of_none, IsAccount, failed, locked_lem, wrong_lem,
  counted-IsAccount,
}

-- One attempt to sign in, and when it is made.
pub record Guess : Type 0 where
  pub password : Text
  pub client : Client
  pub code : Option Text
  pub at : ℕ

-- A password that the account's hash does not match.
abbrev pub IsWrong : Env → User → Guess → Type 0
IsWrong env u g = env.check_password g.password u.password ≡ false

module _ {env : Env} (tenant : Option ℕ) (email : Text) where
  -- Attempts in their order, each at its time.
  abbrev pub attempts : List Guess → World env → World env
  attempts [] w = w
  attempts (g ∷ gs) w =
      attempts gs (authenticate tenant email g.password g.client g.code (record w { now = g.at })).1

  -- Up to the fourth failure the account stays open.
  open-IsAccount :
      (n : ℕ) (gs : List Guess) (w : World env) (u : User)
      → IsAccount tenant email w u
      → u.locked_until ≡ none
      → All (IsWrong env u) gs
      → u.failed_login_attempts + length gs ≡ n
      → n < 5
      → IsAccount tenant email (attempts gs w) (record u { failed_login_attempts = n })
  open-IsAccount n [] w u h free wrong total few =
      subst
        (λ k. keep (is_account tenant email) w.users ≡ record u { failed_login_attempts = k } ∷ [])
        (omega (arith, total)) h
  open-IsAccount n (g ∷ gs) w u h free (bad, wrong) total few =
      let w1 : World env = record w { now = g.at } in
      let small : u.failed_login_attempts + 1 < 5 = omega (arith, total, few) in
      let same =
        wrong_lem tenant email w1 u g.password g.client g.code h (open_of_none u g.at free) bad
          (omega (arith, small)) in
      let next =
        subst (IsAccount tenant email (failed tenant email u g.client w1))
          (few_failures u g.at small) (counted-IsAccount tenant email w1 u g.client h) in
      subst (λ v. IsAccount tenant email (attempts gs v) (record u { failed_login_attempts = n }))
        (sym (ap (λ (r : Result Tokens × World env). r.1) same))
        (open-IsAccount n gs (failed tenant email u g.client w1)
          (record u { failed_login_attempts = u.failed_login_attempts + 1 }) next free wrong
          (omega (arith, total)) few)

  -- The account after the fifth failure.
  locked-IsAccount :
      (gs : List Guess) (last : Guess) (w : World env) (u : User)
      → IsAccount tenant email w u
      → u.failed_login_attempts ≡ 0
      → u.locked_until ≡ none
      → All (IsWrong env u) gs
      → length gs ≡ 4
      → IsWrong env u last
      → let four = record (attempts gs w) { now = last.at } in
        IsAccount tenant email
          (authenticate tenant email last.password last.client last.code four).1
          (record u { failed_login_attempts = 5; locked_until = some (last.at + 1800) })
  locked-IsAccount gs last w u h fresh free wrong four bad =
      let w4 : World env = record (attempts gs w) { now = last.at } in
      let u4 : User = record u { failed_login_attempts = 4 } in
      let before : IsAccount tenant email w4 u4 =
        open-IsAccount 4 gs w u h free wrong (omega (arith, fresh, four)) (omega arith) in
      let same =
        wrong_lem tenant email w4 u4 last.password last.client last.code before
          (open_of_none u4 last.at free) bad (omega arith) in
      subst
        (λ v.
          IsAccount tenant email v
            (record u { failed_login_attempts = 5; locked_until = some (last.at + 1800) }))
        (sym (ap (λ (r : Result Tokens × World env). r.1) same))
        (subst (IsAccount tenant email (failed tenant email u4 last.client w4))
          (locked_at_five u4 last.at refl)
          (counted-IsAccount tenant email w4 u4 last.client before))

locked_before :
    (u : User) (now until : ℕ) → u.locked_until ≡ some until → now < until → is_locked u now ≡ true
unfolding is_locked
locked_before u now until e h = rw e (ground arith)

-- Five wrong passwords in a row, with nothing between them but time, lock an account that had no
-- failures and no lock and is the one that its address finds: whatever is presented within thirty
-- minutes of the fifth, the right password included, is refused with ACCOUNT_LOCKED, and the
-- attempt writes nothing.
pub five_guesses-Lock :
    {env : Env} (tenant : Option ℕ) (email : Text) (w : World env) (u : User) (gs : List Guess)
    (last next : Guess)
    → IsAccount tenant email w u
    → u.failed_login_attempts ≡ 0
    → u.locked_until ≡ none
    → All (IsWrong env u) gs
    → length gs ≡ 4
    → IsWrong env u last
    → next.at < last.at + 1800
    → let four = record (attempts tenant email gs w) { now = last.at } in
      let five = (authenticate tenant email last.password last.client last.code four).1 in
      let later = record five { now = next.at } in
      authenticate tenant email next.password next.client next.code later
      ≡ (err account_locked, later)
five_guesses-Lock {env} tenant email w u gs last next h fresh free wrong four bad soon =
    locked_lem tenant email _ _ next.password next.client next.code
      (locked-IsAccount tenant email gs last w u h fresh free wrong four bad)
      (locked_before (record u { failed_login_attempts = 5; locked_until = some (last.at + 1800) })
        next.at (last.at + 1800) refl soon)
