-- ===== src/Exec.antt =====
-- Python code that mutates state and may raise. What was written before a raise stays written, so
-- the state comes back beside the exception.
pub mod Post
pub mod Keeps
use mifos_test.Prelude.{ℕ, Text, Option, none, some, Bool}
use mifos_test.Json.{Json}

-- The exceptions that the code raises itself, and those of what it calls: a failed constraint or
-- an overlong value of the registry, `python_error` for a KeyError, TypeError or AttributeError, `token_error` for an invalid token, `gaierror` for a name that does not resolve,
-- and `external` for psycopg2, requests, Redis and the broker.
pub data Exn : Type 0 where
  value_error runtime_error : Text → Exn
  integrity_error data_error : Text → Exn
  does_not_exist : Exn
  fineract_timeout : Text → Exn
  fineract_api_error : ℕ → Json → Exn
  python_error : Text → Exn
  authentication_error : Text → Text → Exn
  token_error : Text → Exn
  gaierror : Exn
  external : Text → Exn

pub data Result {ℓ} (A : Type ℓ) : Type ℓ where
  ok : A → Result A
  err : Exn → Result A

abbrev pub Exec {ℓ} : Type ℓ → Type ℓ → Type ℓ
Exec S A = S → Result A × S

module _ {ℓ} {S A : Type ℓ} where
  -- A value read off the state, and one that is at hand.
  abbrev pub gets : (S → A) → Exec S A
  gets read state = (ok (read state), state)

  abbrev pub pure : A → Exec S A
  pure value state = (ok value, state)

  abbrev pub raise : Exn → Exec S A
  raise exn state = (err exn, state)

  -- the value of an `Option`, or the exception
  abbrev pub or_raise : Option A → Exn → Exec S A
  or_raise none e = raise e
  or_raise (some a) e = pure a

-- One step of the state, with no result.
abbrev pub modify {ℓ} : {S : Type ℓ} → (S → S) → Exec S Unit
modify f s = (ok tt, f s)

module _ {ℓ} {S A B : Type ℓ} where
  -- The next statement runs if the last one returned.
  abbrev pub continue : Result A → (A → Exec S B) → Exec S B
  continue (err exn) next state = (err exn, state)
  continue (ok value) next state = next value state

  infixl 10 ◌>>=◌ ◌>>◌
  unfoldable pub ◌>>=◌ : Exec S A → (A → Exec S B) → Exec S B
  ◌>>=◌ first next before = let (result, after) = first before in continue result next after

  abbrev pub ◌>>◌ : Exec S A → Exec S B → Exec S B
  first >> next = first >>= λ _. next

module _ {ℓ} {S A : Type ℓ} where
  abbrev pub handle_result : Result A → (Exn → Exec S A) → Exec S A
  handle_result (ok a) h s = (ok a, s)
  handle_result (err e) h s = h e s

  -- `try: m except Exception as exc: h(exc)`
  unfoldable pub catch : Exec S A → (Exn → Exec S A) → Exec S A
  catch m h s = let (r, s') = m s in handle_result r h s'

-- `if b: m`
abbrev pub when {ℓ} : {S : Type ℓ} → Bool → Exec S Unit → Exec S Unit
when Bool.true m s = m s
when Bool.false m s = (ok tt, s)
