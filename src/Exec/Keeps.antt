-- ===== src/Exec/Keeps.antt =====
-- Properties of the state that an action keeps, or establishes, whether it returns or raises.
use mifos_test.Prelude.{Bool, true, false}
use mifos_test.Exec.{
  Exn, Result, ok, err, Exec, pure, raise, gets, modify, ◌>>=◌, continue, catch, handle_result,
  when,
}

module _ {ℓ} {S : Type ℓ} (P : S → Type ℓ) where
  -- `P` holds afterwards if it held before.
  pub record Keeps {A : Type ℓ} (action : Exec S A) : Type ℓ where
    pub kept : (before : S) → P before → P (action before).1

  -- `P` holds afterwards, whatever held before.
  pub record Ensures {A : Type ℓ} (action : Exec S A) : Type ℓ where
    pub after : (before : S) → P (action before).1

module _ {ℓ} {S : Type ℓ} {P : S → Type ℓ} where
  pub Keeps-modify : (f : S → S) → ((s : S) → P s → P (f s)) → Keeps P (modify f)
  Keeps-modify f step = record { kept = step }

  pub Keeps-when : (b : Bool) (m : Exec S (Unit {ℓ})) → Keeps P m → Keeps P (when b m)
  Keeps-when true m k = k
  Keeps-when false m k = record { kept = λ _ holds. holds }

  module _ {A : Type ℓ} where
    pub Ensures-Keeps : (action : Exec S A) → Ensures P action → Keeps P action
    Ensures-Keeps _ always = record { kept = λ before _. always.after before }

    -- A result that is at hand leaves the state alone.
    pub Keeps-gets : (read : S → A) → Keeps P (gets read)
    Keeps-gets _ = record { kept = λ _ holds. holds }

    pub Keeps-pure : (result : A) → Keeps P (pure result)
    Keeps-pure result = Keeps-gets (λ _. result)

    pub Keeps-raise : (e : Exn) → Keeps P (raise {A = A} e)
    Keeps-raise _ = record { kept = λ _ holds. holds }

    handled :
        (r : Result A) (handler : Exn → Exec S A) (s : S)
        → ((e : Exn) → Keeps P (handler e))
        → P s
        → P (handle_result r handler s).1
    handled (ok a) handler s k p = p
    handled (err e) handler s k p = (k e).kept s p

    pub Keeps-catch :
        (guarded : Exec S A) (handler : Exn → Exec S A)
        → Keeps P guarded
        → ((e : Exn) → Keeps P (handler e))
        → Keeps P (catch guarded handler)
    unfolding catch
    Keeps-catch guarded handler inside outside = record {
      kept = λ before p.
          let (r, s) = guarded before in handled r handler s outside (inside.kept before p);
    }

  module _ {A B : Type ℓ} (first : Exec S A) (rest : A → Exec S B) where
    continued :
        (r : Result A) (s : S) → ((a : A) → Keeps P (rest a)) → P s → P (continue r rest s).1
    continued (ok a) s k p = (k a).kept s p
    continued (err e) s k p = p

    pub Ensures-bind : Ensures P first → ((a : A) → Keeps P (rest a)) → Ensures P (first >>= rest)
    unfolding ◌>>=◌
    Ensures-bind always next = record {
      after = λ before. let (r, s) = first before in continued r s next (always.after before);
    }

    pub Keeps-bind : Keeps P first → ((a : A) → Keeps P (rest a)) → Keeps P (first >>= rest)
    unfolding ◌>>=◌
    Keeps-bind begin next = record {
      kept = λ before p. let (r, s) = first before in continued r s next (begin.kept before p);
    }

pub ruleset keeps_rules = (Keeps-pure, Keeps-raise, Keeps-gets, Keeps-catch, Keeps-when, Keeps-bind)
