-- ===== src/Exec/Post.antt =====
-- What a run of an action has established, by how it ended: one rule for each way to build an
-- action.
use mifos_test.Exec.{Exn, Result, ok, err, Exec, raise, ◌>>=◌, continue, catch, handle_result}

-- `Q` at a value that was returned, `E` at an exception that was raised.
abbrev pub Post {ℓ} : {S A : Type ℓ} → Result A × S → (A → S → Type ℓ) → (Exn → S → Type ℓ) → Type ℓ
Post (ok a, s) Q E = Q a s
Post (err e, s) Q E = E e s

module _ {ℓ} {S A B : Type ℓ} (Q : B → S → Type ℓ) (E : Exn → S → Type ℓ) where
  Post-continue :
      (r : Result A) (s : S) (f : A → Exec S B)
      → Post (r, s) (λ a s'. Post (f a s') Q E) E
      → Post (continue r f s) Q E
  Post-continue (ok a) s f h = h
  Post-continue (err e) s f h = h

  pub Post-bind :
      (m : Exec S A) (f : A → Exec S B) (s : S)
      → Post (m s) (λ a s'. Post (f a s') Q E) E
      → Post ((m >>= f) s) Q E
  unfolding ◌>>=◌
  Post-bind m f s h = let (r, s') = m s in Post-continue r s' f h

module _ {ℓ} {S A : Type ℓ} (Q : A → S → Type ℓ) (E : Exn → S → Type ℓ) where
  Post-handle :
      (r : Result A) (s : S) (h : Exn → Exec S A)
      → Post (r, s) Q (λ e s'. Post (h e s') Q E)
      → Post (handle_result r h s) Q E
  Post-handle (ok a) s h p = p
  Post-handle (err e) s h p = p

  pub Post-catch :
      (m : Exec S A) (h : Exn → Exec S A) (s : S)
      → Post (m s) Q (λ e s'. Post (h e s') Q E)
      → Post (catch m h s) Q E
  unfolding catch
  Post-catch m h s p = let (r, s') = m s in Post-handle r s' h p

module _ {ℓ} {S A : Type ℓ} (Q R : A → S → Type ℓ) (E F : Exn → S → Type ℓ) where
  -- A weaker postcondition holds too.
  pub Post-weaken :
      (r : Result A) (s : S)
      → ((a : A) (t : S) → Q a t → R a t)
      → ((e : Exn) (t : S) → E e t → F e t)
      → Post (r, s) Q E
      → Post (r, s) R F
  Post-weaken (ok a) s f g h = f a s h
  Post-weaken (err e) s f g h = g e s h

-- A property of what the last action returns does not depend on how the state came about.
pub Post-then {ℓ} :
    {S A B : Type ℓ} (Q : B → S → Type ℓ) (m : Exec S A) (f : A → Exec S B)
    → ((a : A) (t : S) → Post (f a t) Q (λ _ _. Unit))
    → (s : S) → Post ((m >>= f) s) Q (λ _ _. Unit)
Post-then {S} {A} Q m f last s = Post-bind Q (λ _ _. Unit) m f s (all (m s))
  where
    all : (r : Result A × S) → Post r (λ a t. Post (f a t) Q (λ _ _. Unit)) (λ _ _. Unit)
    all (ok a, t) = last a t
    all (err e, t) = tt

-- What holds at the end whatever the outcome can be added to a postcondition.
pub Post-and {ℓ} :
    {S A : Type ℓ} (Q : A → S → Type ℓ) (E F : Exn → S → Type ℓ) (P : S → Type ℓ) (r : Result A × S)
    → P r.1
    → ((e : Exn) (t : S) → E e t → P t → F e t)
    → Post r Q E
    → Post r Q F
Post-and Q E F P (ok a, t) p f h = h
Post-and Q E F P (err e, t) p f h = f e t h p

module _ {S A : Type 0} (B : Type 0) (P : S → Type 0) (e : Exn) where
  Post-continue-raise :
      (r : Result A) (s : S)
      → P s
      → Post (continue r (λ _. raise {A = B} e) s) (λ _ _. ⊥) (λ _ t. P t)
  Post-continue-raise (ok a) s h = h
  Post-continue-raise (err d) s h = h

  -- What an action leaves holds when an exception is raised after it, which ends the run.
  pub Post-raise :
      (m : Exec S A) (s : S)
      → P (m s).1
      → Post ((m >>= λ _. raise {A = B} e) s) (λ _ _. ⊥) (λ _ t. P t)
  unfolding ◌>>=◌
  Post-raise m s h = let (r, s') = m s in Post-continue-raise r s' h

-- A property of the state alone, however the action ended.
pub Post-of_state {ℓ} :
    {S A : Type ℓ} (Q : A → S → Type ℓ) (E : Exn → S → Type ℓ) (P : S → Type ℓ) (r : Result A × S)
    → ((a : A) (t : S) → P t → Q a t)
    → ((e : Exn) (t : S) → P t → E e t)
    → P r.1
    → Post r Q E
Post-of_state Q E P (ok a, t) f g h = f a t h
Post-of_state Q E P (err e, t) f g h = g e t h
