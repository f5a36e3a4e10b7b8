-- ===== src/Prelude/Lists.antt =====
-- Lists measured by native numbers, Boolean filters, and predicates on every item.
use Prim.Native.Nat.{ℕ, zero, suc, ◌+◌, ◌≤◌}
use mathlib.Core.Path.{◌≡◌, refl, ap, subst}
use mathlib.Core.Bool.{Bool, true, false, not, ◌||◌}
use mathlib.Core.Option.{Option, none, some}
use mathlib.Core.List.{List, [], ◌∷◌, ◌++◌}
use native.Mathlib.Omega.{arith}
use mathlib.Core.Logic.{inl, inr}
use mifos_test.Prelude.Tests.{if◌then◌else◌, Bool-cases}

module _ {ℓ} {A : Type ℓ} where
  abbrev pub length : List A → ℕ
  length [] = 0
  length (x ∷ xs) = suc (length xs)

  abbrev pub take : ℕ → List A → List A
  take zero xs = []
  take (suc n) [] = []
  take (suc n) (x ∷ xs) = x ∷ take n xs

  pub length-append : (xs ys : List A) → length (xs ++ ys) ≡ length xs + length ys
  length-append [] ys = omega arith
  length-append (x ∷ xs) ys = omega (arith, length-append xs ys)

  pub length-take-le : (n : ℕ) (xs : List A) → length (take n xs) ≤ n
  length-take-le zero xs = omega arith
  length-take-le (suc n) [] = omega arith
  length-take-le (suc n) (x ∷ xs) = omega (arith, length-take-le n xs)

  pub take_of_short : (n : ℕ) (xs : List A) → length xs ≤ n → take n xs ≡ xs
  take_of_short zero [] h = refl
  take_of_short zero (x ∷ xs) h = absurd (omega arith)
  take_of_short (suc n) [] h = refl
  take_of_short (suc n) (x ∷ xs) h = ap (λ t. x ∷ t) (take_of_short n xs (omega arith))

  -- The rows that pass a test, in order.
  abbrev pub keep : (A → Bool) → List A → List A
  keep p [] = []
  keep p (x ∷ xs) = if p x then x ∷ keep p xs else keep p xs

  -- `.filter(…).first()`
  abbrev pub find : (A → Bool) → List A → Option A
  find p [] = none
  find p (x ∷ xs) = if p x then some x else find p xs

  -- `.filter(…).exists()`
  abbrev pub exists : (A → Bool) → List A → Bool
  exists p [] = false
  exists p (x ∷ xs) = p x || exists p xs

  -- `.filter(…).update(…)`: the rows that pass are rewritten in place.
  abbrev pub rewrite : (A → Bool) → (A → A) → List A → List A
  rewrite p f [] = []
  rewrite p f (x ∷ xs) = (if p x then f x else x) ∷ rewrite p f xs

  pub exists-append :
      (p : A → Bool) (xs ys : List A) → exists p (xs ++ ys) ≡ (exists p xs || exists p ys)
  exists-append p [] ys = refl
  exists-append p (x ∷ xs) ys = ground (arith, exists-append p xs ys)

  -- An update that does not change a test commutes with the filter.
  pub keep-rewrite :
      (p q : A → Bool) (f : A → A) (xs : List A)
      → ((x : A) → p (f x) ≡ p x)
      → keep p (rewrite q f xs) ≡ rewrite q f (keep p xs)
  keep-rewrite p q f [] h = refl
  keep-rewrite p q f (x ∷ xs) h = ground (arith, h x, keep-rewrite p q f xs h)

  -- The first row that passes, after rows were added, and after it was rewritten.
  pub find-append :
      (p : A → Bool) (xs ys : List A) (x : A) → find p xs ≡ some x → find p (xs ++ ys) ≡ some x
  find-append p [] ys x h = cc
  find-append p (y ∷ xs) ys x h = ground (arith, find-append p xs ys x)

  pub find-rewrite :
      (p q : A → Bool) (f : A → A) (xs : List A) (x : A)
      → ((y : A) → p (f y) ≡ p y)
      → q x ≡ true
      → find p xs ≡ some x
      → find p (rewrite q f xs) ≡ some (f x)
  find-rewrite p q f [] x same hit h = cc
  find-rewrite p q f (y ∷ xs) x same hit h =
      ground (arith, same y, find-rewrite p q f xs x same hit)

  -- A row that a filter leaves passes its test.
  pub keep_passes : (p : A → Bool) (xs ys : List A) (x : A) → keep p xs ≡ x ∷ ys → p x ≡ true
  keep_passes p [] ys x h = cc
  keep_passes p (y ∷ xs) ys x h = ground (arith, keep_passes p xs ys x)

  pub find_of_exists_false : (p : A → Bool) (xs : List A) → exists p xs ≡ false → find p xs ≡ none
  find_of_exists_false p [] h = refl
  find_of_exists_false p (x ∷ xs) h = ground (arith, find_of_exists_false p xs)

  pub find_passes : (p : A → Bool) (xs : List A) (x : A) → find p xs ≡ some x → p x ≡ true
  find_passes p [] x h = cc
  find_passes p (y ∷ xs) x h = ground (arith, find_passes p xs x)

  pub exists-keep-not : (p : A → Bool) (xs : List A) → exists p (keep (λ x. not (p x)) xs) ≡ false
  exists-keep-not p [] = refl
  exists-keep-not p (x ∷ xs) = ground (arith, exists-keep-not p xs)

module _ {ℓ κ} {A : Type ℓ} (P : A → Type κ) where
  abbrev pub All : List A → Type κ
  All [] = Unit
  All (x ∷ xs) = P x × All xs

  pub All-append : (xs ys : List A) → All xs → All ys → All (xs ++ ys)
  All-append [] ys h k = k
  All-append (x ∷ xs) ys (p, h) k = (p, All-append xs ys h k)

  -- Every row has `P` after an update that gives `P` to the rows it rewrites.
  pub All-rewrite :
      (p : A → Bool) (f : A → A)
      → ((x : A) → p x ≡ true → P (f x))
      → ((x : A) → p x ≡ false → P x)
      → (xs : List A) → All (rewrite p f xs)
  All-rewrite p f hit miss [] = tt
  All-rewrite p f hit miss (x ∷ xs) = elim (Bool-cases (p x)) [
    | inl e ↦ rw e (hit x e, All-rewrite p f hit miss xs)
    | inr e ↦ rw e (miss x e, All-rewrite p f hit miss xs)
  ]

  -- What every row has, the first row that passes a test has.
  pub All-find : (p : A → Bool) (xs : List A) (x : A) → All xs → find p xs ≡ some x → P x
  All-find p [] x h e = cc
  All-find p (y ∷ xs) x (q, h) e = of_test (p y) e (All-find p xs x h)
    where
      of_test :
          (b : Bool) → (if b then some y else find p xs) ≡ some x → (find p xs ≡ some x → P x) → P x
      of_test true e _ = subst P (cc e) q
      of_test false e rest = rest e
