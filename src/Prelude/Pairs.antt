-- ===== src/Prelude/Pairs.antt =====
-- Lists in which any two items stand in a relation.
use mathlib.Core.Path.{◌≡◌, ◌∙◌, sym, ap}
use mathlib.Core.Logic.{◌≢◌, inl, inr}
use mathlib.Core.Bool.{Bool, false}
use mathlib.Core.Option.{some}
use mathlib.Core.List.{List, [], ◌∷◌, ◌++◌}
use native.Mathlib.Omega.{arith}
use mifos_test.Prelude.Tests.{if◌then◌else◌, Bool-cases}
use mifos_test.Prelude.Lists.{All, All-append, All-find, exists, find, keep, rewrite}

module _ {ℓ κ} {A : Type ℓ} (R : A → A → Type κ) where
  -- Each item stands in the relation to all that come after it.
  abbrev pub Pairwise : List A → Type κ
  Pairwise [] = Unit
  Pairwise (x ∷ xs) = All (R x) xs × Pairwise xs

  -- A new item at the end, where a test that the rest fails gives the relation to it.
  pub Pairwise-append :
      (p : A → Bool) (x : A) (xs : List A)
      → ((y : A) → p y ≡ false → R y x)
      → exists p xs ≡ false
      → Pairwise xs
      → Pairwise (xs ++ x ∷ [])
  Pairwise-append p x [] f fails h = (tt, tt)
  Pairwise-append p x (y ∷ xs) f fails (first, rest) = (
    All-append (R y) xs (x ∷ []) first (f y (ground (arith, fails)), tt),
    Pairwise-append p x xs f (ground (arith, fails)) rest,
  )

  module _ (p : A → Bool) (f : A → A) where
    -- An item as `rewrite p f` leaves it.
    abbrev pub rewritten : A → A
    rewritten x = if p x then f x else x

    all_rewritten :
        (x : A) (xs : List A)
        → ((y : A) → R x y → R (rewritten x) (rewritten y))
        → All (R x) xs
        → All (R (rewritten x)) (rewrite p f xs)
    all_rewritten x [] g h = tt
    all_rewritten x (y ∷ xs) g (first, rest) = (g y first, all_rewritten x xs g rest)

    pub Pairwise-rewrite :
        (xs : List A)
        → ((x y : A) → R x y → R (rewritten x) (rewritten y))
        → Pairwise xs
        → Pairwise (rewrite p f xs)
    Pairwise-rewrite [] g h = tt
    Pairwise-rewrite (x ∷ xs) g (first, rest) =
        (all_rewritten x xs (g x) first, Pairwise-rewrite xs g rest)

  module _ (p : A → Bool) where
    all_kept : (x : A) (xs : List A) → All (R x) xs → All (R x) (keep p xs)
    all_kept x [] h = tt
    all_kept x (y ∷ xs) (first, rest) = elim (Bool-cases (p y)) [
      | inl hit ↦ rw hit (first, all_kept x xs rest)
      | inr miss ↦ rw miss (all_kept x xs rest)
    ]

    pub Pairwise-keep : (xs : List A) → Pairwise xs → Pairwise (keep p xs)
    Pairwise-keep [] h = tt
    Pairwise-keep (x ∷ xs) (first, rest) = elim (Bool-cases (p x)) [
      | inl hit ↦ rw hit (all_kept x xs first, Pairwise-keep xs rest)
      | inr miss ↦ rw miss (Pairwise-keep xs rest)
    ]

module _ {ℓ κ μ} {A : Type ℓ} (P : A → Type κ) (Q : A → Type μ) where
  pub All-weaken : (xs : List A) → ((x : A) → P x → Q x) → All P xs → All Q xs
  All-weaken [] f h = tt
  All-weaken (x ∷ xs) f (first, rest) = (f x first, All-weaken xs f rest)

-- Where the keys differ, the item that a search finds is the only one with its key.
module _ {ℓ κ} {A : Type ℓ} {K : Type κ} (key : A → K) where
  abbrev pub Differ : A → A → Type κ
  Differ x y = key x ≢ key y

  pub find-only :
      (p : A → Bool) (xs : List A) (x : A)
      → Pairwise Differ xs
      → find p xs ≡ some x
      → All (λ y. key y ≡ key x → y ≡ x) xs
  find-only p [] x h e = tt
  find-only p (y ∷ xs) x (first, rest) e = elim (Bool-cases (p y)) [
    | inl hit ↦
        let same : y ≡ x = ground (arith, hit, e) in
        (
          λ _. same,
          All-weaken (Differ y) (λ z. key z ≡ key x → z ≡ x) xs
              (λ z differs k. absurd (differs (ap key same ∙ sym k))) first,
        )
    | inr miss ↦
        let found : find p xs ≡ some x = ground (arith, miss, e) in
        (λ k. absurd (All-find (Differ y) p xs x first found k), find-only p xs x rest found)
  ]
