-- ===== src/Prelude/Sorting.antt =====
-- `order_by("-key")`: the rows by falling key, those with the same key in their old order.
use Prim.Native.Nat.{ℕ, ◌≤◌}
use mathlib.Core.Path.{◌≡◌, refl, sym, subst}
use mathlib.Core.Logic.{◌⊎◌, inl, inr}
use mathlib.Core.Bool.{Bool, true, false}
use mathlib.Core.Option.{none, some}
use mathlib.Core.List.{List, [], ◌∷◌}
use native.Mathlib.Omega.{arith}
use mifos_test.Prelude.Tests.{leb, if◌then◌else◌, Bool-cases}
use mifos_test.Prelude.Lists.{All, find, exists, keep}
use mifos_test.Prelude.Pairs.{Pairwise, All-weaken}

-- One of the rows.
abbrev pub Among : {A : Type 0} → A → List A → Type 0
Among x [] = ⊥
Among x (y ∷ ys) = (y ≡ x) ⊎ Among x ys

pub All-Among {κ} :
    {A : Type 0} (P : A → Type κ) (xs : List A) (x : A) → All P xs → Among x xs → P x
All-Among P [] x h m = absurd m
All-Among P (y ∷ ys) x (p, h) (inl e) = subst P e p
All-Among P (y ∷ ys) x (p, h) (inr m) = All-Among P ys x h m

pub All-self : {A : Type 0} (xs : List A) → All (λ x. Among x xs) xs
All-self [] = tt
All-self (x ∷ xs) =
    (inl refl, All-weaken (λ y. Among y xs) (λ y. Among y (x ∷ xs)) xs (λ y m. inr m) (All-self xs))

module _ {ℓ} {A : Type ℓ} (key : A → ℕ) where
  unfoldable place : A → List A → List A
  place x [] = x ∷ []
  place x (y ∷ ys) = let rest = place x ys in if leb (key y) (key x) then x ∷ y ∷ ys else y ∷ rest

  unfoldable pub falling : List A → List A
  unfolding place
  falling [] = []
  falling (x ∷ xs) = place x (falling xs)

  abbrev pub NotAfter : A → A → Type 0
  NotAfter x y = key y ≤ key x

  module _ {κ} (P : A → Type κ) where
    All-place : (x : A) (ys : List A) → P x → All P ys → All P (place x ys)
    unfolding place
    All-place x [] p h = (p, tt)
    All-place x (y ∷ ys) p (q, h) = elim (Bool-cases (leb (key y) (key x))) [
      | inl e ↦ rw e (p, (q, h))
      | inr e ↦ rw e (q, All-place x ys p h)
    ]

    All_of_place : (x : A) (ys : List A) → All P (place x ys) → P x × All P ys
    unfolding place
    All_of_place x [] h = h
    All_of_place x (y ∷ ys) h = elim (Bool-cases (leb (key y) (key x))) [
      | inl e ↦ rw e at h
      | inr e ↦ let (q, rest) = rw e at h in let (p, r) = All_of_place x ys rest in (p, (q, r))
    ]

    pub All-falling : (xs : List A) → All P xs → All P (falling xs)
    unfolding falling
    All-falling [] h = tt
    All-falling (x ∷ xs) (p, h) = All-place x (falling xs) p (All-falling xs h)

    pub All_of_falling : (xs : List A) → All P (falling xs) → All P xs
    unfolding falling
    All_of_falling [] h = tt
    All_of_falling (x ∷ xs) h =
        let (p, rest) = All_of_place x (falling xs) h in (p, All_of_falling xs rest)

  Pairwise-place : (x : A) (ys : List A) → Pairwise NotAfter ys → Pairwise NotAfter (place x ys)
  unfolding place
  Pairwise-place x [] h = (tt, tt)
  Pairwise-place x (y ∷ ys) (first, rest) = elim (Bool-cases (leb (key y) (key x))) [
    | inl e ↦
        let before : key y ≤ key x = ground (arith, e) in
        rw e (
          (
            before,
            All-weaken (NotAfter y) (NotAfter x) ys (λ z h. ground (arith, h, before)) first,
          ),
          (first, rest),
        )
    | inr e ↦ rw e (All-place (NotAfter y) x ys (ground (arith, e)) first, Pairwise-place x ys rest)
  ]

  pub falling-Pairwise : (xs : List A) → Pairwise NotAfter (falling xs)
  unfolding falling
  falling-Pairwise [] = tt
  falling-Pairwise (x ∷ xs) = Pairwise-place x (falling xs) (falling-Pairwise xs)

  -- In falling order, the first row that passes a test has the largest key of those that pass.
  pub find-largest :
      (p : A → Bool) (xs : List A) (x : A)
      → Pairwise NotAfter xs
      → find p xs ≡ some x
      → All (λ y. p y ≡ true → key y ≤ key x) xs
  find-largest p [] x h e = tt
  find-largest p (y ∷ ys) x (first, rest) e = elim (Bool-cases (p y)) [
    | inl hit ↦
        let same : y ≡ x = ground (arith, hit, e) in
        subst (λ z. All (λ w. p w ≡ true → key w ≤ key z) (y ∷ ys)) same
          (
            λ _. ground arith,
            All-weaken (NotAfter y) (λ w. p w ≡ true → key w ≤ key y) ys (λ _ h _. h) first,
          )
    | inr miss ↦
        let found : find p ys ≡ some x = ground (arith, miss, e) in
        (λ hit. absurd (ground (arith, hit, miss)), find-largest p ys x rest found)
  ]

pub find-Among : {A : Type 0} (p : A → Bool) (xs : List A) (x : A) → find p xs ≡ some x → Among x xs
find-Among p [] x e = absurd (ground (arith, e))
find-Among p (y ∷ ys) x e = elim (Bool-cases (p y)) [
  | inl hit ↦ inl (ground (arith, hit, e))
  | inr miss ↦ inr (find-Among p ys x (ground (arith, miss, e)))
]

-- If no row is found, none passes.
pub find-none {ℓ} :
    {A : Type ℓ} (p : A → Bool) (xs : List A) → find p xs ≡ none → All (λ x. p x ≡ true → ⊥) xs
find-none p [] e = tt
find-none p (y ∷ ys) e = (λ hit. ground (arith, hit, e), find-none p ys (ground (arith, e)))

pub Among-exists :
    {A : Type 0} (p : A → Bool) (xs : List A) (x : A) → Among x xs → p x ≡ true → exists p xs ≡ true
Among-exists p [] x m hit = absurd m
Among-exists p (y ∷ ys) x (inl same) hit =
    let here : p y ≡ true = subst (λ z. p z ≡ true) (sym same) hit in ground (arith, here)
Among-exists p (y ∷ ys) x (inr m) hit = ground (arith, Among-exists p ys x m hit)

module _ {ℓ κ} {A : Type ℓ} (P : A → Type κ) (p : A → Bool) where
  pub All-keep : (xs : List A) → All P xs → All P (keep p xs)
  All-keep [] h = tt
  All-keep (x ∷ xs) (q, h) = elim (Bool-cases (p x)) [
    | inl hit ↦ rw hit (q, All-keep xs h)
    | inr miss ↦ rw miss (All-keep xs h)
  ]

  -- What the rows that are kept have, and those that are dropped, all have.
  pub All_of_keep : (xs : List A) → ((x : A) → p x ≡ false → P x) → All P (keep p xs) → All P xs
  All_of_keep [] dropped h = tt
  All_of_keep (x ∷ xs) dropped h = elim (Bool-cases (p x)) [
    | inl hit ↦ let (q, rest) = rw hit at h in (q, All_of_keep xs dropped rest)
    | inr miss ↦ (dropped x miss, All_of_keep xs dropped (rw miss at h))
  ]
