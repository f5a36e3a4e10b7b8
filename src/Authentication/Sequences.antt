-- ===== src/Authentication/Sequences.antt =====
-- Parts of a text, and the chunks of a pattern.
use mifos_test.Prelude.{
  ℕ, zero, suc, ◌≤◌, length-append, Bool, true, ◌&&◌, [], ◌∷◌, Text, leb, length, take, exists,
  contains, starts_with, starts_with-append, ◌++◌, ◌≡◌, refl, inl, inr, arith, Bool-cases, ap,
}
use mifos_test.Authentication.Passwords.{chunks}

contains_start : (s part : Text) → starts_with s part ≡ true → contains s part ≡ true
unfolding contains
contains_start [] part h = h
contains_start (c ∷ s) part h = rw h refl

pub contains-infix : (x part y : Text) → contains (x ++ part ++ y) part ≡ true
unfolding contains
contains-infix [] part y = contains_start (part ++ y) part (starts_with-append part y)
contains-infix (c ∷ x) part y = ground (arith, contains-infix x part y)

-- A text stands in another.
pub record StandsIn (part s : Text) : Type 0 where
  pub left : Text
  pub right : Text
  pub around : s ≡ left ++ part ++ right

starts_with-Rest : (s part : Text) → starts_with s part ≡ true → (y : Text) × (s ≡ part ++ y)
unfolding starts_with
starts_with-Rest s [] h = (s, refl)
starts_with-Rest [] (d ∷ part) h = absurd (ground (arith, h))
starts_with-Rest (c ∷ s) (d ∷ part) h =
    let (y, same) = starts_with-Rest s part (ground (arith, h)) in
    let head : c ≡ d = ground (arith, h) in (y, (rw (head, same) refl))

pub contains-StandsIn : (s part : Text) → contains s part ≡ true → StandsIn part s
unfolding contains
contains-StandsIn [] part h =
    let (y, same) = starts_with-Rest [] part h in record { left = []; right = y; around = same }
contains-StandsIn (c ∷ s) part h = elim (Bool-cases (starts_with (c ∷ s) part)) [
  | inl e ↦
      let (y, same) = starts_with-Rest (c ∷ s) part e in
      record { left = []; right = y; around = same }
  | inr e ↦
      let inner = contains-StandsIn s part (ground (arith, h, e)) in
      record { left = c ∷ inner.left; right = inner.right; around = ap (λ t. c ∷ t) inner.around }
]

take-append : (n : ℕ) (part b : Text) → length part ≡ n → take n (part ++ b) ≡ part
take-append zero [] b h = refl
take-append zero (c ∷ part) b h = absurd (omega (arith, h))
take-append (suc n) [] b h = absurd (omega (arith, h))
take-append (suc n) (c ∷ part) b h = ap (λ t. c ∷ t) (take-append n part b (omega (arith, h)))

chunks-start :
    (p : Text → Bool) (part b : Text)
    → length part ≡ 4
    → p part ≡ true
    → exists p (chunks (part ++ b)) ≡ true
unfolding chunks
chunks-start p [] b four h = absurd (omega (arith, four))
chunks-start p (c ∷ part) b four h =
    let long : 4 ≤ length (c ∷ part ++ b) = omega (arith, four, length-append part b) in
    let first : take 4 (c ∷ part ++ b) ≡ c ∷ part = take-append 4 (c ∷ part) b four in
    let fits : leb 4 (length (c ∷ part ++ b)) ≡ true = ground (arith, long) in
    rw (fits, first, h) refl

pub exists-chunks :
    (p : Text → Bool) (a part b : Text)
    → length part ≡ 4
    → p part ≡ true
    → exists p (chunks (a ++ part ++ b)) ≡ true
unfolding chunks
exists-chunks p [] part b four h = chunks-start p part b four h
exists-chunks p (c ∷ a) part b four h = ground (arith, exists-chunks p a part b four h)

take-split :
    (n : ℕ) (s : Text) → n ≤ length s → (b : Text) × (s ≡ take n s ++ b) × (length (take n s) ≡ n)
take-split zero s h = (s, refl, refl)
take-split (suc n) [] h = absurd (omega (arith, h))
take-split (suc n) (c ∷ s) h =
    let (b, same, long) = take-split n s (omega (arith, h)) in
    (b, ap (λ t. c ∷ t) same, omega (arith, long))

-- A part of four characters of a pattern that passes a test.
pub record Chunk (p : Text → Bool) (s : Text) : Type 0 where
  pub part : Text
  pub within : StandsIn part s
  pub four : length part ≡ 4
  pub passes : p part ≡ true

pub exists-Chunk : (p : Text → Bool) (s : Text) → exists p (chunks s) ≡ true → Chunk p s
unfolding chunks
exists-Chunk p [] h = absurd (ground (arith, h))
exists-Chunk p (c ∷ s) h = elim (Bool-cases (leb 4 (length (c ∷ s)) && p (take 4 (c ∷ s)))) [
  | inl e ↦
      let (b, same, long) = take-split 4 (c ∷ s) (ground (arith, e)) in
      record {
        part = take 4 (c ∷ s);
        within = record { left = []; right = b; around = same };
        four = long;
        passes = ground (arith, e);
      }
  | inr e ↦
      let later = exists-Chunk p s (ground (arith, e, h)) in
      record {
        part = later.part;
        within = record {
          left = c ∷ later.within.left;
          right = later.within.right;
          around = ap (λ t. c ∷ t) later.within.around;
        };
        four = later.four;
        passes = later.passes;
      }
]
