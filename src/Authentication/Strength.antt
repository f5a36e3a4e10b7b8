-- ===== src/Authentication/Strength.antt =====
-- Which passwords the strength check refuses.
use mathlib.Core.List.{Memᴰ}
use mifos_test.Prelude.{
  ℕ, zero, suc, Bool, true, false, not, none, some, List, [], ◌∷◌, Text, ◌==◌, length, exists,
  contains, lower, if◌then◌else◌, ◌≡◌, ◌≢◌, refl, ◌⊎◌, inl, inr, arith, Bool-cases, ap, ◌↔◌, sym,
  subst,
}
use mifos_test.Authentication.Passwords.{
  Weakness, sequential_patterns, is_repeated, chunks, backwards, is_sequential, has_chunk,
  is_predictable, validate,
}
use mifos_test.Authentication.Sequences.{
  StandsIn, contains-infix, contains-StandsIn, exists-chunks, exists-Chunk,
}

-- `c` and nothing else, `n` times.
abbrev pub copies : ℕ → ℕ → Text
copies zero c = []
copies (suc n) c = c ∷ copies n c

-- One character, not a newline, two times or more.
abbrev pub IsRepeated : Text → Type 0
IsRepeated password = (c n : ℕ) × (c ≢ 10) × (password ≡ copies (suc (suc n)) c)

-- Four characters in a row of a keyboard line, of the alphabet or of the digits, forwards or
-- backwards, in either case.
pub record Predictable (password : Text) : Type 0 where
  pub pattern : Text
  pub listed : Memᴰ pattern sequential_patterns
  pub part : Text
  pub within : StandsIn part pattern
  pub four : length part ≡ 4
  pub hit : StandsIn part (lower password) ⊎ StandsIn (backwards part) (lower password)

module _ {ℓ} {A : Type ℓ} (q : A → Bool) where
  exists-Mem : (xs : List A) → exists q xs ≡ true → (x : A) × Memᴰ x xs × (q x ≡ true)
  exists-Mem [] h = absurd (ground (arith, h))
  exists-Mem (x ∷ xs) h = elim (Bool-cases (q x)) [
    | inl e ↦ (x, Memᴰ.head refl, e)
    | inr e ↦
        let (y, listed, passes) = exists-Mem xs (ground (arith, h, e)) in
        (y, Memᴰ.tail listed, passes)
  ]

  Mem-exists : (xs : List A) (x : A) → Memᴰ x xs → q x ≡ true → exists q xs ≡ true
  Mem-exists [] x listed h = elim listed [ ]
  Mem-exists (y ∷ xs) x (Memᴰ.head same) h = ground (arith, subst (λ z. q z ≡ true) same h)
  Mem-exists (y ∷ xs) x (Memᴰ.tail rest) h = ground (arith, Mem-exists xs x rest h)

exists-copies : (n c : ℕ) → exists (λ x. not (x == c)) (copies n c) ≡ false
exists-copies zero c = refl
exists-copies (suc n) c = ground (arith, exists-copies n c)

copies_of_same : (c : ℕ) (s : Text) → exists (λ x. not (x == c)) s ≡ false → s ≡ copies (length s) c
copies_of_same c [] h = refl
copies_of_same c (d ∷ s) h =
    let same : d ≡ c = ground (arith, h) in
    rw same (ap (λ t. c ∷ t) (copies_of_same c s (ground (arith, h))))

is_repeated-IsRepeated : (password : Text) → is_repeated password ≡ true → IsRepeated password
unfolding is_repeated
is_repeated-IsRepeated [] h = absurd (ground (arith, h))
is_repeated-IsRepeated (c ∷ []) h = absurd (ground (arith, h))
is_repeated-IsRepeated (c ∷ d ∷ s) h =
    let same : d ≡ c = ground (arith, h) in
    (c, length s, ground (arith, h), ap (λ t. c ∷ t) (copies_of_same c (d ∷ s) (ground (arith, h))))

copies-repeated : (c n : ℕ) → c ≢ 10 → is_repeated (copies (suc (suc n)) c) ≡ true
unfolding is_repeated
copies-repeated c n other = ground (arith, other, exists-copies n c)

is_repeated_iff : (password : Text) → (is_repeated password ≡ true) ↔ IsRepeated password
is_repeated_iff password =
    (is_repeated-IsRepeated password, λ (c, n, other, same). rw same (copies-repeated c n other))

sequential_hit :
    (lowered part : Text)
    → is_sequential lowered part ≡ true
    → StandsIn part lowered ⊎ StandsIn (backwards part) lowered
unfolding is_sequential
sequential_hit lowered part h = elim (Bool-cases (contains lowered part)) [
  | inl e ↦ inl (contains-StandsIn lowered part e)
  | inr e ↦ inr (contains-StandsIn lowered (backwards part) (ground (arith, h, e)))
]

hit_sequential :
    (lowered part : Text)
    → StandsIn part lowered ⊎ StandsIn (backwards part) lowered
    → is_sequential lowered part ≡ true
unfolding is_sequential
hit_sequential lowered part (inl w) =
    let found : contains lowered part ≡ true =
      subst (λ t. contains t part ≡ true) (sym w.around) (contains-infix w.left part w.right) in
    ground (arith, found)
hit_sequential lowered part (inr w) =
    let found : contains lowered (backwards part) ≡ true =
      subst (λ t. contains t (backwards part) ≡ true) (sym w.around)
        (contains-infix w.left (backwards part) w.right) in
    ground (arith, found)

is_predictable_iff :
    (password : Text) → (is_predictable (lower password) ≡ true) ↔ Predictable password
unfolding is_predictable has_chunk
is_predictable_iff password =
    let s = lower password in
    (
      λ h.
          let (pattern, listed, some_chunk) = exists-Mem (has_chunk s) sequential_patterns h in
          let c = exists-Chunk (is_sequential s) pattern some_chunk in
          record {
            pattern = pattern;
            listed = listed;
            part = c.part;
            within = c.within;
            four = c.four;
            hit = sequential_hit s c.part c.passes;
          },
      λ p. Mem-exists (has_chunk s) sequential_patterns p.pattern p.listed (
          subst (λ t. exists (is_sequential s) (chunks t) ≡ true) (sym p.within.around)
            (exists-chunks (is_sequential s) p.within.left p.part p.within.right p.four
              (hit_sequential s p.part p.hit))),
    )

-- What two tests in a row report, by what they decide.
module _ {R S : Type 0} where
  verdicts :
      (a b : Bool)
      → (a ≡ true) ↔ R
      → (b ≡ true) ↔ S
      → let result =
          if a
          then some Weakness.password_repeated
          else if b
          then some Weakness.password_sequential
          else none in
        ((result ≡ none) ↔ ((¬ R) × (¬ S)))
        × ((result ≡ some Weakness.password_repeated) ↔ R)
        × ((result ≡ some Weakness.password_sequential) ↔ ((¬ R) × S))
  verdicts true b f g = ground (arith, f, g)
  verdicts false true f g = ground (arith, f, g)
  verdicts false false f g = ground (arith, f, g)

-- The strength check accepts the passwords that are neither one repeated character nor contain
-- four characters in a row of a known sequence, forwards or backwards, and those alone; of the
-- others it reports one repeated character as that, and the rest as a sequence.
pub validate_iff :
    (password : Text)
    → ((validate password ≡ none) ↔ ((¬ IsRepeated password) × (¬ Predictable password)))
      × ((validate password ≡ some Weakness.password_repeated) ↔ IsRepeated password)
      × ((validate password ≡ some Weakness.password_sequential)
          ↔ ((¬ IsRepeated password) × Predictable password))
unfolding validate
validate_iff password =
    verdicts (is_repeated password) (is_predictable (lower password)) (is_repeated_iff password)
      (is_predictable_iff password)
