-- ===== src/Organizations/Termination.antt =====
-- The search for a tenant code ends, and ends with a code that is free.
use mifos_test.Prelude.{
  ℕ, zero, suc, ◌+◌, ◌-◌, ◌*◌, ◌/◌, ◌%◌, ◌≤◌, ◌<◌, true, false, not, none, some, List, [], ◌∷◌,
  ◌++◌, ◌≡◌, ◌≢◌, inl, inr, refl, sym, ap, subst, ◌∙◌, arith, Text, ltb, length, length-append,
  same_text, same_text_iff, exists, keep, Bool-cases,
}
use mifos_test.Models.{Tenant}
use mifos_test.Organizations.Codes.{
  digits, decimal, first_free, base_code, codes_of, suggest_tenant_code,
}

-- The number that digits stand for.
abbrev read : ℕ → Text → ℕ
read acc [] = acc
read acc (c ∷ cs) = read (acc * 10 + (c - 48)) cs

read-append : (acc : ℕ) (xs : Text) (d : ℕ) → read acc (xs ++ d ∷ []) ≡ read acc xs * 10 + (d - 48)
read-append acc [] d = refl
read-append acc (x ∷ xs) d = read-append (acc * 10 + (x - 48)) xs d

read-digits : (fuel n : ℕ) → n < fuel → read 0 (digits fuel n) ≡ n
unfolding digits
read-digits zero n h = absurd (omega arith)
read-digits (suc fuel) n h = elim (Bool-cases (ltb n 10)) [
  | inl one ↦ rw one (omega arith)
  | inr more ↦
      let big : 10 ≤ n = ground (arith, more) in
      let rest = read-digits fuel (n / 10) (omega (arith, big, h)) in
      rw (more, read-append 0 (digits fuel (n / 10)) (48 + n % 10), rest) (omega arith)
]

decimal-injective : (m n : ℕ) → decimal m ≡ decimal n → m ≡ n
decimal-injective m n e =
    sym (read-digits (suc m) m (omega arith)) ∙ ap (read 0) e ∙ read-digits (suc n) n (omega arith)

append-cancel : (b x y : Text) → b ++ x ≡ b ++ y → x ≡ y
append-cancel [] x y e = e
append-cancel (c ∷ b) x y e = append-cancel b x y (cc e)

-- The codes that the loop tries from some suffix on.
abbrev try : Text → ℕ → Text
try base suffix = base ++ decimal suffix

try-injective : (base : Text) (m n : ℕ) → try base m ≡ try base n → m ≡ n
try-injective base m n e = decimal-injective m n (append-cancel base (decimal m) (decimal n) e)

-- The two ways that a turn of the loop goes.
next_turn :
    (fuel : ℕ) (base : Text) (suffix : ℕ) (code : Text) (taken : List Text)
    → exists (same_text code) taken ≡ true
    → first_free (suc fuel) base suffix code taken
      ≡ first_free fuel base (suffix + 1) (try base (suffix + 1)) taken
unfolding first_free
next_turn fuel base suffix code taken used = rw used refl

last_turn :
    (fuel : ℕ) (base : Text) (suffix : ℕ) (code : Text) (taken : List Text)
    → exists (same_text code) taken ≡ false
    → first_free (suc fuel) base suffix code taken ≡ some code
unfolding first_free
last_turn fuel base suffix code taken free = rw free refl

-- What is found is free.
first_free-free :
    (fuel : ℕ) (base : Text) (suffix : ℕ) (code : Text) (taken : List Text) (found : Text)
    → first_free fuel base suffix code taken ≡ some found
    → exists (same_text found) taken ≡ false
first_free-free zero base suffix code taken found h =
    let none_left : none ≡ some found = unfold first_free in h in absurd (cc none_left)
first_free-free (suc fuel) base suffix code taken found h =
    elim (Bool-cases (exists (same_text code) taken)) [
      | inl used ↦
          first_free-free fuel base (suffix + 1) (try base (suffix + 1)) taken found
            (sym (next_turn fuel base suffix code taken used) ∙ h)
      | inr free ↦
          let same : code ≡ found = cc (last_turn fuel base suffix code taken free, h) in
          subst (λ c. exists (same_text c) taken ≡ false) same free
    ]

apart_texts : (a b : Text) → a ≢ b → same_text a b ≡ false
apart_texts a b h = elim (Bool-cases (same_text a b)) [
  | inl e ↦ absurd (h ((same_text_iff a b).0 e))
  | inr e ↦ e
]

abbrev without : Text → List Text → List Text
without code taken = keep (λ c. not (same_text code c)) taken

exists-without :
    (code other : Text) (taken : List Text)
    → other ≢ code
    → exists (same_text other) (without code taken) ≡ exists (same_text other) taken
exists-without code other [] h = refl
exists-without code other (c ∷ taken) h = elim (Bool-cases (same_text code c)) [
  | inl same ↦
      let e : code ≡ c = (same_text_iff code c).0 same in
      let other_apart = apart_texts other c (λ o. h (o ∙ sym e)) in
      rw (same, other_apart, exists-without code other taken h) refl
  | inr apart ↦ rw (apart, exists-without code other taken h) refl
]

length-without-le : (code : Text) (taken : List Text) → length (without code taken) ≤ length taken
length-without-le code [] = omega arith
length-without-le code (c ∷ taken) = ground (arith, length-without-le code taken)

length-without-lt :
    (code : Text) (taken : List Text)
    → exists (same_text code) taken ≡ true
    → length (without code taken) < length taken
length-without-lt code [] h = cc h
length-without-lt code (c ∷ taken) h =
    ground (arith, length-without-le code taken, length-without-lt code taken)

-- Codes that are not tried do not matter.
first_free-without :
    (fuel : ℕ) (base : Text) (suffix : ℕ) (code gone : Text) (taken : List Text)
    → code ≢ gone
    → ((later : ℕ) → suffix < later → try base later ≢ gone)
    → first_free fuel base suffix code (without gone taken) ≡ first_free fuel base suffix code taken
unfolding first_free
first_free-without zero base suffix code gone taken h rest = refl
first_free-without (suc fuel) base suffix code gone taken h rest =
    rw
      (
        exists-without gone code taken h,
        first_free-without fuel base (suffix + 1) (try base (suffix + 1)) gone taken
            (rest (suffix + 1) (omega arith)) (λ later after. rest later (omega (arith, after))),
      )
      refl

-- More fuel than there are codes is enough, for codes that differ from all that are tried later.
first_free-found :
    (fuel : ℕ) (base : Text) (suffix : ℕ) (code : Text) (taken : List Text)
    → length taken < fuel
    → ((later : ℕ) → suffix < later → try base later ≢ code)
    → (found : Text) × (first_free fuel base suffix code taken ≡ some found)
first_free-found zero base suffix code taken h apart = absurd (omega (arith, h))
first_free-found (suc fuel) base suffix code taken h apart =
    elim (Bool-cases (exists (same_text code) taken)) [
      | inr free ↦ (code, last_turn fuel base suffix code taken free)
      | inl used ↦
          let less = length-without-lt code taken used in
          let (found, e) =
            first_free-found fuel base (suffix + 1) (try base (suffix + 1)) (without code taken)
              (omega (arith, less, h))
              (λ later after same.
                absurd (omega (arith, after, try-injective base later (suffix + 1) same))) in
          (
            found,
            next_turn fuel base suffix code taken used
                ∙ sym (
                    first_free-without fuel base (suffix + 1) (try base (suffix + 1)) code taken
                      (apart (suffix + 1) (omega arith))
                      (λ later after. apart later (omega (arith, after))))
                ∙ e,
          )
    ]

length-digits : (fuel n : ℕ) → 1 ≤ length (digits (suc fuel) n)
unfolding digits
length-digits fuel n = elim (Bool-cases (ltb n 10)) [
  | inl one ↦ rw one (omega arith)
  | inr more ↦ rw (more, length-append (digits fuel (n / 10)) ((48 + n % 10) ∷ [])) (omega arith)
]

-- The first code carries no digits, so that it is shorter than the later ones.
try-longer : (base : Text) (n : ℕ) → try base n ≢ base
try-longer base n e =
    let longer = length-append base (decimal n) in
    let same : length (base ++ decimal n) ≡ length base = ap length e in
    omega (arith, longer, same, length-digits n n)

-- The search for a tenant's code ends whatever tenants there are and whatever `slugify` returns:
-- trying one code more than there are tenants is enough, and the code that is returned is no
-- tenant's.
pub suggest_tenant_code-found :
    (slugify : Text → Text) (name : Text) (tenants : List Tenant)
    → (code : Text) × ((suggest_tenant_code slugify name tenants ≡ some code)
        × (exists (same_text code) (codes_of tenants) ≡ false))
unfolding suggest_tenant_code
suggest_tenant_code-found slugify name tenants =
    let base = base_code slugify name in
    let (code, e) =
      first_free-found (suc (length (codes_of tenants))) base 1 base (codes_of tenants)
        (omega arith) (λ later after. try-longer base later) in
    (
      code,
      (e, first_free-free (suc (length (codes_of tenants))) base 1 base (codes_of tenants) code e),
    )
