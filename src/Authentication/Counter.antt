-- ===== src/Authentication/Counter.antt =====
-- The counter of the rate limit in the cache: what happens to it, and what it counts.
use mifos_test.Prelude.{
  Bool, same_text, ap, subst, text, ◌++◌, if◌then◌else◌, ℕ, ◌+◌, ◌≤◌, ◌<◌, true, false, Option,
  none, some, List, [], ◌∷◌, ◌≡◌, ◌⊎◌, inl, inr, refl, arith, Text, Bool-cases,
}
use mifos_test.Exec.{Result, ok, err}
use mifos_test.Env.{Env}
use mifos_test.World.{World}
use mifos_test.Http.{Request, Response, get_client_ip}
use mifos_test.Authentication.RateLimit.{
  is_login, tenant_text, ip_text, limit_of, limit_key, count_of, rate_limit,
}

-- What Redis promises of a value that has not expired.
pub record LiveCache (env : Env) : Type 0 where
  pub sets :
      (key : Text) (now value timeout : ℕ) (c : env.Cache)
      → (env.cache_set key now value timeout c).0 ≡ ok tt
  pub gets :
      (key : Text) (set_at now value timeout : ℕ) (c : env.Cache)
      → set_at ≤ now
      → now < set_at + timeout
      → env.cache_get key now (env.cache_set key set_at value timeout c).1 ≡ ok (some value)
  pub others :
      (key other : Text) (set_at value timeout now : ℕ) (c : env.Cache)
      → ¬ (other ≡ key)
      → env.cache_get key now (env.cache_set other set_at value timeout c).1
        ≡ env.cache_get key now c

-- What happens to the cache: a request passes the limit at a time, or something else writes.
pub data Event (env : Env) : Type 0 where
  request : ℕ → Request → Event env
  elsewhere : (env.Cache → env.Cache) → Event env

-- A change of the cache that leaves what is read under the key.
abbrev pub Harmless : (env : Env) → Text → (env.Cache → env.Cache) → Type 0
Harmless env key change =
    (now : ℕ) (c : env.Cache) → env.cache_get key now (change c) ≡ env.cache_get key now c

-- Requests in the order of their times, from one on and before another, and between them changes
-- that are harmless for the key.
abbrev pub Within : (env : Env) → Text → ℕ → ℕ → List (Event env) → Type 0
Within env key begin end [] = Unit
Within env key begin end (request t req ∷ es) = (begin ≤ t) × ((t < end) × Within env key t end es)
Within env key begin end (elsewhere change ∷ es) =
    Harmless env key change × Within env key begin end es

-- Whether a request went on.
abbrev pub passed : Result (Option Response) → ℕ
passed (ok none) = 1
passed (ok (some r)) = 0
passed (err e) = 0

-- One more, if the key is that of the counter.
abbrev pub counts : Bool → ℕ → ℕ
counts true n = n
counts false n = 0

module _ {env : Env} where
  -- How many of the requests with that key go on.
  abbrev pub admitted : Text → List (Event env) → World env → ℕ
  admitted key [] w = 0
  admitted key (request t req ∷ es) w =
      let (r, w') = rate_limit req (record w { now = t }) in
      counts (same_text (limit_key env req) key) (passed r) + admitted key es w'
  admitted key (elsewhere change ∷ es) w = admitted key es (record w { cache = change w.cache })

-- At least `k` is counted, and will be until `end`.
abbrev pub Counted : (env : Env) → Text → ℕ → ℕ → ℕ → env.Cache → Type 0
Counted env key k begin end c =
    (k ≡ 0)
    ⊎ ((v : ℕ) × ((k ≤ v) × ((t : ℕ) → begin ≤ t → t < end → env.cache_get key t c ≡ ok (some v))))

pub Counted-later :
    (env : Env) (key : Text) (k begin later end : ℕ) (c : env.Cache)
    → begin ≤ later
    → Counted env key k begin end c
    → Counted env key k later end c
Counted-later env key k begin later end c h (inl zero) = inl zero
Counted-later env key k begin later end c h (inr (v, (few, found))) =
    inr (v, (few, λ t after before. found t (omega (arith, h, after)) before))

-- What is read counts at least `k`.
pub Counted-le :
    (env : Env) (key : Text) (k begin end : ℕ) (c : env.Cache) (n : Option ℕ)
    → begin < end
    → Counted env key k begin end c
    → env.cache_get key begin c ≡ ok n
    → k ≤ count_of n
Counted-le env key k begin end c n open_window (inl zero) e = omega (arith, zero)
Counted-le env key k begin end c none open_window (inr (v, (few, found))) e =
    absurd (cc (e, found begin (omega arith) open_window))
Counted-le env key k begin end c (some n) open_window (inr (v, (few, found))) e =
    let same : n ≡ v = cc (e, found begin (omega arith) open_window) in omega (arith, same, few)

-- The kind of a request stands in its key.
kind_of_key : Text → ℕ
kind_of_key (_ ∷ _ ∷ _ ∷ kind ∷ _) = kind
kind_of_key _ = 0

-- Requests with one key have one limit.
pub limit_of-key :
    (env : Env) (a b : Request)
    → limit_key env a ≡ limit_key env b
    → limit_of env.settings a ≡ limit_of env.settings b
unfolding limit_key limit_of kind_of_key
limit_of-key env a b e = elim (Bool-cases (is_login a)) [
  | inl x ↦ elim (Bool-cases (is_login b)) [
    | inl y ↦ rw (x, y) refl
    | inr y ↦
        let differ =
          subst (λ p. kind_of_key (key_text p a) ≡ kind_of_key (key_text (is_login b) b)) x
            (ap kind_of_key e) in
        let absurd_kinds =
          subst (λ q. kind_of_key (key_text true a) ≡ kind_of_key (key_text q b)) y differ in
        absurd (omega (arith, absurd_kinds))
  ]
  | inr x ↦ elim (Bool-cases (is_login b)) [
    | inr y ↦ rw (x, y) refl
    | inl y ↦
        let differ =
          subst (λ p. kind_of_key (key_text p a) ≡ kind_of_key (key_text (is_login b) b)) x
            (ap kind_of_key e) in
        let absurd_kinds =
          subst (λ q. kind_of_key (key_text false a) ≡ kind_of_key (key_text q b)) y differ in
        absurd (omega (arith, absurd_kinds))
  ]
]
  where
    key_text : Bool → Request → Text
    key_text login req =
        text "rl:"
        ++ (if login then text "login" else text "req")
        ++ text ":"
        ++ tenant_text env req
        ++ text ":"
        ++ ip_text (get_client_ip req)
