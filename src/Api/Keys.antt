-- ===== src/Api/Keys.antt =====
-- The keys of one tenant are out of reach of the requests of another.
use mifos_test.Prelude.{
  ℕ, ◌+◌, Bool, true, false, ◌&&◌, Option, none, some, List, [], ◌∷◌, ◌++◌, ◌≡◌, ◌≢◌, refl, sym, ap,
  ◌∙◌, subst, Text, ◌==◌, ==_iff, take, keep, rewrite, find_passes, exists, same_text, ltb, length,
  All, All-weaken, Pairwise, Differ, find-only, Bool-cases, inl, inr, arith,
}
use mifos_test.Exec.{◌>>=◌}
use mifos_test.Exec.Post.{Post}
use mifos_test.Models.{User, Tenant, ApiKey}
use mifos_test.Env.{Env}
use mifos_test.World.{World, token_urlsafe}
use mifos_test.Http.{Framework}
use mifos_test.Api.Accounts.{id_of}
use mifos_test.Api.ApiKeys.{
  raw_key_of, prefix_of, CreatedKey, is_key_of, deactivated, insert_key, create_key, keys_of,
  key_of, destroy_key,
}

-- A row that the request's tenant does not own is dropped by another tenant's filter.
keep-rewrite_other :
    (p q : ApiKey → Bool) (rows : List ApiKey)
    → ((k : ApiKey) → q (deactivated k) ≡ q k)
    → All (λ k. p k ≡ true → q k ≡ false) rows
    → keep q (rewrite p deactivated rows) ≡ keep q rows
keep-rewrite_other p q [] same h = refl
keep-rewrite_other p q (k ∷ rows) same (first, rest) =
    let step = keep-rewrite_other p q rows same rest in
    elim (Bool-cases (p k)) [
      | inl hit ↦ rw (hit, same k, first hit, step) refl
      | inr miss ↦ rw (miss, step) refl
    ]

not_shared :
    (tenant : Option Tenant) (other : Tenant) (k : ApiKey)
    → id_of tenant ≢ some other.id
    → is_key_of tenant k ≡ true
    → is_key_of (some other) k ≡ false
not_shared none other k differs h = cc
not_shared (some t) other k differs h = elim (Bool-cases (k.tenant == other.id)) [
  | inl e ↦
      absurd (differs (ap some (sym ((==_iff k.tenant t.id).0 h) ∙ (==_iff k.tenant other.id).0 e)))
  | inr e ↦ e
]

foreign_rows :
    (tenant : Option Tenant) (other : Tenant) (rows : List ApiKey) (k : ApiKey)
    → is_key_of (some other) k ≡ false
    → All (λ r. r.id ≡ k.id → r ≡ k) rows
    → All (λ r. (r.id == k.id) ≡ true → is_key_of (some other) r ≡ false) rows
foreign_rows tenant other rows k foreign only =
    All-weaken (λ r. r.id ≡ k.id → r ≡ k)
      (λ r. (r.id == k.id) ≡ true → is_key_of (some other) r ≡ false) rows
      (λ r same hit.
        subst (λ x. is_key_of (some other) x ≡ false) (sym (same ((==_iff r.id k.id).0 hit)))
          foreign)
      only

module _ {env : Env} where
  destroyed :
      (drf : Framework) (tenant : Option Tenant) (id : ℕ) (w : World env) (other : Tenant)
      (o : Option ApiKey)
      → id_of tenant ≢ some other.id
      → Pairwise (Differ (λ (k : ApiKey). k.id)) w.api_keys
      → key_of tenant id w ≡ o
      → keys_of (some other) (destroy_key drf tenant id w).1 ≡ keys_of (some other) w
  unfolding destroy_key keys_of ◌>>=◌
  destroyed drf tenant id w other none differs ids e = rw e refl
  destroyed drf tenant id w other (some k) differs ids e =
      let passes = find_passes (λ k. is_key_of tenant k && k.id == id) w.api_keys k e in
      let foreign = not_shared tenant other k differs (ground (arith, passes)) in
      rw e (
        keep-rewrite_other (λ r. r.id == k.id) (is_key_of (some other)) w.api_keys (λ _. refl)
          (foreign_rows tenant other w.api_keys k foreign (
            find-only (λ (k : ApiKey). k.id) (λ k. is_key_of tenant k && k.id == id) w.api_keys k
              ids e)))

-- While no two keys share an id, a request to delete a key that comes with another tenant, or with
-- none, leaves the keys of this tenant exactly as they are.
pub destroy_key-keys_of :
    {env : Env} (drf : Framework) (tenant : Option Tenant) (id : ℕ) (w : World env) (other : Tenant)
    → id_of tenant ≢ some other.id
    → Pairwise (Differ (λ (k : ApiKey). k.id)) w.api_keys
    → keys_of (some other) (destroy_key drf tenant id w).1 ≡ keys_of (some other) w
destroy_key-keys_of drf tenant id w other differs ids =
    destroyed drf tenant id w other _ differs ids refl

-- What Django promises of its hashes: a password matches the hash that was made of it.
pub record HashLaws (env : Env) : Type 0 where
  pub matches : (salt : ℕ) (raw : Text) → env.check_password raw (env.make_password salt raw) ≡ true

-- A key that was created: it is shown once, its row is the tenant's newest, is active, names the
-- user, and holds the first twelve characters and a hash that the key matches.
pub record Created {env : Env} (t : Tenant) (u : User) (w : World env) (k : CreatedKey)
    (w' : World env) : Type 0 where
  pub added : w'.api_keys ≡ w.api_keys ++ k.row ∷ []
  pub owner : k.row.tenant ≡ t.id
  pub maker : k.row.created_by ≡ some u.id
  pub usable : k.row.is_active ≡ true
  pub prefix : k.row.key_prefix ≡ take 12 k.raw_key
  pub hashed : env.check_password k.raw_key k.row.key_hash ≡ true

-- A user who is signed in and sends a request to a tenant's host creates a key of that tenant,
-- whichever tenant the user belongs to; or the request raises, and no key is added.
pub create_key-Created :
    {env : Env} (laws : HashLaws env) (t : Tenant) (u : User) (name : Text) (scopes : List Text)
    (w : World env)
    → Post
        (create_key (some t) u name scopes w)
        (λ k w'. Created t u w k w')
        (λ _ w'. w'.api_keys ≡ w.api_keys)
unfolding create_key token_urlsafe insert_key ◌>>=◌
create_key-Created {env} laws t u name scopes w = elim (Bool-cases (ltb 100 (length name))) [
  | inl long ↦ rw long refl
  | inr short ↦
      let taken =
        exists (λ r. same_text r.key_prefix (prefix_of (raw_key_of (env.token_urlsafe 24 w.draws))))
          w.api_keys in
      elim (Bool-cases taken) [
        | inl clash ↦ rw (short, clash) refl
        | inr free ↦
            rw (short, free)
              (record {
                added = refl;
                owner = refl;
                maker = refl;
                usable = refl;
                prefix = refl;
                hashed = laws.matches (w.draws + 1) (raw_key_of (env.token_urlsafe 24 w.draws));
              })
      ]
]
