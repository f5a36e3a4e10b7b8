-- ===== src/Middleware/Order.antt =====
-- What a request has passed when it reaches its view, and how it is answered else.
use mifos_test.Prelude.{
  ◌⊎◌, ◌+◌, ℕ, Bool, true, false, Option, none, Text, ◌≡◌, inl, inr, refl, sym, ap, leb, Bool-cases,
}
use mifos_test.Exec.{Exn, Exec, Result, ok, err, pure, continue, ◌>>=◌}
use mifos_test.Exec.Post.{Post, Post-weaken}
use mifos_test.Models.{User, Tenant}
use mifos_test.Env.{Env}
use mifos_test.World.{World, OnlyCache, cache_get, cache_set}
use mifos_test.Http.{Request, Response}
use mifos_test.Tenants.{normalize, Verdict, pass, refuse, respond, resolve, resolver}
use mifos_test.Tenants.Direct.{CacheRaised, specified, resolve_refines}
use mifos_test.Tenants.Isolation.{CacheHolds}
use mifos_test.Tenants.Resolution.{Justified, resolve-Justified}
use mifos_test.Authentication.{
  rate_limit, admit_request, limit_key, limit_of, count_of, too_many_requests,
}
use mifos_test.Audit.{audit_requests}
use mifos_test.Audit.BestEffort.{IsTransparent, audit_requests-IsTransparent}
use mifos_test.Middleware.{attach, answer_or, rate_limiter, serve}

module _ {env : Env} (view : Request → Exec (World env) Response) (method : Text)
    (user : Option User) where
  -- The limit of the request is reached, or not, by the count that the cache has.
  abbrev pub IsOver : Request → World env → Bool → Type 0
  IsOver req w over =
      (n : Option ℕ) × (env.cache_get (limit_key env req) w.now w.cache ≡ ok n)
      × (leb (limit_of env.settings req) (count_of n) ≡ over)

  -- The cache raised that exception at the counter of the request: on the read, or on the write of
  -- a count below the limit.
  abbrev pub CounterRaised : Request → World env → Exn → Type 0
  CounterRaised req w e =
      (env.cache_get (limit_key env req) w.now w.cache ≡ err e)
      ⊎ ((n : Option ℕ) × ((env.cache_get (limit_key env req) w.now w.cache ≡ ok n)
            × ((leb (limit_of env.settings req) (count_of n) ≡ false)
                × ((env.cache_set (limit_key env req) w.now (count_of n + 1) 60 w.cache).0
                    ≡ err e))))

  -- An answer to a request in a world, with the world that it leaves.
  pub data Served (req : Request) (w : World env) : Result Response × World env → Type 0 where
    refused :
        (r : Response) (v : World env)
        → specified req w ≡ refuse r
        → OnlyCache w v
        → Served req w (ok r, v)
    unresolved :
        (e : Exn) (v : World env)
        → CacheRaised (normalize req.host) w e
        → OnlyCache w v
        → Served req w (err e, v)
    uncounted :
        (t : Option Tenant) (e : Exn) (u v : World env)
        → specified req w ≡ pass t
        → OnlyCache w u
        → CounterRaised (attach t req) u e
        → OnlyCache w v
        → Served req w (err e, v)
    limited :
        (t : Option Tenant) (v : World env)
        → specified req w ≡ pass t
        → OnlyCache w v
        → IsOver (attach t req) v true
        → Served req w (ok too_many_requests, v)
    seen :
        (t : Option Tenant) (u v : World env) (out : Result Response × World env)
        → specified req w ≡ pass t
        → OnlyCache w u
        → IsOver (attach t req) u false
        → OnlyCache w v
        → IsTransparent method user (attach t req) (view (attach t req) v) out
        → Served req w out

  module _ (req : Request) (w : World env) (t : Option Tenant)
      (due : specified req w ≡ pass t) where
    stored_Served :
        (u : World env) (n : Option ℕ) (r : Result (Unit {0})) (c : env.Cache)
        → OnlyCache w u
        → env.cache_get (limit_key env (attach t req)) u.now u.cache ≡ ok n
        → leb (limit_of env.settings (attach t req)) (count_of n) ≡ false
        → (env.cache_set (limit_key env (attach t req)) u.now (count_of n + 1) 60 u.cache).0 ≡ r
        → Served req w (
            let (s, v) =
              continue {B = Option Response} r (λ _. pure none) (record u { cache = c }) in
            continue s
              (answer_or (audit_requests (view (attach t req)) method user (attach t req)))
              v)
    stored_Served u n (err e) c only read under raised =
        uncounted t e u _ due only (inr (n, (read, (under, raised))))
          (ap {A = World env} (λ x. record x { cache = c }) only)
    stored_Served u n (ok x) c only read under kept =
        seen t u (record u { cache = c }) _ due only (n, read, under)
          (ap {A = World env} (λ x. record x { cache = c }) only)
          (audit_requests-IsTransparent (view (attach t req)) method user (attach t req)
            (record u { cache = c }))

    counted_Served :
        (u : World env) (r : Result (Option ℕ))
        → OnlyCache w u
        → env.cache_get (limit_key env (attach t req)) u.now u.cache ≡ r
        → Served req w (
            let (s, v) =
              continue r
                (λ n.
                  admit_request
                    (limit_key env (attach t req))
                    (limit_of env.settings (attach t req))
                    (count_of n))
                u in
            continue s
              (answer_or (audit_requests (view (attach t req)) method user (attach t req)))
              v)
    unfolding admit_request cache_set ◌>>=◌
    counted_Served u (err e) only read = uncounted t e u u due only (inl read) only
    counted_Served u (ok n) only read =
        elim (Bool-cases (leb (limit_of env.settings (attach t req)) (count_of n))) [
          | inl over ↦ rw over (limited t u due only (n, read, over))
          | inr under ↦ rw under (stored_Served u n _ _ only read under refl)
        ]

    limited_Served :
        (u : World env)
        → OnlyCache w u
        → Served req w
            (rate_limiter (λ seen_. audit_requests (view seen_) method user seen_) (attach t req) u)
    unfolding rate_limiter rate_limit cache_get ◌>>=◌
    limited_Served u only = counted_Served u _ only refl

  resolved_Served :
      (req : Request) (w : World env) (r : Result Verdict) (u : World env)
      → Post (r, u) (λ v _. v ≡ specified req w) (λ e _. CacheRaised (normalize req.host) w e)
      → Post (r, u) (λ _ v. OnlyCache w v) (λ _ v. OnlyCache w v)
      → Served req w (
          continue r
            (respond
              (λ t. rate_limiter (λ s. audit_requests (view s) method user s) (attach t req)))
            u)
  resolved_Served req w (err e) u raised only = unresolved e u raised only
  resolved_Served req w (ok (refuse r)) u same only = refused r u (sym same) only
  resolved_Served req w (ok (pass t)) u same only = limited_Served req w t (sym same) u only

  -- A request passes the resolver, the rate limit and the audit log on the way to its view. While
  -- every hostname in the cache goes to the tenant that owns it, it ends in one of four ways. It is
  -- refused as the registry alone has it. The cache raises at the lookup of the hostname, or at the
  -- client's counter, which is written only below the limit, and the request raises what the cache
  -- did. The count for its client has reached the limit, and it is answered 429. Or its view runs, with the tenant attached that the registry
  -- has for it and with a count below the limit, and the request is answered as the view answers
  -- it. Until then nothing but the cache is changed, and after the view nothing but the broker.
  pub serve-Served :
      (req : Request) (w : World env) → CacheHolds w → Served req w (serve view method user req w)
  unfolding serve resolver ◌>>=◌
  serve-Served req w holds =
      let (r, u) = resolve req w in
      resolved_Served req w r u (resolve_refines req w holds) (
        Post-weaken (λ v x. Justified req w v × OnlyCache w x) (λ _ x. OnlyCache w x)
          (λ _ x. OnlyCache w x) (λ _ x. OnlyCache w x) r u (λ _ _ h. h.1) (λ _ _ h. h)
          (resolve-Justified req w))
