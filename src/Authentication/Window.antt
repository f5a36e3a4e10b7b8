-- ===== src/Authentication/Window.antt =====
-- How many requests of one client pass the rate limit in a minute.
use mifos_test.Prelude.{
  same_text, same_text_iff, ◌∙◌, ℕ, suc, ◌+◌, ◌≤◌, ◌<◌, true, false, Option, none, some, List, [],
  ◌∷◌, ◌≡◌, inl, inr, refl, arith, Text, leb, Bool-cases,
}
use mifos_test.Exec.{Result, ok, err, continue, ◌>>=◌}
use mifos_test.Env.{Env}
use mifos_test.World.{World, cache_get, cache_set}
use mifos_test.Http.{Request}
use mifos_test.Authentication.RateLimit.{
  limit_of, limit_key, too_many_requests, count_of, admit_request, rate_limit,
}
use mifos_test.Authentication.Counter.{
  LiveCache, Event, request, elsewhere, Within, passed, admitted, Counted, Counted-later,
  Counted-le, limit_of-key,
}

module _ {env : Env} (laws : LiveCache env) (key : Text) (limit end : ℕ) where
  at_time :
      (req : Request) (t : ℕ) (w : World env)
      → rate_limit req (record w { now = t })
        ≡ continue
            (env.cache_get (limit_key env req) t w.cache)
            (λ c. admit_request (limit_key env req) (limit_of env.settings req) (count_of c))
            (record w { now = t })
  unfolding rate_limit
  at_time req t w = unfold ◌>>=◌ cache_get in refl

  -- A request that is refused, and one that goes on.
  refused :
      (k : Text) (most n : ℕ) (w : World env)
      → leb most n ≡ true
      → admit_request k most n w ≡ (ok (some too_many_requests), w)
  unfolding admit_request
  refused k most n w full = rw full refl

  goes_on :
      (k : Text) (most n : ℕ) (w : World env)
      → leb most n ≡ false
      → admit_request k most n w
        ≡ (ok none, record w { cache = (env.cache_set k w.now (n + 1) 60 w.cache).1 })
  unfolding admit_request
  goes_on k most n w room =
      rw room (unfold ◌>>=◌ cache_set in rw (laws.sets k w.now (n + 1) 60 w.cache) refl)

  -- A request with the key.
  still :
      (k begin t : ℕ) (es : List (Event env)) (w : World env) (r : Result (Option ℕ))
      → begin ≤ t
      → t < end
      → end ≤ begin + 60
      → Counted env key k begin end w.cache
      → k ≤ limit
      → env.cache_get key t w.cache ≡ r
      → ((k' : ℕ) (w' : World env)
          → Counted env key k' t end w'.cache
          → k' ≤ limit
          → k' + admitted key es w' ≤ limit)
      → let (r', w') =
          continue r (λ c. admit_request key limit (count_of c)) (record w { now = t }) in
        k + (passed r' + admitted key es w') ≤ limit
  still k begin t es w (err e) after before short counted few read rest =
      let bound =
        rest k (record w { now = t }) (Counted-later env key k begin t end w.cache after counted)
          few in
      omega (arith, bound)
  still k begin t es w (ok n) after before short counted few read rest =
      let here = Counted-later env key k begin t end w.cache after counted in
      elim (Bool-cases (leb limit (count_of n))) [
        | inl full ↦
            let bound = rest k (record w { now = t }) here few in
            rw (refused key limit (count_of n) (record w { now = t }) full) (omega (arith, bound))
        | inr room ↦
            let seen = Counted-le env key k t end w.cache n before here read in
            let more : suc k ≤ limit = ground (arith, seen, room) in
            let next : World env = record w {
              now = t;
              cache = (env.cache_set key t (count_of n + 1) 60 w.cache).1;
            } in
            let kept : Counted env key (suc k) t end next.cache = inr (
              count_of n + 1,
              (
                omega (arith, seen),
                λ u from until.
                    laws.gets key t u (count_of n + 1) 60 w.cache from
                      (omega (arith, until, short, after)),
              ),
            ) in
            let bound = rest (suc k) next kept more in
            rw (goes_on key limit (count_of n) (record w { now = t }) room) (omega (arith, bound))
      ]

  -- What is counted stays so where nothing changes what is read under the key.
  Counted-same :
      (k begin : ℕ) (c c' : env.Cache)
      → ((now : ℕ) → env.cache_get key now c' ≡ env.cache_get key now c)
      → Counted env key k begin end c
      → Counted env key k begin end c'
  Counted-same k begin c c' same (inl zero) = inl zero
  Counted-same k begin c c' same (inr (v, (few, found))) =
      inr (v, (few, λ t after before. same t ∙ found t after before))

  -- A request with another key.
  another :
      (other : Text) (most k t : ℕ) (w : World env) (r : Result (Option ℕ))
      → ¬ (other ≡ key)
      → Counted env key k t end w.cache
      → let (r', w') =
          continue r (λ c. admit_request other most (count_of c)) (record w { now = t }) in
        Counted env key k t end w'.cache
  another other most k t w (err e) differs counted = counted
  another other most k t w (ok n) differs counted = elim (Bool-cases (leb most (count_of n))) [
    | inl full ↦ rw (refused other most (count_of n) (record w { now = t }) full) counted
    | inr room ↦ rw (goes_on other most (count_of n) (record w { now = t }) room) (
        Counted-same k t w.cache _
          (λ now. laws.others key other t (count_of n + 1) 60 now w.cache differs) counted)
  ]

  passing :
      (other : Text) (most k t : ℕ) (es : List (Event env)) (w : World env) (r : Result (Option ℕ))
      → ¬ (other ≡ key)
      → Counted env key k t end w.cache
      → k ≤ limit
      → ((k' : ℕ) (w' : World env)
          → Counted env key k' t end w'.cache
          → k' ≤ limit
          → k' + admitted key es w' ≤ limit)
      → let (r', w') =
          continue r (λ c. admit_request other most (count_of c)) (record w { now = t }) in
        k + (0 + admitted key es w') ≤ limit
  passing other most k t es w r differs counted few rest =
      let after =
        (continue r (λ c. admit_request other most (count_of c)) (record w { now = t })).1 in
      let bound = rest k after (another other most k t w r differs counted) few in
      omega (arith, bound)

  Within-limit :
      (es : List (Event env)) (k begin : ℕ) (w : World env)
      → ((req : Request) → limit_key env req ≡ key → limit_of env.settings req ≡ limit)
      → end ≤ begin + 60
      → Within env key begin end es
      → Counted env key k begin end w.cache
      → k ≤ limit
      → k + admitted key es w ≤ limit
  Within-limit [] k begin w one short inside counted few = omega (arith, few)
  Within-limit (elsewhere change ∷ es) k begin w one short (harmless, inside) counted few =
      Within-limit es k begin (record w { cache = change w.cache }) one short inside
        (Counted-same k begin w.cache (change w.cache) (λ now. harmless now w.cache) counted) few
  Within-limit (request t req ∷ es) k begin w one short (after, (before, inside)) counted few =
      let rest : (k' : ℕ) (w' : World env)
          → Counted env key k' t end w'.cache
          → k' ≤ limit
          → k' + admitted key es w' ≤ limit =
        λ k' w' counted' few'.
          Within-limit es k' t w' one (omega (arith, short, after)) inside counted' few' in
      elim (Bool-cases (same_text (limit_key env req) key)) [
        | inl same ↦
            let is_key = (same_text_iff (limit_key env req) key).0 same in
            rw (at_time req t w, same, one req is_key, is_key)
              (still k begin t es w (env.cache_get key t w.cache) after before short counted few
                refl rest)
        | inr differs ↦
            let other : ¬ (limit_key env req ≡ key) =
              λ e. absurd (cc (differs, (same_text_iff (limit_key env req) key).1 e)) in
            rw (at_time req t w, differs)
              (passing (limit_key env req) (limit_of env.settings req) k t es w _ other
                (Counted-later env key k begin t end w.cache after counted) few rest)
      ]

-- Of the requests of one client, to the sign-in path or to the others of one tenant, at most the
-- limit go on within any minute, from whatever state of the cache, whatever the paths of the
-- requests, and with any requests of others and other writes between them that leave this client's
-- counter. The cache keeps what it is given until it expires, and each key for itself.
pub admitted-le-limit :
    {env : Env} (laws : LiveCache env) (req : Request) (begin : ℕ) (es : List (Event env))
    (w : World env)
    → Within env (limit_key env req) begin (begin + 60) es
    → admitted (limit_key env req) es w ≤ limit_of env.settings req
admitted-le-limit {env} laws req begin es w inside =
    let bound =
      Within-limit laws (limit_key env req) (limit_of env.settings req) (begin + 60) es 0 begin w
        (λ other same. limit_of-key env other req same) (omega arith) inside (inl refl)
        (omega arith) in
    omega (arith, bound)
