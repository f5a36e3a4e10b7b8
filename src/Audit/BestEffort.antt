-- ===== src/Audit/BestEffort.antt =====
-- Auditing a request never changes its answer.
use mifos_test.Prelude.{
  Bool, true, false, not, ◌&&◌, Option, none, some, Text, ◌≡◌, refl, ◌⊎◌, inl, inr, Bool-cases,
  arith,
}
use mifos_test.Exec.{Result, ok, err, Exec, pure, catch, handle_result, continue, ◌>>=◌, ◌>>◌}
use mifos_test.Models.{User}
use mifos_test.Env.{Env, Task}
use mifos_test.World.{World, delay}
use mifos_test.Http.{Request, Response}
use mifos_test.Audit.Middleware.{
  is_sensitive, is_skipped, is_audited, audit_task, enqueue, audit_requests,
}

both : (a b : Bool) → ((a && true) && not b) ≡ true → (a ≡ true) × (b ≡ false)
both true false h = (refl, refl)
both true true h = absurd (ground (arith, h))
both false b h = absurd (ground (arith, h))

audited_parts :
    (method : Text) (u : User) (req : Request)
    → is_audited method (some u) req ≡ true
    → (is_sensitive method ≡ true) × (is_skipped req.path ≡ false)
unfolding is_audited
audited_parts method u req h = both (is_sensitive method) (is_skipped req.path) h

module _ {env : Env} where
  -- The user, the method and the path call for an entry, and the broker was asked to queue it.
  pub record Queued (method : Text) (user : Option User) (req : Request) (r : Result Response)
      (before after : World env) : Type 0 where
    pub actor : User
    pub response : Response
    pub signed_in : user ≡ some actor
    pub answered : r ≡ ok response
    pub sensitive : is_sensitive method ≡ true
    pub counted : is_skipped req.path ≡ false
    pub asked :
        after.broker ≡ (env.broker_delay (audit_task method actor req response) before.broker).1

  -- A request is answered as its view answers it, the broker apart the world is left as the view
  -- leaves it, and the broker is either left alone or asked to queue the entry of a sensitive
  -- request.
  abbrev pub IsTransparent :
      Text
      → Option User
      → Request
      → Result Response × World env
      → Result Response × World env
      → Type 0
  IsTransparent method user req (r, w) (s, w') =
      (s ≡ r)
      × (w' ≡ record w { broker = w'.broker })
      × ((w'.broker ≡ w.broker) ⊎ Queued method user req r w w')

  handled : (r : Result (Unit {0})) (w : World env) → handle_result r (λ _. pure tt) w ≡ (ok tt, w)
  handled (ok tt) w = refl
  handled (err e) w = refl

  caught :
      (task : Task) (w : World env)
      → catch (delay task) (λ _. pure tt) w
        ≡ (ok tt, record w { broker = (env.broker_delay task w.broker).1 })
  unfolding catch delay
  caught task w =
      handled (env.broker_delay task w.broker).0
        (record w { broker = (env.broker_delay task w.broker).1 })

  enqueued :
      (method : Text) (user : Option User) (req : Request) (response : Response) (w : World env)
      → IsTransparent method user req
          (ok response, w)
          (((enqueue method user req response) >> pure response) w)
  unfolding enqueue ◌>>=◌
  enqueued method none req response w = (refl, refl, inl refl)
  enqueued method (some u) req response w = elim (Bool-cases (is_audited method (some u) req)) [
    | inl e ↦ rw e (
        rw (caught (audit_task method u req response) w) (
          refl,
          refl,
          inr (record {
            actor = u;
            response = response;
            signed_in = refl;
            answered = refl;
            sensitive = (audited_parts method u req e).0;
            counted = (audited_parts method u req e).1;
            asked = refl;
          }),
        ))
    | inr e ↦ rw e (refl, refl, inl refl)
  ]

  -- Auditing never changes an answer: whatever a view returns or raises, and whether the broker
  -- takes the entry or raises, the request is answered as the view answers it and the world is the
  -- one that the view leaves, the broker apart; and the broker is asked to queue an entry only for
  -- a signed-in user, a method of SENSITIVE_METHODS and a path that is not skipped.
  pub audit_requests-IsTransparent :
      (get_response : Exec (World env) Response) (method : Text) (user : Option User)
      (req : Request) (w : World env)
      → IsTransparent method user req
          (get_response w)
          (audit_requests get_response method user req w)
  unfolding audit_requests ◌>>=◌
  audit_requests-IsTransparent get_response method user req w =
      of_answer (get_response w).0 (get_response w).1
    where
      of_answer :
          (r : Result Response) (v : World env)
          → IsTransparent method user req
              (r, v)
              (continue r (λ response. enqueue method user req response >> pure response) v)
      of_answer (ok response) v = enqueued method user req response v
      of_answer (err e) v = (refl, refl, inl refl)
