-- ===== src/Domains/Adding.antt =====
-- Every way in which a request to add a custom domain can end.
use mifos_test.Prelude.{
  Bool, List, ap, sym, ◌∙◌, exists, same_text, ◌⊎◌, ℕ, ◌+◌, true, false, ◌||◌, Option, none, some,
  [], ◌∷◌, ◌++◌, Text, text, ◌≡◌, inl, inr, refl, Bool-cases, ltb, length, arith,
}
use mifos_test.Exec.{
  data_error, integrity_error, Exn, Result, ok, err, pure, catch, handle_result, continue, ◌>>=◌,
  ◌>>◌,
}
use mifos_test.Models.{User, Tenant, Domain}
use mifos_test.Env.{Env, Task}
use mifos_test.World.{World, delay}
use mifos_test.Http.{Response, given}
use mifos_test.Tenants.{domain_clashes}
use mifos_test.Tenants
use mifos_test.Authentication.{tenant_ceo_or_admin}
use mifos_test.Domains.Permission.{MayAdd, allowed, not_allowed}
use mifos_test.Domains.{
  hostname_required, addition_failed, verification_pending, nonempty, register_domain,
  add_custom_domain,
}

-- The row of a custom domain: it is neither the primary one nor verified.
abbrev pub custom_domain : ℕ → Tenant → Text → Domain
custom_domain id t hostname = record {
  id = id;
  tenant = t.id;
  hostname = hostname;
  is_primary = false;
  is_custom = true;
  ssl_verified = false;
}

-- No hostname is given.
unnamed_hostname :
    (hostname : Option Text) → nonempty hostname ≡ none → (hostname ≡ none) ⊎ (hostname ≡ some [])
unnamed_hostname none e = inl refl
unnamed_hostname (some []) e = inr refl
unnamed_hostname (some (c ∷ cs)) e = cc e

-- The hostname that is given.
abbrev pub IsNamed : Option Text → Text → Type 0
IsNamed hostname h = (hostname ≡ some h) × ¬ (h ≡ [])

nonempty-IsNamed :
    (hostname : Option Text) (h : Text) → nonempty hostname ≡ some h → IsNamed hostname h
nonempty-IsNamed none h e = cc e
nonempty-IsNamed (some []) h e = cc e
nonempty-IsNamed (some (c ∷ cs)) h e = (e, λ empty. absurd (cc (e, empty)))

-- A hostname is too long, or a row has it.
abbrev pub is_refused : Text → List Domain → Bool
is_refused h rows = ltb 255 (length h) || exists (λ r. same_text r.hostname h) rows

clashes-hostname :
    (id : ℕ) (t : Tenant) (h : Text) (rows : List Domain)
    → domain_clashes (custom_domain id t h) rows ≡ exists (λ r. same_text r.hostname h) rows
clashes-hostname id t h [] = refl
clashes-hostname id t h (r ∷ rows) = ground (arith, clashes-hostname id t h rows)

refused_same :
    (id : ℕ) (t : Tenant) (h : Text) (rows : List Domain)
    → is_refused h rows ≡ (ltb 255 (length h) || domain_clashes (custom_domain id t h) rows)
refused_same id t h rows = ap (λ b. ltb 255 (length h) || b) (sym (clashes-hostname id t h rows))

module _ {env : Env} where
  abbrev pub appended : Domain → World env → World env
  appended d w = record w { domains = w.domains ++ d ∷ []; next_id = w.next_id + 1 }

  -- The world once the broker was asked to queue the verification.
  abbrev pub asked : Domain → World env → World env
  asked d w = record (appended d w) {
    broker = (env.broker_delay (Task.verify_custom_domain d.id) w.broker).1;
  }

  -- An answer with the world that it leaves.
  pub data Outcome (denied : Response) (user : Option User) (tenant : Option Tenant)
      (hostname : Option Text) (w : World env) : Result Response × World env → Type 0 where
    forbidden : ¬ MayAdd user tenant → Outcome denied user tenant hostname w (ok denied, w)
    unnamed :
        MayAdd user tenant
        → (hostname ≡ none) ⊎ (hostname ≡ some [])
        → Outcome denied user tenant hostname w (ok hostname_required, w)
    rejected :
        (t : Tenant) (h : Text)
        → MayAdd user tenant
        → tenant ≡ some t
        → IsNamed hostname h
        → is_refused h w.domains ≡ true
        → Outcome denied user tenant hostname w (ok addition_failed, w)
    unqueued :
        (t : Tenant) (h : Text) (e : Exn)
        → MayAdd user tenant
        → tenant ≡ some t
        → IsNamed hostname h
        → is_refused h w.domains ≡ false
        → (env.broker_delay (Task.verify_custom_domain w.next_id) w.broker).0 ≡ err e
        → Outcome denied user tenant hostname w
            (ok addition_failed, asked (custom_domain w.next_id t h) w)
    added :
        (t : Tenant) (h : Text)
        → MayAdd user tenant
        → tenant ≡ some t
        → IsNamed hostname h
        → is_refused h w.domains ≡ false
        → (env.broker_delay (Task.verify_custom_domain w.next_id) w.broker).0 ≡ ok tt
        → Outcome denied user tenant hostname w (
          ok (verification_pending env (custom_domain w.next_id t h)),
          asked (custom_domain w.next_id t h) w,
        )

  -- What `register_domain` does when the row is refused, and when it is not.
  refused_row :
      (t : Tenant) (h : Text) (w : World env)
      → (ltb 255 (length h) || domain_clashes (custom_domain w.next_id t h) w.domains) ≡ true
      → (e : Exn) × (register_domain t h w ≡ (err e, w))
  unfolding register_domain Tenants.add_custom_domain ◌>>=◌
  refused_row t h w bad = elim (Bool-cases (ltb 255 (length h))) [
    | inl long ↦ (data_error (text "tenants_domain"), rw long refl)
    | inr short ↦
        let clash : domain_clashes (custom_domain w.next_id t h) w.domains ≡ true =
          ground (arith, bad, short) in
        (integrity_error (text "tenants_domain"), rw (short, clash) refl)
  ]

  accepted_row :
      (t : Tenant) (h : Text) (w : World env)
      → (ltb 255 (length h) || domain_clashes (custom_domain w.next_id t h) w.domains) ≡ false
      → register_domain t h w
        ≡ (delay (Task.verify_custom_domain w.next_id)
              >> pure (verification_pending env (custom_domain w.next_id t h)))
            (appended (custom_domain w.next_id t h) w)
  unfolding register_domain Tenants.add_custom_domain ◌>>=◌
  accepted_row t h w free =
      let short : ltb 255 (length h) ≡ false = ground (arith, free) in
      let alone : domain_clashes (custom_domain w.next_id t h) w.domains ≡ false =
        ground (arith, free) in
      rw (short, alone) refl

  queued :
      (denied : Response) (user : Option User) (t : Tenant) (hostname : Option Text) (h : Text)
      (w : World env) (r : Result (Unit {0}))
      → MayAdd user (some t)
      → nonempty hostname ≡ some h
      → (ltb 255 (length h) || domain_clashes (custom_domain w.next_id t h) w.domains) ≡ false
      → (env.broker_delay (Task.verify_custom_domain w.next_id) w.broker).0 ≡ r
      → let d = custom_domain w.next_id t h in
        Outcome denied user (some t) hostname w (
          let (s, w') = continue r (λ _. pure (verification_pending env d)) (asked d w) in
          handle_result s (λ _. pure addition_failed) w')
  queued denied user t hostname h w (ok tt) may named free e =
      added t h may refl (nonempty-IsNamed hostname h named)
        (refused_same w.next_id t h w.domains ∙ free) e
  queued denied user t hostname h w (err x) may named free e =
      unqueued t h x may refl (nonempty-IsNamed hostname h named)
        (refused_same w.next_id t h w.domains ∙ free) e

  registered :
      (denied : Response) (user : Option User) (t : Tenant) (hostname : Option Text) (h : Text)
      (w : World env)
      → MayAdd user (some t)
      → nonempty hostname ≡ some h
      → Outcome denied user
          (some t)
          hostname
          w
          (catch (register_domain t h) (λ _. pure addition_failed) w)
  unfolding catch
  registered denied user t hostname h w may named =
      elim (Bool-cases
        (ltb 255 (length h) || domain_clashes (custom_domain w.next_id t h) w.domains)) [
          | inl bad ↦
              let (e, refused) = refused_row t h w bad in
              rw refused (
                rejected t h may refl (nonempty-IsNamed hostname h named)
                  (refused_same w.next_id t h w.domains ∙ bad))
          | inr free ↦
              rw (accepted_row t h w free)
                (unfold delay ◌>>=◌ in queued denied user t hostname h w _ may named free refl)
        ]

  named_outcome :
      (denied : Response) (user : Option User) (tenant : Option Tenant) (hostname : Option Text)
      (o : Option Text) (w : World env)
      → nonempty hostname ≡ o
      → tenant_ceo_or_admin user tenant ≡ true
      → Outcome denied user tenant hostname w (
          given o hostname_required
            (λ h. given tenant denied λ t. catch (register_domain t h) (λ _. pure addition_failed))
            w)
  named_outcome denied user tenant hostname none w e may =
      unnamed (allowed user tenant may) (unnamed_hostname hostname e)
  named_outcome denied none none hostname (some h) w e may =
      absurd (unfold tenant_ceo_or_admin in ground (arith, may))
  named_outcome denied (some u) none hostname (some h) w e may =
      absurd (unfold tenant_ceo_or_admin in ground (arith, may))
  named_outcome denied user (some t) hostname (some h) w e may =
      registered denied user t hostname h w (allowed user (some t) may) e

-- A request to add a custom domain ends in one of five ways. From anybody but the CEO of the
-- request's tenant it is refused; without a hostname it is answered 400, and with a hostname that is
-- too long or taken 500; these three leave the world as it was. Else the row of an unverified custom
-- domain of that tenant, which is not its primary one, is added and its verification is handed to
-- the broker: the answer is 202 where the broker takes it, and 500 where the broker raises, and the
-- row stays then too.
pub add_custom_domain-Outcome :
    {env : Env} (denied : Response) (user : Option User) (tenant : Option Tenant)
    (hostname : Option Text) (w : World env)
    → Outcome denied user tenant hostname w (add_custom_domain denied user tenant hostname w)
unfolding add_custom_domain
add_custom_domain-Outcome denied user tenant hostname w =
    elim (Bool-cases (tenant_ceo_or_admin user tenant)) [
      | inl may ↦ rw may (named_outcome denied user tenant hostname (nonempty hostname) w refl may)
      | inr no_head ↦ rw no_head (forbidden (not_allowed user tenant no_head))
    ]
