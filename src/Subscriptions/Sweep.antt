-- ===== src/Subscriptions/Sweep.antt =====
-- What the sweep of overdue subscriptions leaves.
use mifos_test.Prelude.{
  ◌⊎◌, ◌<◌, ◌∙◌, ap, sym, subst, map, ℕ, Bool, true, false, ◌==◌, List, [], ◌∷◌, keep, exists, All,
  Bool-cases, ◌≡◌, refl, inl, inr, arith, ==_refl, ltb, if◌then◌else◌,
}
use mifos_test.Models.{Subscription, SubscriptionStatus}
use mifos_test.Exec.{ok}
use mifos_test.Env.{Env}
use mifos_test.World.{World}
use mifos_test.Subscriptions.{
  is_overdue, is_running, past_due, save_status, mark_each, sweep_expired_subscriptions,
}

-- An overdue row has its id among these.
abbrev Pending : ℕ → List Subscription → Subscription → Type 0
Pending now expired s = is_overdue now s ≡ true → exists (λ e. s.id == e.id) expired ≡ true

past_due-overdue : (now : ℕ) (s : Subscription) → is_overdue now (past_due s) ≡ false
unfolding is_overdue
past_due-overdue now s = elim (Bool-cases (ltb s.current_period_end now)) [
  | inl e ↦ rw e refl
  | inr e ↦ rw e refl
]

save_status-Pending :
    (now : ℕ) (sub : Subscription) (expired rows : List Subscription)
    → All (Pending now (sub ∷ expired)) rows
    → All (Pending now expired) (save_status sub rows)
save_status-Pending now sub expired [] h = tt
save_status-Pending now sub expired (s ∷ rows) (p, h) = elim (Bool-cases (s.id == sub.id)) [
  | inl e ↦
      rw e (
        λ due. absurd (cc (due, past_due-overdue now s)),
        save_status-Pending now sub expired rows h,
      )
  | inr e ↦ rw e (λ due. ground (arith, p due, e), save_status-Pending now sub expired rows h)
]

none_overdue :
    (now : ℕ) (rows : List Subscription)
    → All (Pending now []) rows
    → keep (is_overdue now) rows ≡ []
none_overdue now [] h = refl
none_overdue now (s ∷ rows) (p, h) = elim (Bool-cases (is_overdue now s)) [
  | inl e ↦ absurd (cc (p e))
  | inr e ↦ rw e (none_overdue now rows h)
]

mark_each-overdue :
    (now : ℕ) (expired rows : List Subscription)
    → All (Pending now expired) rows
    → keep (is_overdue now) (mark_each expired rows) ≡ []
unfolding mark_each
mark_each-overdue now [] rows h = none_overdue now rows h
mark_each-overdue now (sub ∷ expired) rows h =
    mark_each-overdue now expired (save_status sub rows)
      (save_status-Pending now sub expired rows h)

Pending-cons :
    (now : ℕ) (e : Subscription) (expired rows : List Subscription)
    → All (Pending now expired) rows
    → All (Pending now (e ∷ expired)) rows
Pending-cons now e expired [] h = tt
Pending-cons now e expired (s ∷ rows) (p, h) =
    (λ due. ground (arith, p due), Pending-cons now e expired rows h)

keep-Pending :
    (now : ℕ) (rows : List Subscription) → All (Pending now (keep (is_overdue now) rows)) rows
keep-Pending now [] = tt
keep-Pending now (s ∷ rows) = decided (is_overdue now s) refl (keep-Pending now rows)
  where
    decided :
        (b : Bool)
        → is_overdue now s ≡ b
        → All (Pending now (keep (is_overdue now) rows)) rows
        → All
            (Pending now (if b then s ∷ keep (is_overdue now) rows else keep (is_overdue now) rows))
            (s ∷ rows)
    decided true e rest = (
      λ due. ground (arith, ==_refl s.id),
      Pending-cons now s (keep (is_overdue now) rows) rows rest,
    )
    decided false e rest = (λ due. absurd (cc (due, e)), rest)

-- A row is on trial or active, and its period has ended.
abbrev pub Overdue : ℕ → Subscription → Type 0
Overdue now s =
    (s.current_period_end < now)
    × ((s.status ≡ SubscriptionStatus.trial) ⊎ (s.status ≡ SubscriptionStatus.active))

is_overdue-Overdue : (now : ℕ) (s : Subscription) → is_overdue now s ≡ true → Overdue now s
unfolding is_overdue
is_overdue-Overdue now s e = (ground (arith, e), running s.status (ground (arith, e)))
  where
    running :
        (x : SubscriptionStatus)
        → is_running x ≡ true
        → (x ≡ SubscriptionStatus.trial) ⊎ (x ≡ SubscriptionStatus.active)
    running SubscriptionStatus.trial h = inl refl
    running SubscriptionStatus.active h = inr refl
    running SubscriptionStatus.past_due h = cc h
    running SubscriptionStatus.canceled h = cc h

Overdue-is_overdue : (now : ℕ) (s : Subscription) → Overdue now s → is_overdue now s ≡ true
unfolding is_overdue
Overdue-is_overdue now s (ended, inl e) =
    let late : ltb s.current_period_end now ≡ true = ground (arith, ended) in rw (late, e) refl
Overdue-is_overdue now s (ended, inr e) =
    let late : ltb s.current_period_end now ≡ true = ground (arith, ended) in rw (late, e) refl

-- A row `s` is left as `s'`: it is past due if it was overdue, and it is as before if no row of its
-- id was.
abbrev pub Swept : ℕ → List Subscription → Subscription → Subscription → Type 0
Swept now rows s s' =
    (Overdue now s → s' ≡ record s { status = SubscriptionStatus.past_due })
    × (All (λ r. r.id ≡ s.id → ¬ Overdue now r) rows → s' ≡ s)

-- The rows after the sweep, one for one.
abbrev pub EachSwept : ℕ → List Subscription → List Subscription → List Subscription → Type 0
EachSwept now all [] [] = Unit
EachSwept now all [] (s' ∷ after) = ⊥
EachSwept now all (s ∷ rows) [] = ⊥
EachSwept now all (s ∷ rows) (s' ∷ after) = Swept now all s s' × EachSwept now all rows after

-- A row after the objects with these ids were saved.
abbrev marked : List Subscription → Subscription → Subscription
marked expired s = if exists (λ e. s.id == e.id) expired then past_due s else s

mark_each-marked :
    (expired rows : List Subscription) → mark_each expired rows ≡ map (marked expired) rows
unfolding mark_each
mark_each-marked [] [] = refl
mark_each-marked [] (s ∷ rows) = ap (λ l. s ∷ l) (mark_each-marked [] rows)
mark_each-marked (sub ∷ expired) rows = mark_each-marked expired (save_status sub rows) ∙ saved rows
  where
    saved :
        (rows : List Subscription)
        → map (marked expired) (save_status sub rows) ≡ map (marked (sub ∷ expired)) rows
    saved [] = refl
    saved (s ∷ rows) = elim (Bool-cases (s.id == sub.id)) [
      | inl e ↦ elim (Bool-cases (exists (λ x. s.id == x.id) expired)) [
        | inl f ↦ rw (e, f) (ap (λ l. past_due s ∷ l) (saved rows))
        | inr f ↦ rw (e, f) (ap (λ l. past_due s ∷ l) (saved rows))
      ]
      | inr e ↦ rw e (ap (λ l. marked expired s ∷ l) (saved rows))
    ]

-- An id among those of the overdue rows is that of an overdue row.
not_marked :
    (now : ℕ) (s : Subscription) (rows : List Subscription)
    → All (λ r. r.id ≡ s.id → ¬ Overdue now r) rows
    → exists (λ e. s.id == e.id) (keep (is_overdue now) rows) ≡ false
not_marked now s [] h = refl
not_marked now s (r ∷ rows) (free, h) = elim (Bool-cases (is_overdue now r)) [
  | inl e ↦ elim (Bool-cases (s.id == r.id)) [
    | inl same ↦ absurd (free (ground (arith, same)) (is_overdue-Overdue now r e))
    | inr differs ↦ rw e (rw differs (not_marked now s rows h))
  ]
  | inr e ↦ rw e (not_marked now s rows h)
]

each_swept :
    (now : ℕ) (all rows : List Subscription)
    → All (Pending now (keep (is_overdue now) all)) rows
    → EachSwept now all rows (map (marked (keep (is_overdue now) all)) rows)
each_swept now all [] h = tt
each_swept now all (s ∷ rows) (p, h) = (
  (λ due. rw (p (Overdue-is_overdue now s due)) refl, λ free. rw (not_marked now s all free) refl),
  each_swept now all rows h,
)

-- A sweep leaves the subscriptions in their order. One that was on trial or active and past the end
-- of its period is PAST_DUE then, with its other columns as they were; one whose id no such row had
-- is as it was. None is left to be swept, and a second sweep at the same time changes nothing.
pub sweep_lem :
    {env : Env} (w : World env)
    → let after = (sweep_expired_subscriptions w).1 in
      EachSwept w.now w.subscriptions w.subscriptions after.subscriptions
      × (All (λ s. ¬ Overdue w.now s) after.subscriptions
          × (sweep_expired_subscriptions after ≡ (ok tt, after)))
unfolding sweep_expired_subscriptions
sweep_lem w =
    let expired = keep (is_overdue w.now) w.subscriptions in
    let pending = keep-Pending w.now w.subscriptions in
    let swept = mark_each-overdue w.now expired w.subscriptions pending in
    (
      subst (EachSwept w.now w.subscriptions w.subscriptions)
          (sym (mark_each-marked expired w.subscriptions))
          (each_swept w.now w.subscriptions w.subscriptions pending),
      (
        kept_none w.now (mark_each expired w.subscriptions) swept,
        unfold mark_each in rw swept refl,
      ),
    )
  where
    kept_none :
        (now : ℕ) (rows : List Subscription)
        → keep (is_overdue now) rows ≡ []
        → All (λ s. ¬ Overdue now s) rows
    kept_none now [] e = tt
    kept_none now (s ∷ rows) e = elim (Bool-cases (is_overdue now s)) [
      | inl due ↦ absurd (ground (arith, due, e))
      | inr fine ↦ (
        λ over. absurd (cc (fine, Overdue-is_overdue now s over)),
        kept_none now rows (ground (arith, fine, e)),
      )
    ]
