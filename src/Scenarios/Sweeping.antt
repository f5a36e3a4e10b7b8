-- ===== src/Scenarios/Sweeping.antt =====
-- The sweep of overdue subscriptions at concrete rows.
use mifos_test.Prelude.{All, ◌≡◌, refl, none, [], ◌∷◌, true, map}
use mifos_test.Models.{Subscription, SubscriptionStatus, Plan}
use mifos_test.Exec.{ok}
use mifos_test.World.{World}
use mifos_test.Subscriptions.{sweep_expired_subscriptions}
use mifos_test.Subscriptions.Sweep.{EachSwept, Overdue, sweep_lem}
use mifos_test.Scenarios.Toy.{toy, fresh}

abbrev overdue : Subscription
overdue = record {
  id = 40;
  tenant = 1;
  plan = Plan.starter;
  status = SubscriptionStatus.trial;
  max_members = 500;
  max_branches = 1;
  trial_ends_at = none;
  current_period_start = 0;
  current_period_end = 0;
}

abbrev canceled : Subscription
canceled = record overdue { id = 41; status = SubscriptionStatus.canceled }

abbrev later : World (toy true)
later = record (fresh true true) { subscriptions = canceled ∷ overdue ∷ []; now = 10 }

trial_is_past_due :
    map (λ (s : Subscription). s.status) (sweep_expired_subscriptions later).1.subscriptions
    ≡ SubscriptionStatus.canceled ∷ SubscriptionStatus.past_due ∷ []
unfolding sweep_expired_subscriptions
trial_is_past_due = refl

sweep_lem_example :
    let after = (sweep_expired_subscriptions later).1 in
    EachSwept 10 later.subscriptions later.subscriptions after.subscriptions
    × (All (λ s. ¬ Overdue 10 s) after.subscriptions
        × (sweep_expired_subscriptions after ≡ (ok tt, after)))
sweep_lem_example = sweep_lem later
