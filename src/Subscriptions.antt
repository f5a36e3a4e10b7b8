-- ===== src/Subscriptions.antt =====
-- backend/subscriptions/tasks.py, class `Subscription` being in Models
use mifos_test.Prelude.{ℕ, Bool, true, false, ◌&&◌, ◌==◌, ltb, List, [], ◌∷◌, keep, rewrite}
use mifos_test.Models.{Subscription, SubscriptionStatus}
use mifos_test.Exec.{Exec, modify}
use mifos_test.Env.{Env}
use mifos_test.World.{World}
pub mod Sweep

-- `status__in=[Subscription.Status.TRIAL, Subscription.Status.ACTIVE]`
abbrev pub is_running : SubscriptionStatus → Bool
is_running SubscriptionStatus.trial = true
is_running SubscriptionStatus.active = true
is_running SubscriptionStatus.past_due = false
is_running SubscriptionStatus.canceled = false

-- The rows that the query finds: `current_period_end__lt=timezone.now()`
unfoldable pub is_overdue : ℕ → Subscription → Bool
is_overdue now s = ltb s.current_period_end now && is_running s.status

abbrev pub past_due : Subscription → Subscription
past_due s = record s { status = SubscriptionStatus.past_due }

-- `sub.save(update_fields=["status"])`, for the object whose status was set
abbrev pub save_status : Subscription → List Subscription → List Subscription
save_status sub rows = rewrite (λ s. s.id == sub.id) past_due rows

-- `for sub in expired`
unfoldable pub mark_each : List Subscription → List Subscription → List Subscription
mark_each [] rows = rows
mark_each (sub ∷ expired) rows = mark_each expired (save_status sub rows)

module _ {env : Env} where
  unfoldable pub sweep_expired_subscriptions : Exec (World env) Unit
  unfolding is_overdue mark_each
  sweep_expired_subscriptions = modify (λ w. record w {
    subscriptions = mark_each (keep (is_overdue w.now) w.subscriptions) w.subscriptions;
  })
