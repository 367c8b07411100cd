-- ===== src/Subscriptions/Reconcile.antt =====
-- `SubscriptionReconcileService.reconcile`. The list of subscriptions is what Stripe reports.
use v_backend.Base.{
  ℕ, ◌+◌, Bool, true, false, List, [], ◌∷◌, Option, none, if◌then◌else◌, includes, length, distinct,
}
use v_backend.Plans.Exceptions.{PlanType, free}
use v_backend.Subscriptions.Store.{
  SubscriptionStatus, active, trialing, past_due, canceled, paused, stripe, Effect, ◌>>=◌, ◌>>◌,
  return,
}
use v_backend.Subscriptions.Repository.{
  SubscriptionData, upsert_subscription_from_stripe, update_account_plan, find_paid_account_ids,
}

-- One of `listManagedSubscriptions()`.
pub record ManagedSubscription : Type 0 where
  pub account_id : ℕ
  pub plan_type : PlanType
  pub status : SubscriptionStatus
  pub subscription_id : ℕ
  pub customer_id : Option ℕ
  pub period_start : ℕ
  pub period_end : ℕ
  pub cancel_at_period_end : Bool

unfoldable pub upsert_data : ManagedSubscription → SubscriptionData
upsert_data sub = record {
  account_id = sub.account_id;
  plan_type = sub.plan_type;
  status = sub.status;
  payment_provider = stripe;
  provider_subscription_id = sub.subscription_id;
  provider_customer_id = sub.customer_id;
  current_period_start = sub.period_start;
  current_period_end = sub.period_end;
  cancel_at_period_end = sub.cancel_at_period_end;
  trial_start = none;
  trial_end = none;
}

-- `active` and `trialing`: the plan is written.
unfoldable pub sets_plan : SubscriptionStatus → Bool
sets_plan active = true
sets_plan trialing = true
sets_plan past_due = false
sets_plan canceled = false
sets_plan paused = false

-- These and `past_due` keep the account on its plan.
unfoldable pub keeps_paid : SubscriptionStatus → Bool
keeps_paid active = true
keeps_paid trialing = true
keeps_paid past_due = true
keeps_paid canceled = false
keeps_paid paused = false

unfoldable pub pull_one : ManagedSubscription → Effect (Unit {0})
unfolding upsert_data upsert_subscription_from_stripe sets_plan update_account_plan
pull_one sub = do
  op ← upsert_subscription_from_stripe (upsert_data sub)
  if sets_plan sub.status then update_account_plan sub.account_id sub.plan_type else return tt

unfoldable pub pull_all : List ManagedSubscription → Effect (Unit {0})
pull_all [] = return tt
pull_all (sub ∷ subs) = do pull_one sub; pull_all subs

-- `paidAccounts`
unfoldable pub paid_accounts : List ManagedSubscription → List ℕ
unfolding keeps_paid
paid_accounts [] = []
paid_accounts (sub ∷ subs) =
    let rest = paid_accounts subs in if keeps_paid sub.status then sub.account_id ∷ rest else rest

unfoldable pub downgrade_all : List ℕ → List ℕ → Effect ℕ
unfolding includes update_account_plan
downgrade_all paid [] = return 0
downgrade_all paid (id ∷ ids) =
    let rest = downgrade_all paid ids in
    if includes paid id then rest else (do update_account_plan id free; n ← rest; return (n + 1))

-- What the report counts, less the created and updated rows.
pub record ReconcileResult : Type 0 where
  pub configured : Bool
  pub stripe_subscriptions : ℕ
  pub accounts_kept_paid : ℕ
  pub accounts_downgraded : ℕ

unfoldable pub reconcile : Bool → List ManagedSubscription → Effect ReconcileResult
unfolding pull_all paid_accounts downgrade_all find_paid_account_ids distinct
reconcile false subscriptions = return (record {
  configured = false;
  stripe_subscriptions = 0;
  accounts_kept_paid = 0;
  accounts_downgraded = 0;
})
reconcile true subscriptions = do
  pull_all subscriptions
  downgraded ← λ s. downgrade_all (paid_accounts subscriptions) (find_paid_account_ids s) s
  return (record {
    configured = true;
    stripe_subscriptions = length subscriptions;
    accounts_kept_paid = length (distinct (paid_accounts subscriptions));
    accounts_downgraded = downgraded;
  })
