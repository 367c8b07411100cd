-- ===== src/Subscriptions/Service.antt =====
-- `SubscriptionService`: the writes. The usage counts and the summary for the client are left out.
use v_backend.Base.{ℕ, false, Option, none, some}
use v_backend.Plans.Exceptions.{PlanType, free}
use v_backend.Subscriptions.Store.{
  SubscriptionStatus, active, trialing, Provider, Subscription, Store, Effect, ◌>>◌,
}
use v_backend.Subscriptions.Repository
use v_backend.Subscriptions.Repository.{
  SubscriptionData, find_account_plan, update_account_plan, find_active_subscription,
  find_manageable_subscription,
}

-- `a ?? b`
abbrev pub or_else {ℓ} : {A : Type ℓ} → Option A → A → A
or_else none b = b
or_else (some a) b = a

unfoldable pub get_account_plan : ℕ → Store → PlanType
get_account_plan id s = or_else (find_account_plan id s) free

unfoldable pub get_active_subscription : ℕ → Store → Option Subscription
get_active_subscription = find_active_subscription

unfoldable pub get_manageable_subscription : ℕ → Store → Option Subscription
get_manageable_subscription = find_manageable_subscription

unfoldable pub update_plan : ℕ → PlanType → Effect (Unit {0})
unfolding update_account_plan
update_plan account_id new_plan = update_account_plan account_id new_plan

pub record NewSubscription : Type 0 where
  pub account_id : ℕ
  pub plan_type : PlanType
  pub payment_provider : Provider
  pub provider_subscription_id : ℕ
  pub provider_customer_id : ℕ
  pub period_start : ℕ
  pub period_end : ℕ
  pub trial_end : Option ℕ
  pub status : Option SubscriptionStatus

unfoldable pub status_without : Option ℕ → SubscriptionStatus
status_without none = active
status_without (some t) = trialing

unfoldable pub trial_start_of : ℕ → Option ℕ → Option ℕ
trial_start_of now none = none
trial_start_of now (some t) = some now

unfoldable pub row_of : ℕ → NewSubscription → SubscriptionData
unfolding status_without trial_start_of
row_of now d = record {
  account_id = d.account_id;
  plan_type = d.plan_type;
  status = or_else d.status (status_without d.trial_end);
  payment_provider = d.payment_provider;
  provider_subscription_id = d.provider_subscription_id;
  provider_customer_id = some d.provider_customer_id;
  current_period_start = d.period_start;
  current_period_end = d.period_end;
  cancel_at_period_end = false;
  trial_start = trial_start_of now d.trial_end;
  trial_end = d.trial_end;
}

unfoldable pub create_subscription : ℕ → NewSubscription → Effect (Unit {0})
unfolding row_of update_plan Repository.create_subscription
create_subscription now d = do
  Repository.create_subscription (row_of now d)
  update_plan d.account_id d.plan_type

unfoldable pub handle_subscription_ended : ℕ → Effect (Unit {0})
unfolding update_plan
handle_subscription_ended account_id = update_plan account_id free
