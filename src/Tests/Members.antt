-- ===== src/Tests/Members.antt =====
-- Accounts with subscriptions, and events of the payment provider.
use v_backend.Base.{any_row, find_row, update_rows}
use v_backend.Subscriptions.Repository.{find_subscription_by_provider_id, has_account, is_plan}
use v_backend.Subscriptions.Webhooks.{is_paying}
use v_backend.Base.{ℕ, ◌≡◌, refl, true, false, List, [], ◌∷◌, none, some, ok, err, internal}
use mathlib.Core.Option
use v_backend.Plans.Exceptions.{free, pro, enterprise}
use v_backend.Subscriptions.Store.{
  stripe, Store, Account, Subscription, WebhookEvent, SubscriptionStatus,
}
use v_backend.Subscriptions.Repository.{
  find_account_plan, set_plan, find_webhook_event, upsert_webhook_event, new_event,
}
use v_backend.Subscriptions.Webhooks.{
  incomplete, StripeSubscription, StripeEvent, checkout_completed, subscription_deleted, Reply,
  done, already_processed, process_stripe_webhook, handle_subscription_update, was_processed,
  handle_stripe_event,
}
use v_backend.Subscriptions.Progress.{
  process_stripe_webhook_replayed, process_stripe_webhook_failed,
  process_stripe_webhook_gets_through, handle_subscription_update_unpaid,
}
use v_backend.Subscriptions.Reconcile.{ManagedSubscription, reconcile, ReconcileResult}
use v_backend.Subscriptions.Agreement.{entitled}
use v_backend.Subscriptions.Settles.{reconcile_settles}

abbrev club : Store
club = record {
  accounts =
      record { id = 1; plan_type = free }
      ∷ record { id = 2; plan_type = pro }
      ∷ record { id = 3; plan_type = pro }
      ∷ [];
  subscriptions = [];
  events = [];
  next_subscription = 1;
  next_event = 1;
}

abbrev upgrade : StripeEvent
upgrade = checkout_completed (some 1) none

abbrev upgraded : Store
upgraded = record club {
  accounts =
      record { id = 1; plan_type = pro }
      ∷ record { id = 2; plan_type = pro }
      ∷ record { id = 3; plan_type = pro }
      ∷ [];
  events =
      record {
        id = 1;
        provider = v_backend.Subscriptions.Store.stripe;
        event_id = 70;
        processed = true;
        processed_at = some 5;
        error = none;
        retry_count = 0;
      }
      ∷ [];
  next_event = 2;
}

process_stripe_webhook_replayed_example :
    process_stripe_webhook 9 70 (checkout_completed (some 1) (some enterprise)) upgraded
    ≡ (upgraded, ok already_processed)
unfolding process_stripe_webhook find_row any_row update_rows
process_stripe_webhook_replayed_example =
    process_stripe_webhook_replayed 5 9 70 upgrade (checkout_completed (some 1) (some enterprise))
      club upgraded done refl

-- An event of an account that is gone.
abbrev stray : StripeEvent
stray = checkout_completed (some 8) none

abbrev failed : Store
failed = record club {
  events =
      record {
        id = 1;
        provider = v_backend.Subscriptions.Store.stripe;
        event_id = 71;
        processed = false;
        processed_at = none;
        error = some internal;
        retry_count = 0;
      }
      ∷ [];
  next_event = 2;
}

process_stripe_webhook_failed_example :
    (t : Store) × (e : WebhookEvent) × (process_stripe_webhook 5 71 stray club ≡ (t, err internal))
    × (find_webhook_event 71 t.events ≡ some e)
    × (e.processed ≡ false)
    × (e.error ≡ some internal)
    × (t.accounts ≡ (upsert_webhook_event stripe 71 club).0.accounts)
    × (t.subscriptions ≡ (upsert_webhook_event stripe 71 club).0.subscriptions)
unfolding handle_stripe_event upsert_webhook_event find_webhook_event find_row new_event
    was_processed any_row
process_stripe_webhook_failed_example =
    process_stripe_webhook_failed 5 71 stray club (upsert_webhook_event stripe 71 club).0
      (upsert_webhook_event stripe 71 club).0 (new_event 1 stripe 71) internal refl refl refl

abbrev awaiting : StripeSubscription
awaiting = record {
  id = 40;
  customer = 50;
  status = incomplete;
  cancel_at_period_end = false;
  account_id = some 1;
  plan_type = some pro;
  period_start = some 1000;
  period_end = some 2000;
  trial_end = none;
}

process_stripe_webhook_gets_through_example :
    (t : Store) × (r : Reply) × (process_stripe_webhook 5 72 (subscription_deleted awaiting) failed
      ≡ (t, ok r))
    × (was_processed (find_webhook_event 72 t.events) ≡ true)
unfolding has_account any_row is_plan
process_stripe_webhook_gets_through_example =
    process_stripe_webhook_gets_through 5 72 (subscription_deleted awaiting) failed (refl, refl)

handle_subscription_update_unpaid_example :
    (t : Store) × (handle_subscription_update 5 awaiting club ≡ (t, ok tt))
    × (t.accounts ≡ set_plan 1 pro club.accounts)
unfolding find_subscription_by_provider_id find_row is_paying has_account any_row is_plan
handle_subscription_update_unpaid_example =
    handle_subscription_update_unpaid 5 1 awaiting club refl refl refl (refl, refl)

-- Account 1 pays, account 2 is in dunning, account 3 is not reported.
abbrev reported : SubscriptionStatus → ℕ → ℕ → ManagedSubscription
reported status account subscription = record {
  account_id = account;
  plan_type = enterprise;
  status = status;
  subscription_id = subscription;
  customer_id = some 50;
  period_start = 1000;
  period_end = 2000;
  cancel_at_period_end = false;
}

abbrev listed : List ManagedSubscription
listed = reported SubscriptionStatus.active 1 60 ∷ reported SubscriptionStatus.past_due 2 61 ∷ []

reconcile_settles_example :
    (t : Store) × (r : ReconcileResult) × (reconcile true listed club ≡ (t, ok r))
    × ((id : ℕ)
        → find_account_plan id t ≡ Option.map (entitled listed id) (find_account_plan id club))
unfolding has_account any_row is_plan
reconcile_settles_example =
    reconcile_settles listed club ((refl, (refl, tt)), ((refl, tt), (tt, tt)))
      ((refl, refl), ((refl, refl), tt))
