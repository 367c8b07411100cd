-- ===== src/Subscriptions/Repository.antt =====
-- `PrismaSubscriptionRepository` and `PrismaWebhookRepository`. The database refuses a write to a row
-- that is missing, a subscription of an account that is missing, and a plan that is not in the enum.
use v_backend.Base.{
  ℕ, suc, ◌+◌, Bool, true, false, ◌&&◌, List, [], ◌∷◌, ◌++◌, Option, none, some, map, ok, err,
  HttpError, internal, ◌==◌, if◌then◌else◌, find_row, where_rows, update_rows, any_row,
}
use mathlib.Core.Option
use v_backend.Plans.Exceptions.{PlanType, free, pro, enterprise, other}
use v_backend.Subscriptions.Store.{
  SubscriptionStatus, active, canceled, past_due, trialing, paused, Provider, Account, Subscription,
  WebhookEvent, Store, Effect, ◌>>◌, return, throw,
}

-- The value is one of the enum `PlanType`.
unfoldable pub is_plan : PlanType → Bool
is_plan free = true
is_plan pro = true
is_plan enterprise = true
is_plan other = false

unfoldable pub find_account : ℕ → List Account → Option Account
find_account id = find_row λ a. a.id == id

unfoldable pub find_account_plan : ℕ → Store → Option PlanType
unfolding find_account
find_account_plan id s = Option.map (λ (a : Account). a.plan_type) (find_account id s.accounts)

unfoldable pub has_account : ℕ → Store → Bool
has_account id s = any_row (λ (a : Account). a.id == id) s.accounts

unfoldable pub set_plan : ℕ → PlanType → List Account → List Account
set_plan id plan = update_rows (λ a. a.id == id) λ a. record a { plan_type = plan }

unfoldable pub update_account_plan : ℕ → PlanType → Effect (Unit {0})
unfolding has_account is_plan set_plan
update_account_plan id plan s =
    if has_account id s && is_plan plan
    then (record s { accounts = set_plan id plan s.accounts }, ok tt)
    else (s, err internal)

-- The newest row that meets a condition: rows stand in the order of their creation.
unfoldable pub find_newest : (Subscription → Bool) → List Subscription → Option Subscription
find_newest p [] = none
find_newest p (x ∷ xs) = elim (find_newest p xs) [
  | none ↦ if p x then some x else none
  | some y ↦ some y
]

unfoldable pub is_live : SubscriptionStatus → Bool
is_live active = true
is_live trialing = true
is_live past_due = false
is_live canceled = false
is_live paused = false

unfoldable pub is_manageable : SubscriptionStatus → Bool
is_manageable active = true
is_manageable trialing = true
is_manageable past_due = true
is_manageable paused = true
is_manageable canceled = false

unfoldable pub find_active_subscription : ℕ → Store → Option Subscription
unfolding find_newest is_live
find_active_subscription id s =
    find_newest (λ x. x.account_id == id && is_live x.status) s.subscriptions

is_some : Option ℕ → Bool
is_some none = false
is_some (some n) = true

unfoldable pub find_manageable_subscription : ℕ → Store → Option Subscription
unfolding find_newest is_manageable is_some
find_manageable_subscription id s =
    find_newest
      (λ x. x.account_id == id && is_some x.provider_customer_id && is_manageable x.status)
      s.subscriptions

-- The columns of a new row.
pub record SubscriptionData : Type 0 where
  pub account_id : ℕ
  pub plan_type : PlanType
  pub status : SubscriptionStatus
  pub payment_provider : Provider
  pub provider_subscription_id : ℕ
  pub provider_customer_id : Option ℕ
  pub current_period_start : ℕ
  pub current_period_end : ℕ
  pub cancel_at_period_end : Bool
  pub trial_start : Option ℕ
  pub trial_end : Option ℕ

unfoldable pub new_subscription : ℕ → SubscriptionData → Subscription
new_subscription id d = record {
  id = id;
  account_id = d.account_id;
  plan_type = d.plan_type;
  status = d.status;
  payment_provider = d.payment_provider;
  provider_subscription_id = d.provider_subscription_id;
  provider_customer_id = d.provider_customer_id;
  current_period_start = d.current_period_start;
  current_period_end = d.current_period_end;
  cancel_at_period_end = d.cancel_at_period_end;
  canceled_at = none;
  trial_start = d.trial_start;
  trial_end = d.trial_end;
}

unfoldable pub create_subscription : SubscriptionData → Effect (Unit {0})
unfolding has_account is_plan new_subscription
create_subscription d s =
    if has_account d.account_id s && is_plan d.plan_type
    then (
      record s {
        next_subscription = suc s.next_subscription;
        subscriptions = s.subscriptions ++ new_subscription s.next_subscription d ∷ [];
      },
      ok tt,
    )
    else (s, err internal)

unfoldable pub find_subscription_by_provider_id : ℕ → List Subscription → Option Subscription
find_subscription_by_provider_id id = find_row λ x. x.provider_subscription_id == id

unfoldable pub update_subscriptions_by_provider_id :
    ℕ → (Subscription → Subscription) → Effect (Unit {0})
update_subscriptions_by_provider_id id f s = (
  record s {
    subscriptions = update_rows (λ x. x.provider_subscription_id == id) f s.subscriptions;
  },
  ok tt,
)

-- The row was found just before, so this write is not refused for a missing row.
unfoldable pub update_subscription_by_id : ℕ → (Subscription → Subscription) → Effect (Unit {0})
update_subscription_by_id id f s =
    (record s { subscriptions = update_rows (λ x. x.id == id) f s.subscriptions }, ok tt)

-- What the upsert writes to a row that is there.
unfoldable pub refresh : SubscriptionData → Subscription → Subscription
refresh d x = record x {
  plan_type = d.plan_type;
  status = d.status;
  provider_customer_id = d.provider_customer_id;
  current_period_start = d.current_period_start;
  current_period_end = d.current_period_end;
  cancel_at_period_end = d.cancel_at_period_end;
}

pub data UpsertOutcome : Type 0 where
  created updated : UpsertOutcome

unfoldable pub update_from_stripe : SubscriptionData → Subscription → Effect UpsertOutcome
unfolding is_plan refresh update_subscription_by_id
update_from_stripe d existing =
    if is_plan d.plan_type
    then (do update_subscription_by_id existing.id (refresh d); return updated)
    else throw internal

unfoldable pub create_from_stripe : SubscriptionData → Effect UpsertOutcome
unfolding create_subscription
create_from_stripe d = do create_subscription d; return created

unfoldable pub upsert_subscription_from_stripe : SubscriptionData → Effect UpsertOutcome
unfolding find_subscription_by_provider_id update_from_stripe create_from_stripe
upsert_subscription_from_stripe d s =
    elim (find_subscription_by_provider_id d.provider_subscription_id s.subscriptions) [
      | none ↦ create_from_stripe d s
      | some existing ↦ update_from_stripe d existing s
    ]

unfoldable pub is_paid : PlanType → Bool
is_paid free = false
is_paid pro = true
is_paid enterprise = true
is_paid other = false

-- `findPaidAccountIds(['pro', 'enterprise'])`
unfoldable pub find_paid_account_ids : Store → List ℕ
unfolding is_paid
find_paid_account_ids s =
    map (λ (a : Account). a.id) (where_rows (λ (a : Account). is_paid a.plan_type) s.accounts)

unfoldable pub find_webhook_event : ℕ → List WebhookEvent → Option WebhookEvent
find_webhook_event id = find_row λ e. e.event_id == id

unfoldable pub new_event : ℕ → Provider → ℕ → WebhookEvent
new_event id provider event_id = record {
  id = id;
  provider = provider;
  event_id = event_id;
  processed = false;
  processed_at = none;
  error = none;
  retry_count = 0;
}

unfoldable pub retried : WebhookEvent → WebhookEvent
retried e = record e { retry_count = e.retry_count + 1 }

unfoldable pub upsert_webhook_event : Provider → ℕ → Effect WebhookEvent
unfolding find_webhook_event new_event retried
upsert_webhook_event provider event_id s = elim (find_webhook_event event_id s.events) [
  | none ↦ (
    record s {
      next_event = suc s.next_event;
      events = s.events ++ new_event s.next_event provider event_id ∷ [];
    },
    ok (new_event s.next_event provider event_id),
  )
  | some e ↦ (
    record s { events = update_rows (λ x. x.event_id == event_id) retried s.events },
    ok (retried e),
  )
]

unfoldable pub mark_webhook_processed : ℕ → ℕ → Effect (Unit {0})
mark_webhook_processed now id s = (
  record s {
    events =
        update_rows (λ (e : WebhookEvent). e.id == id)
          (λ e. record e { processed = true; processed_at = some now }) s.events;
  },
  ok tt,
)

unfoldable pub mark_webhook_error : ℕ → HttpError → Effect (Unit {0})
mark_webhook_error id thrown s = (
  record s {
    events =
        update_rows (λ (e : WebhookEvent). e.id == id) (λ e. record e { error = some thrown })
          s.events;
  },
  ok tt,
)
