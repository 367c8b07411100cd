-- ===== src/Subscriptions/Webhooks.antt =====
-- `WebhookService`. An event is what the provider's signed payload says, with the fields that the
-- code reads; a field that may be absent is an option. Times from Stripe are in seconds.
use v_backend.Base.{
  ℕ, ◌+◌, ◌*◌, Bool, true, false, Option, none, some, Result, ok, err, ◌==◌, if◌then◌else◌,
}
use v_backend.Plans.Exceptions.{PlanType, pro}
use v_backend.Subscriptions.Store.{
  SubscriptionStatus, Provider, stripe, pagseguro, Subscription, WebhookEvent, Store, Effect, ◌>>=◌,
  ◌>>◌, return,
}
use v_backend.Subscriptions.Repository.{
  find_webhook_event, upsert_webhook_event, mark_webhook_processed, mark_webhook_error,
  find_subscription_by_provider_id, update_subscription_by_id, update_subscriptions_by_provider_id,
}
use v_backend.Subscriptions.Service.{
  or_else, update_plan, create_subscription, handle_subscription_ended, NewSubscription,
}

-- The status texts of Stripe; `unknown` is any other.
pub data StripeStatus : Type 0 where
  active trialing past_due canceled unpaid paused incomplete incomplete_expired unknown :
      StripeStatus

pub record StripeSubscription : Type 0 where
  pub id : ℕ
  pub customer : ℕ
  pub status : StripeStatus
  pub cancel_at_period_end : Bool
  pub account_id : Option ℕ
  pub plan_type : Option PlanType
  -- `items.data[0].current_period_start` and `_end`.
  pub period_start : Option ℕ
  pub period_end : Option ℕ
  pub trial_end : Option ℕ

pub record Invoice : Type 0 where
  pub subscription : Option ℕ
  pub period_start : ℕ
  pub period_end : ℕ

pub data StripeEvent : Type 0 where
  checkout_completed : Option ℕ → Option PlanType → StripeEvent
  subscription_changed : StripeSubscription → StripeEvent
  subscription_deleted : StripeSubscription → StripeEvent
  payment_succeeded : Invoice → StripeEvent
  payment_failed : Invoice → StripeEvent
  unhandled : StripeEvent

-- `statusMap[...] || 'active'`
unfoldable pub map_status : StripeStatus → SubscriptionStatus
map_status active = SubscriptionStatus.active
map_status trialing = SubscriptionStatus.trialing
map_status past_due = SubscriptionStatus.past_due
map_status canceled = SubscriptionStatus.canceled
map_status unpaid = SubscriptionStatus.past_due
map_status paused = SubscriptionStatus.paused
map_status incomplete = SubscriptionStatus.past_due
map_status incomplete_expired = SubscriptionStatus.canceled
map_status unknown = SubscriptionStatus.active

-- `status === 'active' || status === 'trialing'`
unfoldable pub is_paying : StripeStatus → Bool
is_paying active = true
is_paying trialing = true
is_paying past_due = false
is_paying canceled = false
is_paying unpaid = false
is_paying paused = false
is_paying incomplete = false
is_paying incomplete_expired = false
is_paying unknown = false

-- A missing time and the time 0 are both falsy.
unfoldable pub truthy : Option ℕ → Option ℕ
truthy none = none
truthy (some t) = if t == 0 then none else some t

unfoldable pub get_subscription_period : StripeSubscription → Option (ℕ × ℕ)
unfolding truthy
get_subscription_period sub = elim (truthy sub.period_start) [
  | none ↦ none
  | some start ↦ elim (truthy sub.period_end) [
    | none ↦ none
    | some end ↦ some (start * 1000, end * 1000)
  ]
]

unfoldable pub handle_checkout_completed : Option ℕ → Option PlanType → Effect (Unit {0})
unfolding update_plan
handle_checkout_completed none plan = return tt
handle_checkout_completed (some account_id) plan = update_plan account_id (or_else plan pro)

unfoldable pub with_period : Option (ℕ × ℕ) → Subscription → Subscription
with_period none x = x
with_period (some period) x = record x {
  current_period_start = period.0;
  current_period_end = period.1;
}

-- What the handler writes to a row that is there: the plan type is not among it.
unfoldable pub follow : StripeSubscription → Subscription → Subscription
unfolding with_period map_status get_subscription_period
follow sub x =
    with_period (get_subscription_period sub)
      (record x { status = map_status sub.status; cancel_at_period_end = sub.cancel_at_period_end })

unfoldable pub seconds : Option ℕ → Option ℕ
seconds none = none
seconds (some t) = some (t * 1000)

unfoldable pub new_from : ℕ → ℕ → StripeSubscription → NewSubscription
unfolding get_subscription_period map_status truthy seconds
new_from now account_id sub =
    let period = or_else (get_subscription_period sub) (now, now + 30 * 24 * 60 * 60 * 1000) in
    record {
      account_id = account_id;
      plan_type = or_else sub.plan_type pro;
      payment_provider = stripe;
      provider_subscription_id = sub.id;
      provider_customer_id = sub.customer;
      period_start = period.0;
      period_end = period.1;
      trial_end = seconds (truthy sub.trial_end);
      status = some (map_status sub.status);
    }

-- The row of the subscription, updated or created.
unfoldable pub record_subscription : ℕ → ℕ → StripeSubscription → Effect (Unit {0})
unfolding find_subscription_by_provider_id update_subscription_by_id follow create_subscription
    new_from
record_subscription now account_id sub s =
    elim (find_subscription_by_provider_id sub.id s.subscriptions) [
      | none ↦ create_subscription now (new_from now account_id sub) s
      | some x ↦ update_subscription_by_id x.id (follow sub) s
    ]

unfoldable pub update_paying_plan : ℕ → StripeSubscription → Effect (Unit {0})
unfolding update_plan is_paying
update_paying_plan account_id sub =
    if is_paying sub.status then update_plan account_id (or_else sub.plan_type pro) else return tt

unfoldable pub handle_subscription_update : ℕ → StripeSubscription → Effect (Unit {0})
unfolding record_subscription update_paying_plan
handle_subscription_update now sub = elim sub.account_id [
  | none ↦ return tt
  | some account_id ↦ do record_subscription now account_id sub; update_paying_plan account_id sub
]

unfoldable pub end_row : ℕ → Subscription → Subscription
end_row now x = record x { status = SubscriptionStatus.canceled; canceled_at = some now }

unfoldable pub handle_subscription_deleted : ℕ → StripeSubscription → Effect (Unit {0})
unfolding update_subscriptions_by_provider_id handle_subscription_ended end_row
handle_subscription_deleted now sub = elim sub.account_id [
  | none ↦ return tt
  | some account_id ↦ do
    update_subscriptions_by_provider_id sub.id (end_row now)
    handle_subscription_ended account_id
]

unfoldable pub pay : Invoice → Subscription → Subscription
pay invoice x = record x {
  status = SubscriptionStatus.active;
  current_period_start = invoice.period_start * 1000;
  current_period_end = invoice.period_end * 1000;
}

unfoldable pub handle_invoice_payment_succeeded : Invoice → Effect (Unit {0})
unfolding update_subscriptions_by_provider_id pay
handle_invoice_payment_succeeded invoice = elim invoice.subscription [
  | none ↦ return tt
  | some id ↦ update_subscriptions_by_provider_id id (pay invoice)
]

unfoldable pub fall_due : Subscription → Subscription
fall_due x = record x { status = SubscriptionStatus.past_due }

unfoldable pub handle_invoice_payment_failed : Invoice → Effect (Unit {0})
unfolding update_subscriptions_by_provider_id fall_due
handle_invoice_payment_failed invoice = elim invoice.subscription [
  | none ↦ return tt
  | some id ↦ update_subscriptions_by_provider_id id fall_due
]

unfoldable pub handle_stripe_event : ℕ → StripeEvent → Effect (Unit {0})
unfolding handle_checkout_completed handle_subscription_update handle_subscription_deleted
    handle_invoice_payment_succeeded handle_invoice_payment_failed
handle_stripe_event now (checkout_completed account_id plan) =
    handle_checkout_completed account_id plan
handle_stripe_event now (subscription_changed sub) = handle_subscription_update now sub
handle_stripe_event now (subscription_deleted sub) = handle_subscription_deleted now sub
handle_stripe_event now (payment_succeeded invoice) = handle_invoice_payment_succeeded invoice
handle_stripe_event now (payment_failed invoice) = handle_invoice_payment_failed invoice
handle_stripe_event now unhandled = return tt

-- The answer to the provider.
pub data Reply : Type 0 where
  done already_processed : Reply

-- What `try { ... } catch` makes of the handler's end.
unfoldable pub settle : ℕ → ℕ → Store × Result (Unit {0}) → Store × Result Reply
unfolding mark_webhook_processed mark_webhook_error
settle now id (s, ok u) = ((mark_webhook_processed now id s).0, ok done)
settle now id (s, err thrown) = ((mark_webhook_error id thrown s).0, err thrown)

unfoldable pub run_event : ℕ → Provider → ℕ → Effect (Unit {0}) → Effect Reply
unfolding upsert_webhook_event settle
run_event now provider event_id handler =
    upsert_webhook_event provider event_id >>= λ webhook_record s.
    settle now webhook_record.id (handler s)

unfoldable pub was_processed : Option WebhookEvent → Bool
was_processed none = false
was_processed (some e) = e.processed

-- The body that the two `process...Webhook` share.
unfoldable pub process : ℕ → Provider → ℕ → Effect (Unit {0}) → Effect Reply
unfolding find_webhook_event was_processed run_event
process now provider event_id handler s =
    if was_processed (find_webhook_event event_id s.events)
    then (s, ok already_processed)
    else run_event now provider event_id handler s

unfoldable pub process_stripe_webhook : ℕ → ℕ → StripeEvent → Effect Reply
unfolding process handle_stripe_event
process_stripe_webhook now event_id event =
    process now stripe event_id (handle_stripe_event now event)

-- PagSeguro. `reference_id` is the account; an empty one is none.
pub record PagSeguroData : Type 0 where
  pub id : ℕ
  pub reference_id : Option ℕ
  pub next_invoice_at : Option ℕ

pub data PagSeguroEvent : Type 0 where
  activated renewed ended payment_refused : PagSeguroData → PagSeguroEvent
  unknown : PagSeguroEvent

unfoldable pub renew : PagSeguroData → Subscription → Subscription
renew d x = record x {
  status = SubscriptionStatus.active;
  current_period_end = or_else d.next_invoice_at x.current_period_end;
}

unfoldable pub handle_pagseguro_subscription_active : PagSeguroData → Effect (Unit {0})
unfolding find_subscription_by_provider_id update_subscription_by_id update_plan renew
handle_pagseguro_subscription_active d s = elim d.reference_id [
  | none ↦ (s, ok tt)
  | some account_id ↦ elim (find_subscription_by_provider_id d.id s.subscriptions) [
    | none ↦ (s, ok tt)
    | some x ↦ (update_subscription_by_id x.id (renew d) >> update_plan account_id x.plan_type) s
  ]
]

unfoldable pub handle_pagseguro_subscription_ended : ℕ → PagSeguroData → Effect (Unit {0})
unfolding update_subscriptions_by_provider_id handle_subscription_ended end_row
handle_pagseguro_subscription_ended now d = elim d.reference_id [
  | none ↦ return tt
  | some account_id ↦ do
    update_subscriptions_by_provider_id d.id (end_row now)
    handle_subscription_ended account_id
]

unfoldable pub handle_pagseguro_event : ℕ → PagSeguroEvent → Effect (Unit {0})
unfolding handle_pagseguro_subscription_active handle_pagseguro_subscription_ended
    update_subscriptions_by_provider_id fall_due
handle_pagseguro_event now (activated d) = handle_pagseguro_subscription_active d
handle_pagseguro_event now (renewed d) = handle_pagseguro_subscription_active d
handle_pagseguro_event now (ended d) = handle_pagseguro_subscription_ended now d
handle_pagseguro_event now (payment_refused d) = update_subscriptions_by_provider_id d.id fall_due
handle_pagseguro_event now unknown = return tt

unfoldable pub process_pagseguro_webhook : ℕ → ℕ → PagSeguroEvent → Effect Reply
unfolding process handle_pagseguro_event
process_pagseguro_webhook now event_id event =
    process now pagseguro event_id (handle_pagseguro_event now event)
