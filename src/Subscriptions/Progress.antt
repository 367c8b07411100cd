-- ===== src/Subscriptions/Progress.antt =====
-- What deliveries of Stripe events leave behind.
use v_backend.Base.{ℕ, true, false, none, some, ok, err, HttpError, ◌≡◌, refl, ◌∙◌, ap, inl, inr}
use v_backend.Plans.Exceptions.{pro}
use v_backend.Subscriptions.Store.{stripe, Store, WebhookEvent, >>=-done}
use v_backend.Subscriptions.Repository.{
  set_plan, find_subscription_by_provider_id, find_webhook_event, mark_webhook_processed,
  upsert_webhook_event,
}
use v_backend.Subscriptions.Service.{or_else}
use v_backend.Subscriptions.Webhooks.{
  record_subscription, update_paying_plan, handle_subscription_update, handle_stripe_event,
  is_paying, new_from, StripeSubscription, StripeEvent, Reply, done, already_processed,
  process_stripe_webhook, settle, was_processed,
}
use v_backend.Subscriptions.Events.{stripe-KeepsEvents}
use v_backend.Subscriptions.Deliveries.{settle-done, process-cases, process-twice, process-throws}
use v_backend.Subscriptions.Handled.{
  written_by, IsWritable, IsWritable-accounts, create_subscription_done, update-present,
  handle_done,
}

-- The first event of a subscription that is not paying (incomplete, past due, canceled and the
-- like), of an account that exists, with a plan of the enum, puts the account on the plan all the
-- same, since the new row is created by a call that also writes the plan.
pub handle_subscription_update_unpaid :
    (now id : ℕ) (sub : StripeSubscription) (s : Store)
    → sub.account_id ≡ some id
    → find_subscription_by_provider_id sub.id s.subscriptions ≡ none
    → is_paying sub.status ≡ false
    → IsWritable (some (id, or_else sub.plan_type pro)) s
    → (t : Store) × (handle_subscription_update now sub s ≡ (t, ok tt))
      × (t.accounts ≡ set_plan id (or_else sub.plan_type pro) s.accounts)
unfolding record_subscription update_paying_plan new_from
handle_subscription_update_unpaid now id sub s present new unpaid w =
    let (t, ended, accounts) = create_subscription_done now (new_from now id sub) s w.0 w.1 in
    (
      t,
      ap (λ call. call s) (update-present now id sub present)
          ∙ >>=-done (record_subscription now id sub) (λ over. update_paying_plan id sub) s t tt
              (rw (new, record_subscription) ended) (rw unpaid refl),
      accounts,
    )

-- A Stripe event that was answered once, however it is delivered again, at any later time and even
-- with other contents, changes nothing and is reported as already processed.
pub process_stripe_webhook_replayed :
    (now later id : ℕ) (event again : StripeEvent) (s t : Store) (r : Reply)
    → process_stripe_webhook now id event s ≡ (t, ok r)
    → process_stripe_webhook later id again t ≡ (t, ok already_processed)
unfolding process_stripe_webhook
process_stripe_webhook_replayed now later id event again s t r e =
    process-twice now later stripe stripe id (handle_stripe_event now event)
      (handle_stripe_event later again) s t (stripe-KeepsEvents now event) e

-- When the handler of a Stripe event that is not processed throws on the store in which the event is
-- open, the call throws the same exception on to the provider and writes to no account and no
-- subscription after it; the event stays unprocessed, so that a later delivery runs it again, and
-- the exception is recorded on it.
pub process_stripe_webhook_failed :
    (now id : ℕ) (event : StripeEvent) (s opened u : Store) (row : WebhookEvent)
    (thrown : HttpError)
    → was_processed (find_webhook_event id s.events) ≡ false
    → upsert_webhook_event stripe id s ≡ (opened, ok row)
    → handle_stripe_event now event opened ≡ (u, err thrown)
    → (t : Store) × (e : WebhookEvent) × (process_stripe_webhook now id event s ≡ (t, err thrown))
      × (find_webhook_event id t.events ≡ some e)
      × (e.processed ≡ false)
      × (e.error ≡ some thrown)
      × (t.accounts ≡ u.accounts)
      × (t.subscriptions ≡ u.subscriptions)
unfolding process_stripe_webhook
process_stripe_webhook_failed now id event s opened u row thrown waiting begun fails =
    let (t, ended, found, unprocessed, accounts, subscriptions) =
      process-throws now stripe id (handle_stripe_event now event) s opened u row thrown
        (stripe-KeepsEvents now event) waiting begun fails in
    (
      t,
      record row { error = some thrown },
      ended,
      found,
      unprocessed,
      refl,
      accounts,
      subscriptions,
    )

-- A delivery of a Stripe event gets through, whatever deliveries came before it, when the account
-- that the event names exists and the plan that it would write is one of the enum: the call returns
-- a reply, and the event is processed.
pub process_stripe_webhook_gets_through :
    (now id : ℕ) (event : StripeEvent) (s : Store)
    → IsWritable (written_by event) s
    → (t : Store) × (r : Reply) × (process_stripe_webhook now id event s ≡ (t, ok r))
      × (was_processed (find_webhook_event id t.events) ≡ true)
unfolding process_stripe_webhook
process_stripe_webhook_gets_through now id event s w =
    elim (process-cases now stripe id (handle_stripe_event now event) s
      (stripe-KeepsEvents now event)) [
        | inl (before, skipped) ↦ (s, already_processed, skipped, before)
        | inr (opened, row, found, waiting, accounts, settled) ↦
            let (t, ended) =
              handle_done now event opened
                (IsWritable-accounts (written_by event) s opened accounts w) in
            let reply : settle now row.id (handle_stripe_event now event opened)
                ≡ settle now row.id (t, ok tt) =
              ap (settle now row.id) ended in
            (
              (mark_webhook_processed now row.id t).0,
              done,
              settled ∙ reply,
              settle-done now id (handle_stripe_event now event opened) row found reply,
            )
      ]
