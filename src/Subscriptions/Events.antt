-- ===== src/Subscriptions/Events.antt =====
-- No handler of `WebhookService` writes the table of webhook events, and none removes an account.
use v_backend.Base.{
  ℕ, ◌&&◌, Option, none, some, Result, ok, err, ◌≡◌, refl, ◌∙◌, inl, inr, Bool-cases, Option-cases,
}
use v_backend.Plans.Exceptions.{PlanType, free, pro}
use v_backend.Subscriptions.Store.{Store, Effect, continue, ◌>>=◌}
use v_backend.Subscriptions.Repository
use v_backend.Subscriptions.Repository.{
  has_account, is_plan, set_plan, update_account_plan, find_subscription_by_provider_id,
}
use v_backend.Subscriptions.Service.{
  or_else, update_plan, create_subscription, handle_subscription_ended, NewSubscription,
}
use v_backend.Subscriptions.Webhooks.{
  handle_checkout_completed, record_subscription, update_paying_plan, handle_subscription_update,
  handle_subscription_deleted, handle_invoice_payment_succeeded, handle_invoice_payment_failed,
  handle_stripe_event, is_paying, handle_pagseguro_subscription_active,
  handle_pagseguro_subscription_ended, handle_pagseguro_event, Invoice, PagSeguroData,
  StripeSubscription, StripeEvent, checkout_completed, subscription_changed, subscription_deleted,
  payment_succeeded, payment_failed, unhandled, PagSeguroEvent, new_from,
}

abbrev pub KeepsEvents : {A : Type 0} → Effect A → Type 0
KeepsEvents call = (s : Store) → (call s).0.events ≡ s.events

continue-KeepsEvents :
    {A B : Type 0} (t : Store) (r : Result A) (rest : A → Effect B)
    → ((a : A) → KeepsEvents (rest a))
    → (continue t r rest).0.events ≡ t.events
continue-KeepsEvents t (err e) rest h = refl
continue-KeepsEvents t (ok a) rest h = h a t

>>=-KeepsEvents :
    {A B : Type 0} (call : Effect A) (rest : A → Effect B)
    → KeepsEvents call
    → ((a : A) → KeepsEvents (rest a))
    → KeepsEvents (call >>= rest)
>>=-KeepsEvents call rest c r s = continue-KeepsEvents (call s).0 (call s).1 rest r ∙ c s

update_plan-KeepsEvents : (id : ℕ) (plan : PlanType) → KeepsEvents (update_plan id plan)
unfolding update_plan update_account_plan
update_plan-KeepsEvents id plan s = elim (Bool-cases (has_account id s && is_plan plan)) [
  | inl found ↦ rw found refl
  | inr missing ↦ rw missing refl
]

row-KeepsEvents : (d : Repository.SubscriptionData) → KeepsEvents (Repository.create_subscription d)
unfolding Repository.create_subscription
row-KeepsEvents d s = elim (Bool-cases (has_account d.account_id s && is_plan d.plan_type)) [
  | inl found ↦ rw found refl
  | inr missing ↦ rw missing refl
]

create_subscription-KeepsEvents :
    (now : ℕ) (d : NewSubscription) → KeepsEvents (create_subscription now d)
unfolding create_subscription
create_subscription-KeepsEvents now d =
    >>=-KeepsEvents _ _ (row-KeepsEvents _) λ done. update_plan-KeepsEvents d.account_id d.plan_type

record_subscription-KeepsEvents :
    (now account_id : ℕ) (sub : StripeSubscription)
    → KeepsEvents (record_subscription now account_id sub)
unfolding record_subscription Repository.update_subscription_by_id
record_subscription-KeepsEvents now account_id sub s =
    elim (Option-cases (find_subscription_by_provider_id sub.id s.subscriptions)) [
      | inl new ↦
          rw (new, record_subscription)
            (create_subscription-KeepsEvents now (new_from now account_id sub) s)
      | inr (x, found) ↦ rw (found, record_subscription) refl
    ]

update_paying_plan-KeepsEvents :
    (account_id : ℕ) (sub : StripeSubscription) → KeepsEvents (update_paying_plan account_id sub)
unfolding update_paying_plan
update_paying_plan-KeepsEvents account_id sub s = elim (Bool-cases (is_paying sub.status)) [
  | inl paying ↦ rw paying (update_plan-KeepsEvents account_id (or_else sub.plan_type pro) s)
  | inr other ↦ rw other refl
]

checkout-KeepsEvents :
    (account_id : Option ℕ) (plan : Option PlanType)
    → KeepsEvents (handle_checkout_completed account_id plan)
unfolding handle_checkout_completed
checkout-KeepsEvents none plan s = refl
checkout-KeepsEvents (some id) plan s = update_plan-KeepsEvents id (or_else plan pro) s

update-KeepsEvents :
    (now : ℕ) (sub : StripeSubscription) → KeepsEvents (handle_subscription_update now sub)
unfolding handle_subscription_update
update-KeepsEvents now sub = elim (Option-cases sub.account_id) [
  | inl missing ↦ λ s. rw missing refl
  | inr (id, found) ↦ λ s. rw found (
      >>=-KeepsEvents {B = Unit} (record_subscription now id sub)
        (λ done. update_paying_plan id sub) (record_subscription-KeepsEvents now id sub)
        (λ done. update_paying_plan-KeepsEvents id sub) s)
]

deleted-KeepsEvents :
    (now : ℕ) (sub : StripeSubscription) → KeepsEvents (handle_subscription_deleted now sub)
unfolding handle_subscription_deleted handle_subscription_ended
    Repository.update_subscriptions_by_provider_id
deleted-KeepsEvents now sub s = elim (Option-cases sub.account_id) [
  | inl missing ↦ rw missing refl
  | inr (id, found) ↦ rw found (update_plan-KeepsEvents id free _)
]

succeeded-KeepsEvents : (invoice : Invoice) → KeepsEvents (handle_invoice_payment_succeeded invoice)
unfolding handle_invoice_payment_succeeded Repository.update_subscriptions_by_provider_id
succeeded-KeepsEvents invoice s = elim (Option-cases invoice.subscription) [
  | inl missing ↦ rw missing refl
  | inr (id, found) ↦ rw found refl
]

failed-KeepsEvents : (invoice : Invoice) → KeepsEvents (handle_invoice_payment_failed invoice)
unfolding handle_invoice_payment_failed Repository.update_subscriptions_by_provider_id
failed-KeepsEvents invoice s = elim (Option-cases invoice.subscription) [
  | inl missing ↦ rw missing refl
  | inr (id, found) ↦ rw found refl
]

pub stripe-KeepsEvents :
    (now : ℕ) (event : StripeEvent) → KeepsEvents (handle_stripe_event now event)
unfolding handle_stripe_event
stripe-KeepsEvents now (checkout_completed id plan) = checkout-KeepsEvents id plan
stripe-KeepsEvents now (subscription_changed sub) = update-KeepsEvents now sub
stripe-KeepsEvents now (subscription_deleted sub) = deleted-KeepsEvents now sub
stripe-KeepsEvents now (payment_succeeded invoice) = succeeded-KeepsEvents invoice
stripe-KeepsEvents now (payment_failed invoice) = failed-KeepsEvents invoice
stripe-KeepsEvents now unhandled = λ s. refl

active-KeepsEvents : (d : PagSeguroData) → KeepsEvents (handle_pagseguro_subscription_active d)
unfolding handle_pagseguro_subscription_active Repository.update_subscription_by_id
active-KeepsEvents d s = elim (Option-cases d.reference_id) [
  | inl missing ↦ rw missing refl
  | inr (id, present) ↦
      elim (Option-cases (find_subscription_by_provider_id d.id s.subscriptions)) [
        | inl new ↦ rw (present, handle_pagseguro_subscription_active, new) refl
        | inr (x, found) ↦
            rw (present, handle_pagseguro_subscription_active, found)
              (update_plan-KeepsEvents id x.plan_type _)
      ]
]

ended-KeepsEvents :
    (now : ℕ) (d : PagSeguroData) → KeepsEvents (handle_pagseguro_subscription_ended now d)
unfolding handle_pagseguro_subscription_ended handle_subscription_ended
    Repository.update_subscriptions_by_provider_id
ended-KeepsEvents now d s = elim (Option-cases d.reference_id) [
  | inl missing ↦ rw missing refl
  | inr (id, found) ↦ rw found (update_plan-KeepsEvents id free _)
]

pub pagseguro-KeepsEvents :
    (now : ℕ) (event : PagSeguroEvent) → KeepsEvents (handle_pagseguro_event now event)
unfolding handle_pagseguro_event Repository.update_subscriptions_by_provider_id
pagseguro-KeepsEvents now (PagSeguroEvent.activated d) = active-KeepsEvents d
pagseguro-KeepsEvents now (PagSeguroEvent.renewed d) = active-KeepsEvents d
pagseguro-KeepsEvents now (PagSeguroEvent.ended d) = ended-KeepsEvents now d
pagseguro-KeepsEvents now (PagSeguroEvent.payment_refused d) = λ s. refl
pagseguro-KeepsEvents now PagSeguroEvent.unknown = λ s. refl
