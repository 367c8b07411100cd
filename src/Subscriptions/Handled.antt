-- ===== src/Subscriptions/Handled.antt =====
-- Handlers of `WebhookService` that end without an exception.
use v_backend.Base.{
  ℕ, ◌==◌, true, Option, none, some, ok, ◌≡◌, refl, ◌∙◌, ap, inl, inr, Bool-cases, Option-cases,
  any_row, any_row-update_rows, update_rows, [], ◌∷◌, ◌++◌, suc,
}
use v_backend.Plans.Exceptions.{PlanType, free, pro}
use v_backend.Subscriptions.Store.{Store, >>=-done, ◌>>◌}
use v_backend.Subscriptions.Repository
use v_backend.Subscriptions.Repository.{
  has_account, is_plan, set_plan, update_account_plan, find_subscription_by_provider_id,
  find_webhook_event, new_subscription, mark_webhook_processed,
}
use v_backend.Subscriptions.Service.{
  or_else, update_plan, create_subscription, handle_subscription_ended, row_of, NewSubscription,
}
use v_backend.Subscriptions.Webhooks.{
  handle_checkout_completed, record_subscription, update_paying_plan, handle_subscription_update,
  handle_subscription_deleted, handle_invoice_payment_succeeded, handle_invoice_payment_failed,
  handle_stripe_event, is_paying, new_from, follow, StripeSubscription, StripeEvent,
  checkout_completed, subscription_changed, subscription_deleted, payment_succeeded, payment_failed,
  unhandled, end_row, pay, fall_due,
}

-- The account and the plan that an event would write.
abbrev pub written_by : StripeEvent → Option (ℕ × PlanType)
written_by (checkout_completed none plan) = none
written_by (checkout_completed (some id) plan) = some (id, or_else plan pro)
written_by (subscription_changed sub) = elim sub.account_id [
  | none ↦ none
  | some id ↦ some (id, or_else sub.plan_type pro)
]
written_by (subscription_deleted sub) = elim sub.account_id [
  | none ↦ none
  | some id ↦ some (id, free)
]
written_by (payment_succeeded invoice) = none
written_by (payment_failed invoice) = none
written_by unhandled = none

-- The account exists, and the plan is one of the enum.
abbrev pub IsWritable : Option (ℕ × PlanType) → Store → Type 0
IsWritable none s = Unit
IsWritable (some (id, plan)) s = (has_account id s ≡ true) × (is_plan plan ≡ true)

pub IsWritable-accounts :
    (write : Option (ℕ × PlanType)) (s t : Store)
    → t.accounts ≡ s.accounts
    → IsWritable write s
    → IsWritable write t
unfolding has_account
IsWritable-accounts none s t same w = tt
IsWritable-accounts (some (id, plan)) s t same w = (ap (any_row λ a. a.id == id) same ∙ w.0, w.1)

pub update_plan_writes :
    (id : ℕ) (plan : PlanType) (s : Store)
    → has_account id s ≡ true
    → is_plan plan ≡ true
    → update_plan id plan s ≡ (record s { accounts = set_plan id plan s.accounts }, ok tt)
unfolding update_plan update_account_plan
update_plan_writes id plan s found valid = rw (found, valid) refl

pub row_writes :
    (d : Repository.SubscriptionData) (s : Store)
    → has_account d.account_id s ≡ true
    → is_plan d.plan_type ≡ true
    → Repository.create_subscription d s ≡ (
      record s {
        next_subscription = suc s.next_subscription;
        subscriptions = s.subscriptions ++ new_subscription s.next_subscription d ∷ [];
      },
      ok tt,
    )
unfolding Repository.create_subscription
row_writes d s found valid = rw (found, valid) refl

pub has_account-set_plan :
    (id other : ℕ) (plan : PlanType) (s : Store)
    → has_account id (record s { accounts = set_plan other plan s.accounts }) ≡ has_account id s
unfolding has_account set_plan
has_account-set_plan id other plan s =
    any_row-update_rows (λ a. a.id == id) _ _ s.accounts λ x. refl

pub create_subscription_done :
    (now : ℕ) (d : NewSubscription) (s : Store)
    → has_account d.account_id s ≡ true
    → is_plan d.plan_type ≡ true
    → (t : Store) × (create_subscription now d s ≡ (t, ok tt))
      × (t.accounts ≡ set_plan d.account_id d.plan_type s.accounts)
unfolding create_subscription has_account row_of
create_subscription_done now d s found valid =
    let row = record s {
      next_subscription = suc s.next_subscription;
      subscriptions = s.subscriptions ++ new_subscription s.next_subscription (row_of now d) ∷ [];
    } in
    (
      record row { accounts = set_plan d.account_id d.plan_type s.accounts },
      >>=-done (Repository.create_subscription (row_of now d))
          (λ done. update_plan d.account_id d.plan_type) s row tt
          (row_writes (row_of now d) s found valid)
          (update_plan_writes d.account_id d.plan_type row found valid),
      refl,
    )

record_subscription_done :
    (now id : ℕ) (sub : StripeSubscription) (s : Store)
    → IsWritable (some (id, or_else sub.plan_type pro)) s
    → (t : Store) × (record_subscription now id sub s ≡ (t, ok tt)) × (has_account id t ≡ true)
unfolding record_subscription Repository.update_subscription_by_id new_from has_account
record_subscription_done now id sub s w =
    elim (Option-cases (find_subscription_by_provider_id sub.id s.subscriptions)) [
      | inl new ↦
          let (t, ended, accounts) = create_subscription_done now (new_from now id sub) s w.0 w.1 in
          (
            t,
            rw (new, record_subscription) ended,
            ap (any_row λ a. a.id == id) accounts
                ∙ has_account-set_plan id id (or_else sub.plan_type pro) s
                ∙ w.0,
          )
      | inr (x, found) ↦ (
        record s { subscriptions = update_rows (λ y. y.id == x.id) (follow sub) s.subscriptions },
        rw (found, record_subscription) refl,
        w.0,
      )
    ]

update_paying_plan_done :
    (id : ℕ) (sub : StripeSubscription) (s : Store)
    → IsWritable (some (id, or_else sub.plan_type pro)) s
    → (t : Store) × (update_paying_plan id sub s ≡ (t, ok tt))
unfolding update_paying_plan
update_paying_plan_done id sub s w = elim (Bool-cases (is_paying sub.status)) [
  | inl paying ↦ (
    record s { accounts = set_plan id (or_else sub.plan_type pro) s.accounts },
    rw paying (update_plan_writes id (or_else sub.plan_type pro) s w.0 w.1),
  )
  | inr other ↦ (s, rw other refl)
]

pub update-present :
    (now id : ℕ) (sub : StripeSubscription)
    → sub.account_id ≡ some id
    → handle_subscription_update now sub
      ≡ (record_subscription now id sub >> update_paying_plan id sub)
unfolding handle_subscription_update
update-present now id sub present = rw present refl

update_done :
    (now id : ℕ) (sub : StripeSubscription) (s : Store)
    → sub.account_id ≡ some id
    → IsWritable (some (id, or_else sub.plan_type pro)) s
    → (t : Store) × (handle_subscription_update now sub s ≡ (t, ok tt))
update_done now id sub s present w =
    let (t, recorded, found) = record_subscription_done now id sub s w in
    let (u, last) = update_paying_plan_done id sub t (found, w.1) in
    (
      u,
      ap (λ call. call s) (update-present now id sub present)
          ∙ >>=-done (record_subscription now id sub) (λ over. update_paying_plan id sub) s t tt
              recorded last,
    )

deleted_done :
    (now id : ℕ) (sub : StripeSubscription) (s : Store)
    → sub.account_id ≡ some id
    → has_account id s ≡ true
    → (t : Store) × (handle_subscription_deleted now sub s ≡ (t, ok tt))
unfolding handle_subscription_deleted handle_subscription_ended
    Repository.update_subscriptions_by_provider_id
deleted_done now id sub s present found =
    let ended = record s {
      subscriptions =
          update_rows (λ x. x.provider_subscription_id == sub.id) (end_row now) s.subscriptions;
    } in
    (
      record ended { accounts = set_plan id free s.accounts },
      rw present (update_plan_writes id free ended found refl),
    )

pub handle_done :
    (now : ℕ) (event : StripeEvent) (s : Store)
    → IsWritable (written_by event) s
    → (t : Store) × (handle_stripe_event now event s ≡ (t, ok tt))
unfolding handle_stripe_event handle_checkout_completed handle_invoice_payment_succeeded
    handle_invoice_payment_failed handle_subscription_update handle_subscription_deleted
    Repository.update_subscriptions_by_provider_id
handle_done now (checkout_completed none plan) s w = (s, refl)
handle_done now (checkout_completed (some id) plan) s w =
    (_, update_plan_writes id (or_else plan pro) s w.0 w.1)
handle_done now (subscription_changed sub) s w = elim (Option-cases sub.account_id) [
  | inl missing ↦ (s, rw missing refl)
  | inr (id, present) ↦ update_done now id sub s present (rw present at w)
]
handle_done now (subscription_deleted sub) s w = elim (Option-cases sub.account_id) [
  | inl missing ↦ (s, rw missing refl)
  | inr (id, present) ↦ deleted_done now id sub s present (rw present at w).0
]
handle_done now (payment_succeeded invoice) s w = elim (Option-cases invoice.subscription) [
  | inl missing ↦ (s, rw missing refl)
  | inr (id, present) ↦ (
    record s {
      subscriptions =
          update_rows (λ x. x.provider_subscription_id == id) (pay invoice) s.subscriptions;
    },
    rw present refl,
  )
]
handle_done now (payment_failed invoice) s w = elim (Option-cases invoice.subscription) [
  | inl missing ↦ (s, rw missing refl)
  | inr (id, present) ↦ (
    record s {
      subscriptions = update_rows (λ x. x.provider_subscription_id == id) fall_due s.subscriptions;
    },
    rw present refl,
  )
]
handle_done now unhandled s w = (s, refl)
