-- ===== src/Subscriptions/Settles.antt =====
-- A reconcile over accounts that exist.
use v_backend.Base.{
  ℕ, ◌==◌, ◌+◌, Bool, true, List, ok, ◌≡◌, refl, ◌∙◌, ap, arith, inl, inr, Bool-cases, Option-cases,
  any_row, where_rows, map, includes, All, [], ◌∷◌, ◌++◌, suc, update_rows,
}
use mathlib.Core.Option
use v_backend.Base.Keys.{All-map}
use v_backend.Plans.Exceptions.{PlanType, free}
use v_backend.Subscriptions.Store.{Store, Effect, Account, >>=-done, return}
use v_backend.Subscriptions.Repository
use v_backend.Subscriptions.Repository.{
  SubscriptionData, UpsertOutcome, created, updated, has_account, is_plan, is_paid, set_plan,
  update_account_plan, find_account_plan, create_from_stripe, update_from_stripe,
  upsert_subscription_from_stripe, update_subscription_by_id, refresh, new_subscription,
  find_subscription_by_provider_id, find_paid_account_ids,
}
use v_backend.Subscriptions.Reconcile.{
  ManagedSubscription, upsert_data, sets_plan, pull_one, pull_all, paid_accounts, downgrade_all,
  ReconcileResult, reconcile,
}
use v_backend.Subscriptions.Reconciled.{HasAccountKeys}
use v_backend.Subscriptions.Handled.{has_account-set_plan, row_writes}
use v_backend.Subscriptions.Agreement.{entitled, reconcile-plans}

-- The account is there, and the plan is one of the enum.
abbrev pub IsKnown : Store → ManagedSubscription → Type 0
IsKnown s sub = (has_account sub.account_id s ≡ true) × (is_plan sub.plan_type ≡ true)

-- A call that returns, in a state with the accounts of the first.
abbrev Returns : {A : Type 0} → Effect A → Store → Type 0
Returns {A = A} call s =
    (t : Store) × (a : A) × (call s ≡ (t, ok a)) × ((id : ℕ) → has_account id t ≡ has_account id s)

has_account-same :
    (s t : Store) → t.accounts ≡ s.accounts → (id : ℕ) → has_account id t ≡ has_account id s
unfolding has_account
has_account-same s t same id = ap (any_row λ (a : Account). a.id == id) same

upsert-Returns :
    (d : SubscriptionData) (s : Store)
    → has_account d.account_id s ≡ true
    → is_plan d.plan_type ≡ true
    → Returns (upsert_subscription_from_stripe d) s
unfolding upsert_subscription_from_stripe create_from_stripe update_from_stripe
    update_subscription_by_id has_account
upsert-Returns d s found valid =
    elim (Option-cases
      (find_subscription_by_provider_id d.provider_subscription_id s.subscriptions)) [
        | inl missing ↦
            let t = record s {
              next_subscription = suc s.next_subscription;
              subscriptions = s.subscriptions ++ new_subscription s.next_subscription d ∷ [];
            } in
            (
              t,
              created,
              rw (missing, upsert_subscription_from_stripe)
                  (>>=-done (Repository.create_subscription d) (λ done. return created) s t tt
                    (row_writes d s found valid) refl),
              λ id. refl,
            )
        | inr (x, present) ↦ (
          record s { subscriptions = update_rows (λ y. y.id == x.id) (refresh d) s.subscriptions },
          updated,
          rw (present, upsert_subscription_from_stripe, valid) refl,
          λ id. refl,
        )
      ]

update_account_plan-Returns :
    (id : ℕ) (plan : PlanType) (s : Store)
    → has_account id s ≡ true
    → is_plan plan ≡ true
    → Returns (update_account_plan id plan) s
unfolding update_account_plan
update_account_plan-Returns id plan s found valid = (
  record s { accounts = set_plan id plan s.accounts },
  tt,
  rw (found, valid) refl,
  λ other. has_account-set_plan other id plan s,
)

pull_one-Returns :
    (sub : ManagedSubscription) (s : Store) → IsKnown s sub → Returns (pull_one sub) s
unfolding pull_one upsert_data
pull_one-Returns sub s (found, valid) =
    let (t, op, row, keeps) = upsert-Returns (upsert_data sub) s found valid in
    elim (Bool-cases (sets_plan sub.status)) [
      | inl sets ↦
          let (u, done, plan, others) =
            update_account_plan-Returns sub.account_id sub.plan_type t
              (keeps sub.account_id ∙ found) valid in
          (
            u,
            tt,
            >>=-done (upsert_subscription_from_stripe (upsert_data sub)) _ s t op row
                (rw sets plan),
            λ id. others id ∙ keeps id,
          )
      | inr other ↦ (
        t,
        tt,
        >>=-done (upsert_subscription_from_stripe (upsert_data sub)) _ s t op row (rw other refl),
        keeps,
      )
    ]

pull_all-Returns :
    (subs : List ManagedSubscription) (s : Store) → All (IsKnown s) subs → Returns (pull_all subs) s
unfolding pull_all
pull_all-Returns [] s known = (s, tt, refl, λ id. refl)
pull_all-Returns (sub ∷ subs) s known =
    let (t, done, one, keeps) = pull_one-Returns sub s known.0 in
    let (u, over, rest, others) = pull_all-Returns subs t (
      All-map (IsKnown s) (IsKnown s) (IsKnown t) (λ x a b. (keeps x.account_id ∙ a.0, a.1)) subs
        known.1 known.1) in
    (
      u,
      tt,
      >>=-done (pull_one sub) (λ done. pull_all subs) s t tt one rest,
      λ id. others id ∙ keeps id,
    )

downgrade_all-Returns :
    (paid ids : List ℕ) (s : Store)
    → All (λ id. has_account id s ≡ true) ids
    → Returns (downgrade_all paid ids) s
unfolding downgrade_all
downgrade_all-Returns paid [] s known = (s, 0, refl, λ id. refl)
downgrade_all-Returns paid (x ∷ xs) s known = elim (Bool-cases (includes paid x)) [
  | inl kept ↦ rw kept (downgrade_all-Returns paid xs s known.1)
  | inr stale ↦
      let (t, done, one, keeps) = update_account_plan-Returns x free s known.0 refl in
      let (u, n, rest, others) =
        downgrade_all-Returns paid xs t (
          All-map _ _ (λ id. has_account id t ≡ true) (λ id a b. keeps id ∙ a) xs known.1
            known.1) in
      (
        u,
        n + 1,
        rw stale (
            >>=-done (update_account_plan x free) _ s t tt one
              (>>=-done (downgrade_all paid xs) (λ m. return (m + 1)) t u n rest refl)),
        λ id. others id ∙ keeps id,
      )
]

-- Every id of the accounts that are listed is found.
listed-found :
    (p : Account → Bool) (accounts all : List Account)
    → ((id : ℕ)
        → any_row (λ (a : Account). a.id == id) accounts ≡ true
        → any_row (λ (a : Account). a.id == id) all ≡ true)
    → All
        (λ id. any_row (λ (a : Account). a.id == id) all ≡ true)
        (map (λ (a : Account). a.id) (where_rows p accounts))
unfolding where_rows any_row
listed-found p [] all within = tt
listed-found p (a ∷ accounts) all within =
    let later = listed-found p accounts all λ id there. within id (ground (arith, there)) in
    elim (Bool-cases (p a)) [
      | inl hit ↦ rw hit (within a.id (ground arith), later)
      | inr miss ↦ rw miss later
    ]

paid_ids-found : (s : Store) → All (λ id. has_account id s ≡ true) (find_paid_account_ids s)
unfolding find_paid_account_ids has_account
paid_ids-found s =
    listed-found (λ (a : Account). is_paid a.plan_type) s.accounts s.accounts λ id there. there

reconcile_returns :
    (subs : List ManagedSubscription) (s : Store)
    → All (IsKnown s) subs
    → (t : Store) × (r : ReconcileResult) × (reconcile true subs s ≡ (t, ok r))
unfolding reconcile
reconcile_returns subs s known =
    let (t, done, pulls, keeps) = pull_all-Returns subs s known in
    let (u, n, downgrades, others) =
      downgrade_all-Returns (paid_accounts subs) (find_paid_account_ids t) t (paid_ids-found t) in
    (
      u,
      _,
      >>=-done (pull_all subs) _ s t tt pulls (
          >>=-done (λ s. downgrade_all (paid_accounts subs) (find_paid_account_ids s) s) _ t u n
            downgrades refl),
    )

-- When every subscription that Stripe lists is of an existing account and has a plan of the enum, a
-- reconcile returns, and leaves each account on the plan that the list entitles it to: the plan of
-- its last subscription that is active or trialing; with none, the plan it had, which a paid account
-- keeps only while a subscription is past due and loses for the free plan otherwise. (The accounts
-- have distinct ids.)
pub reconcile_settles :
    (subs : List ManagedSubscription) (s : Store)
    → HasAccountKeys s
    → All (IsKnown s) subs
    → (t : Store) × (r : ReconcileResult) × (reconcile true subs s ≡ (t, ok r))
      × ((id : ℕ) → find_account_plan id t ≡ Option.map (entitled subs id) (find_account_plan id s))
reconcile_settles subs s keys known =
    let (t, r, e) = reconcile_returns subs s known in (t, r, e, reconcile-plans subs s t r keys e)
