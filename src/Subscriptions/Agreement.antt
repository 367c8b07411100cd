-- ===== src/Subscriptions/Agreement.antt =====
-- The plans that a reconcile leaves, compared with what the provider reports for each account.
use v_backend.Base.{
  ℕ, ◌==◌, ==_iff, Bool, true, false, not, ◌&&◌, ◌||◌, List, Option, none, some, ok, ◌≡◌, refl, sym,
  ◌∙◌, ap, arith, inl, inr, Bool-cases, Option-cases, if◌then◌else◌, find_row, where_rows, any_row,
  map, includes, All, [], ◌∷◌,
}
use mathlib.Core.Option
use v_backend.Base.Keys.{HasUniqueKeys}
use v_backend.Plans.Exceptions.{PlanType, free}
use v_backend.Subscriptions.Store.{
  Store, Account, SubscriptionStatus, active, trialing, past_due, canceled, paused, >>=-returned,
}
use v_backend.Subscriptions.Repository.{
  is_paid, find_account, find_account_plan, find_paid_account_ids,
}
use v_backend.Subscriptions.Service.{or_else}
use v_backend.Subscriptions.Reconcile.{
  ManagedSubscription, sets_plan, keeps_paid, pull_all, paid_accounts, downgrade_all,
  ReconcileResult, reconcile,
}
use v_backend.Subscriptions.Reconciled.{
  HasAccountKeys, pulled, all_pulled, pull_all-ChangesPlan, downgraded, downgrade_all-ChangesPlan,
}

-- What the provider reports for an account: the plan of its last subscription that is active or
-- trialing, and whether one is past due.
unfoldable paying_plan : List ManagedSubscription → ℕ → Option PlanType
paying_plan [] id = none
paying_plan (sub ∷ subs) id = elim (paying_plan subs id) [
  | none ↦ if sets_plan sub.status && sub.account_id == id then some sub.plan_type else none
  | some plan ↦ some plan
]

is_past_due : SubscriptionStatus → Bool
is_past_due active = false
is_past_due trialing = false
is_past_due past_due = true
is_past_due canceled = false
is_past_due paused = false

unfoldable in_dunning : List ManagedSubscription → ℕ → Bool
unfolding is_past_due
in_dunning subs id =
    any_row (λ (sub : ManagedSubscription). is_past_due sub.status && sub.account_id == id) subs

-- The plan that the account should be on.
unfoldable pub entitled : List ManagedSubscription → ℕ → PlanType → PlanType
unfolding paying_plan in_dunning
entitled subs id old = elim (paying_plan subs id) [
  | none ↦ if is_paid old && not (in_dunning subs id) then free else old
  | some plan ↦ plan
]

all_pulled-last :
    (subs : List ManagedSubscription) (id : ℕ) (old : PlanType)
    → all_pulled subs id old ≡ or_else (paying_plan subs id) old
unfolding all_pulled pulled paying_plan
all_pulled-last [] id old = refl
all_pulled-last (sub ∷ subs) id old =
    all_pulled-last subs id (pulled sub id old) ∙ split (paying_plan subs id)
  where
    split :
        (o : Option PlanType)
        → or_else o (pulled sub id old)
          ≡ or_else
              (elim o [
                | none ↦
                    if sets_plan sub.status && sub.account_id == id
                    then some sub.plan_type
                    else none
                | some plan ↦ some plan
              ])
              old
    split none = ground arith
    split (some plan) = refl

is_some : Option PlanType → Bool
is_some none = false
is_some (some plan) = true

keeps_cases :
    (status : SubscriptionStatus) → keeps_paid status ≡ (sets_plan status || is_past_due status)
unfolding keeps_paid sets_plan is_past_due
keeps_cases active = refl
keeps_cases trialing = refl
keeps_cases past_due = refl
keeps_cases canceled = refl
keeps_cases paused = refl

-- The accounts that are kept are those with a paying or a past due subscription.
paid_accounts_iff :
    (subs : List ManagedSubscription) (id : ℕ)
    → includes (paid_accounts subs) id ≡ (is_some (paying_plan subs id) || in_dunning subs id)
unfolding includes paid_accounts paying_plan in_dunning any_row is_some
paid_accounts_iff [] id = refl
paid_accounts_iff (sub ∷ subs) id =
    ground
      (arith, keeps_cases sub.status, paid_accounts_iff subs id, Option-cases (paying_plan subs id))

paid_ids : List Account → List ℕ
paid_ids accounts =
    map (λ (a : Account). a.id) (where_rows (λ (a : Account). is_paid a.plan_type) accounts)

paid_ids-other :
    (id : ℕ) (accounts : List Account)
    → All (λ (a : Account). (a.id == id) ≡ false) accounts
    → includes (paid_ids accounts) id ≡ false
unfolding paid_ids includes where_rows
paid_ids-other id [] h = refl
paid_ids-other id (a ∷ accounts) h = elim (Bool-cases (is_paid a.plan_type)) [
  | inl paid ↦ rw (paid, h.0) (paid_ids-other id accounts h.1)
  | inr other ↦ rw other (paid_ids-other id accounts h.1)
]

paid_ids-own :
    (id : ℕ) (accounts : List Account) {a : Account}
    → HasUniqueKeys (λ (a : Account). a.id) accounts
    → find_account id accounts ≡ some a
    → includes (paid_ids accounts) id ≡ is_paid a.plan_type
unfolding paid_ids includes where_rows find_account find_row
paid_ids-own id [] {a} keys found = cc
paid_ids-own id (x ∷ accounts) {a} keys found = elim (Bool-cases (x.id == id)) [
  | inl same ↦
      let this : x ≡ a = cc (rw same at found) in
      let others = rw ((==_iff x.id id).0 same) at keys.0 in
      elim (Bool-cases (is_paid x.plan_type)) [
        | inl paid ↦ rw (sym this) (rw (paid, same) refl)
        | inr free_plan ↦ rw (sym this) (rw free_plan (paid_ids-other id accounts others))
      ]
  | inr other ↦
      let rest = paid_ids-own id accounts {a = a} keys.1 (rw other at found) in
      elim (Bool-cases (is_paid x.plan_type)) [
        | inl paid ↦ rw (paid, other) rest
        | inr free_plan ↦ rw free_plan rest
      ]
]

paid_ids-find :
    (id : ℕ) (s : Store) {plan : PlanType}
    → HasAccountKeys s
    → find_account_plan id s ≡ some plan
    → includes (find_paid_account_ids s) id ≡ is_paid plan
unfolding find_paid_account_ids find_account_plan paid_ids
paid_ids-find id s {plan} keys found = elim (Option-cases (find_account id s.accounts)) [
  | inl missing ↦ let impossible = rw missing at found in cc
  | inr (a, present) ↦
      let this : a.plan_type ≡ plan = cc (rw present at found) in
      paid_ids-own id s.accounts keys present ∙ ap is_paid this
]

-- The two passes, one after the other, come to what the account is entitled to.
passes_agree :
    (subs : List ManagedSubscription) (ids : List ℕ) (id : ℕ) (old : PlanType)
    → includes ids id ≡ is_paid (all_pulled subs id old)
    → downgraded (paid_accounts subs) ids id (all_pulled subs id old) ≡ entitled subs id old
unfolding downgraded entitled any_row is_some
passes_agree subs ids id old listed =
    rw (listed, all_pulled-last subs id old, paid_accounts_iff subs id)
      (split (paying_plan subs id))
  where
    split :
        (o : Option PlanType)
        → (if is_paid (or_else o old) && not (is_some o || in_dunning subs id)
            then free
            else or_else o old)
          ≡ elim o [
            | none ↦ if is_paid old && not (in_dunning subs id) then free else old
            | some plan ↦ plan
          ]
    split none = refl
    split (some plan) = ground arith

reconcile-passes :
    (subs : List ManagedSubscription) (s t : Store) (r : ReconcileResult)
    → reconcile true subs s ≡ (t, ok r)
    → (u : Store) × (n : ℕ) × (pull_all subs s ≡ (u, ok tt))
      × (downgrade_all (paid_accounts subs) (find_paid_account_ids u) u ≡ (t, ok n))
unfolding reconcile
reconcile-passes subs s t r e =
    let (u, done, pulls, rest) = >>=-returned (pull_all subs) _ s t e in
    let (v, n, downgrades, last) =
      >>=-returned (λ s. downgrade_all (paid_accounts subs) (find_paid_account_ids s) s) _ u t
        rest in
    let same : v ≡ t = cc in (u, n, pulls, downgrades ∙ ap (λ x. (x, ok n)) same)

-- A reconcile that returns leaves every account on the plan that Stripe's list entitles it to: the
-- plan of its last subscription that is active or trialing; with none, the plan it had, which a paid
-- account keeps only while a subscription is past due and loses for the free plan otherwise. No
-- account appears or disappears. (The accounts have distinct ids.)
pub reconcile-plans :
    (subs : List ManagedSubscription) (s t : Store) (r : ReconcileResult)
    → HasAccountKeys s
    → reconcile true subs s ≡ (t, ok r)
    → (id : ℕ) → find_account_plan id t ≡ Option.map (entitled subs id) (find_account_plan id s)
reconcile-plans subs s t r keys e id =
    let (u, n, pulls, downgrades) = reconcile-passes subs s t r e in
    let first = pull_all-ChangesPlan subs s u pulls in
    let second =
      downgrade_all-ChangesPlan (paid_accounts subs) (find_paid_account_ids u) u t n downgrades in
    second.1 id
    ∙ ap (Option.map _) (first.1 id)
    ∙ agree u (find_account_plan id s) (first.0 keys) (first.1 id)
  where
    agree :
        (u : Store) (o : Option PlanType)
        → HasAccountKeys u
        → find_account_plan id u ≡ Option.map (all_pulled subs id) o
        → Option.map
            (downgraded (paid_accounts subs) (find_paid_account_ids u) id)
            (Option.map (all_pulled subs id) o)
          ≡ Option.map (entitled subs id) o
    agree u none unique found = refl
    agree u (some old) unique found =
        ap some
          (passes_agree subs (find_paid_account_ids u) id old (paid_ids-find id u unique found))

reconcile-HasAccountKeys :
    (subs : List ManagedSubscription) (s t : Store) (r : ReconcileResult)
    → HasAccountKeys s
    → reconcile true subs s ≡ (t, ok r)
    → HasAccountKeys t
reconcile-HasAccountKeys subs s t r keys e =
    let (u, n, pulls, downgrades) = reconcile-passes subs s t r e in
    (downgrade_all-ChangesPlan (paid_accounts subs) (find_paid_account_ids u) u t n downgrades).0
      ((pull_all-ChangesPlan subs s u pulls).0 keys)

entitled-twice :
    (subs : List ManagedSubscription) (id : ℕ) (old : PlanType)
    → entitled subs id (entitled subs id old) ≡ entitled subs id old
unfolding entitled is_paid
entitled-twice subs id old = ground (arith, Option-cases (paying_plan subs id))

-- Reconciling twice with the same list is reconciling once, as far as the accounts' plans go.
-- (The accounts have distinct ids, and both runs return.)
pub reconcile-idempotent :
    (subs : List ManagedSubscription) (s t u : Store) (r q : ReconcileResult)
    → HasAccountKeys s
    → reconcile true subs s ≡ (t, ok r)
    → reconcile true subs t ≡ (u, ok q)
    → (id : ℕ) → find_account_plan id u ≡ find_account_plan id t
reconcile-idempotent subs s t u r q keys one two id =
    reconcile-plans subs t u q (reconcile-HasAccountKeys subs s t r keys one) two id
    ∙ ap (Option.map (entitled subs id)) (reconcile-plans subs s t r keys one id)
    ∙ same (find_account_plan id s)
    ∙ sym (reconcile-plans subs s t r keys one id)
  where
    same :
        (o : Option PlanType)
        → Option.map (entitled subs id) (Option.map (entitled subs id) o)
          ≡ Option.map (entitled subs id) o
    same none = refl
    same (some old) = ap some (entitled-twice subs id old)
