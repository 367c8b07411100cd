-- ===== src/Subscriptions/Reconciled.antt =====
-- What a run of `SubscriptionReconcileService.reconcile` makes of the accounts' plans.
use v_backend.Base.{
  ℕ, ◌==◌, ==_iff, ◌+◌, Bool, true, false, not, ◌&&◌, List, Option, none, some, Result, ok, ◌≡◌,
  refl, sym, ◌∙◌, ap, arith, inl, inr, Bool-cases, Option-cases, if◌then◌else◌, find_row, includes,
  find-update_rows, [], ◌∷◌,
}
use mathlib.Core.Option
use v_backend.Base.Keys.{HasUniqueKeys, HasUniqueKeys-update_rows}
use v_backend.Plans.Exceptions.{PlanType, free}
use v_backend.Subscriptions.Store.{Store, Account, Subscription, ◌>>=◌, >>=-returned, return}
use v_backend.Subscriptions.Repository.{
  SubscriptionData, UpsertOutcome, has_account, is_plan, find_account, find_account_plan, set_plan,
  update_account_plan, create_subscription, create_from_stripe, update_from_stripe,
  upsert_subscription_from_stripe, update_subscription_by_id, find_subscription_by_provider_id,
}
use v_backend.Subscriptions.Reconcile.{
  ManagedSubscription, upsert_data, sets_plan, pull_one, pull_all, downgrade_all,
}

-- The accounts have distinct ids.
abbrev pub HasAccountKeys : Store → Type 0
HasAccountKeys s = HasUniqueKeys (λ (a : Account). a.id) s.accounts

-- A change of plan, seen from one account.
abbrev pub ChangesPlan : (ℕ → PlanType → PlanType) → Store → Store → Type 0
ChangesPlan change s t =
    (HasAccountKeys s → HasAccountKeys t)
    × ((id : ℕ) → find_account_plan id t ≡ Option.map (change id) (find_account_plan id s))

unfoldable written : ℕ → PlanType → ℕ → PlanType → PlanType
written target new id old = if target == id then new else old

Option-map-map :
    {A B C : Type 0} (f : A → B) (g : B → C) (o : Option A)
    → Option.map g (Option.map f o) ≡ Option.map (λ a. g (f a)) o
Option-map-map f g none = refl
Option-map-map f g (some a) = refl

Option-map_id : {A : Type 0} (o : Option A) → Option.map (λ a. a) o ≡ o
Option-map_id none = refl
Option-map_id (some a) = refl

pub ChangesPlan-trans :
    (f g : ℕ → PlanType → PlanType) (s t u : Store)
    → ChangesPlan f s t
    → ChangesPlan g t u
    → ChangesPlan (λ id old. g id (f id old)) s u
ChangesPlan-trans f g s t u first second = (
  λ keys. second.0 (first.0 keys),
  λ id.
      second.1 id
      ∙ ap (Option.map (g id)) (first.1 id)
      ∙ Option-map-map (f id) (g id) (find_account_plan id s),
)

ChangesPlan-eq :
    (f g : ℕ → PlanType → PlanType) (s t : Store)
    → ((id : ℕ) → (old : PlanType) → f id old ≡ g id old)
    → ChangesPlan f s t
    → ChangesPlan g s t
ChangesPlan-eq f g s t same change = (
  change.0,
  λ id. change.1 id ∙ ap (λ h. Option.map h (find_account_plan id s)) (λ i. λ old. same id old i),
)

ChangesPlan-same : (s t : Store) → t.accounts ≡ s.accounts → ChangesPlan (λ id old. old) s t
unfolding find_account_plan
ChangesPlan-same s t same = (
  λ keys. rw same keys,
  λ id.
      ap (λ accounts. Option.map (λ (a : Account). a.plan_type) (find_account id accounts)) same
      ∙ sym (Option-map_id (find_account_plan id s)),
)

set_plan-ChangesPlan :
    (target : ℕ) (new : PlanType) (s : Store)
    → ChangesPlan (written target new) s (record s { accounts = set_plan target new s.accounts })
unfolding set_plan find_account_plan find_account written
set_plan-ChangesPlan target new s = (
  HasUniqueKeys-update_rows (λ (a : Account). a.id) (λ a. record a { plan_type = new }) target
      s.accounts (λ a. refl),
  λ id.
      ap (Option.map λ (a : Account). a.plan_type) (
        find-update_rows (λ (a : Account). a.id) target id (λ a. record a { plan_type = new })
          s.accounts (λ a. refl))
      ∙ plan_of (find_row (λ (a : Account). a.id == id) s.accounts) (target == id),
)
  where
    plan_of :
        (o : Option Account) (b : Bool)
        → Option.map
            (λ (a : Account). a.plan_type)
            (if b then Option.map {A = Account} (λ a. record a { plan_type = new }) o else o)
          ≡ Option.map (λ old. if b then new else old) (Option.map (λ (a : Account). a.plan_type) o)
    plan_of none true = refl
    plan_of none false = refl
    plan_of (some a) true = refl
    plan_of (some a) false = refl

update_account_plan-ChangesPlan :
    (target : ℕ) (new : PlanType) (s t : Store)
    → update_account_plan target new s ≡ (t, ok tt)
    → ChangesPlan (written target new) s t
unfolding update_account_plan
update_account_plan-ChangesPlan target new s t e =
    elim (Bool-cases (has_account target s && is_plan new)) [
      | inl found ↦
          let writes : update_account_plan target new s
              ≡ (record s { accounts = set_plan target new s.accounts }, ok tt) =
            rw found refl in
          let same : record s { accounts = set_plan target new s.accounts } ≡ t =
            ap (λ (x : Store × Result (Unit {0})). x.0) (sym writes ∙ e) in
          rw (sym same) (set_plan-ChangesPlan target new s)
      | inr missing ↦ let impossible = rw missing at e in cc
    ]

row-accounts :
    (d : SubscriptionData) (s : Store) → (create_subscription d s).0.accounts ≡ s.accounts
unfolding create_subscription
row-accounts d s = elim (Bool-cases (has_account d.account_id s && is_plan d.plan_type)) [
  | inl found ↦ rw found refl
  | inr missing ↦ rw missing refl
]

create-accounts :
    (d : SubscriptionData) (s t : Store) (op : UpsertOutcome)
    → create_from_stripe d s ≡ (t, ok op)
    → t.accounts ≡ s.accounts
unfolding create_from_stripe
create-accounts d s t op e =
    let (u, done, row, last) =
      >>=-returned (create_subscription d) (λ done. return UpsertOutcome.created) s t e in
    ap (λ (x : Store × Result UpsertOutcome). x.0.accounts) (sym last)
    ∙ ap (λ (x : Store × Result (Unit {0})). x.0.accounts) (sym row)
    ∙ row-accounts d s

refresh-accounts :
    (d : SubscriptionData) (existing : Subscription) (s : Store)
    → (update_from_stripe d existing s).0.accounts ≡ s.accounts
unfolding update_from_stripe update_subscription_by_id
refresh-accounts d existing s = elim (Bool-cases (is_plan d.plan_type)) [
  | inl valid ↦ rw valid refl
  | inr other ↦ rw other refl
]

upsert-accounts :
    (d : SubscriptionData) (s t : Store) (op : UpsertOutcome)
    → upsert_subscription_from_stripe d s ≡ (t, ok op)
    → t.accounts ≡ s.accounts
unfolding upsert_subscription_from_stripe
upsert-accounts d s t op e =
    elim (Option-cases
      (find_subscription_by_provider_id d.provider_subscription_id s.subscriptions)) [
        | inl missing ↦
            create-accounts d s t op (rw (missing, upsert_subscription_from_stripe) at e)
        | inr (x, found) ↦
            ap (λ (y : Store × Result UpsertOutcome). y.0.accounts)
              (sym (rw (found, upsert_subscription_from_stripe) at e))
            ∙ refresh-accounts d x s
      ]

-- What one subscription of the provider makes of the plan of an account.
unfoldable pub pulled : ManagedSubscription → ℕ → PlanType → PlanType
pulled sub id old = if sets_plan sub.status && sub.account_id == id then sub.plan_type else old

pull_one-ChangesPlan :
    (sub : ManagedSubscription) (s t : Store)
    → pull_one sub s ≡ (t, ok tt)
    → ChangesPlan (pulled sub) s t
unfolding pull_one pulled written upsert_data
pull_one-ChangesPlan sub s t e =
    let (u, op, row, last) =
      >>=-returned (upsert_subscription_from_stripe (upsert_data sub)) _ s t e in
    let before = ChangesPlan-same s u (upsert-accounts (upsert_data sub) s u op row) in
    elim (Bool-cases (sets_plan sub.status)) [
      | inl sets ↦
          ChangesPlan-eq (written sub.account_id sub.plan_type) (pulled sub) s t
            (λ id old. rw sets refl)
            (ChangesPlan-trans (λ id old. old) (written sub.account_id sub.plan_type) s u t before
              (update_account_plan-ChangesPlan sub.account_id sub.plan_type u t (rw sets at last)))
      | inr keeps ↦
          ChangesPlan-eq (λ id old. old) (pulled sub) s t (λ id old. rw keeps refl)
            (ChangesPlan-trans (λ id old. old) (λ id old. old) s u t before
              (ChangesPlan-same u t
                (ap (λ (x : Store × Result (Unit {0})). x.0.accounts) (sym (rw keeps at last)))))
    ]

unfoldable pub all_pulled : List ManagedSubscription → ℕ → PlanType → PlanType
unfolding pulled
all_pulled [] id old = old
all_pulled (sub ∷ subs) id old = all_pulled subs id (pulled sub id old)

pub pull_all-ChangesPlan :
    (subs : List ManagedSubscription) (s t : Store)
    → pull_all subs s ≡ (t, ok tt)
    → ChangesPlan (all_pulled subs) s t
unfolding pull_all all_pulled
pull_all-ChangesPlan [] s t e =
    ChangesPlan-same s t (ap (λ (x : Store × Result (Unit {0})). x.0.accounts) (sym e))
pull_all-ChangesPlan (sub ∷ subs) s t e =
    let (u, done, one, rest) = >>=-returned (pull_one sub) (λ done. pull_all subs) s t e in
    ChangesPlan-trans (pulled sub) (all_pulled subs) s u t (pull_one-ChangesPlan sub s u one)
      (pull_all-ChangesPlan subs u t rest)

-- What the downgrades make of the plan of an account.
unfoldable pub downgraded : List ℕ → List ℕ → ℕ → PlanType → PlanType
downgraded paid ids id old = if includes ids id && not (includes paid id) then free else old

kept-same :
    (paid : List ℕ) (x : ℕ) (xs : List ℕ) (id : ℕ) (old : PlanType)
    → includes paid x ≡ true
    → downgraded paid xs id old ≡ downgraded paid (x ∷ xs) id old
unfolding downgraded includes
kept-same paid x xs id old kept = elim (Bool-cases (x == id)) [
  | inl same ↦ let this = rw ((==_iff x id).0 same) at kept in rw (same, this) (ground arith)
  | inr other ↦ rw other refl
]

stale-same :
    (paid : List ℕ) (x : ℕ) (xs : List ℕ) (id : ℕ) (old : PlanType)
    → includes paid x ≡ false
    → downgraded paid xs id (written x free id old) ≡ downgraded paid (x ∷ xs) id old
unfolding downgraded includes written
stale-same paid x xs id old stale = elim (Bool-cases (x == id)) [
  | inl same ↦ let this = rw ((==_iff x id).0 same) at stale in rw (same, this) (ground arith)
  | inr other ↦ rw other refl
]

pub downgrade_all-ChangesPlan :
    (paid ids : List ℕ) (s t : Store) (n : ℕ)
    → downgrade_all paid ids s ≡ (t, ok n)
    → ChangesPlan (downgraded paid ids) s t
unfolding downgrade_all downgraded includes
downgrade_all-ChangesPlan paid [] s t n e =
    ChangesPlan-same s t (ap (λ (x : Store × Result ℕ). x.0.accounts) (sym e))
downgrade_all-ChangesPlan paid (x ∷ xs) s t n e = elim (Bool-cases (includes paid x)) [
  | inl kept ↦
      ChangesPlan-eq (downgraded paid xs) (downgraded paid (x ∷ xs)) s t
        (λ id old. kept-same paid x xs id old kept)
        (downgrade_all-ChangesPlan paid xs s t n (rw kept at e))
  | inr stale ↦
      let (u, done, one, rest) =
        >>=-returned (update_account_plan x free)
          (λ done. downgrade_all paid xs >>= λ m. return (m + 1)) s t (rw stale at e) in
      let (v, m, others, last) =
        >>=-returned (downgrade_all paid xs) (λ m. return (m + 1)) u t rest in
      ChangesPlan-eq (λ id old. downgraded paid xs id (written x free id old))
        (downgraded paid (x ∷ xs)) s t (λ id old. stale-same paid x xs id old stale)
        (ChangesPlan-trans (written x free) (downgraded paid xs) s u t
          (update_account_plan-ChangesPlan x free s u one)
          (rw (ap (λ (y : Store × Result ℕ). y.0) last) at
            (downgrade_all-ChangesPlan paid xs u v m others)))
]
