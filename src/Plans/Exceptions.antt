-- ===== src/Plans/Exceptions.antt =====
-- modules/account-exceptions: the exceptions in force, and which of them counts.
use v_backend.Base.{
  ℕ, Bool, true, false, ◌&&◌, List, [], ◌∷◌, Option, none, some, ◌==◌, leb, ltb, where_rows, ℤ,
}
use v_backend.Base.Keys.{sort_by}

-- The plan of an account; `other` is a text that is none of the three.
pub data PlanType : Type 0 where
  free pro enterprise other : PlanType

pub record CustomLimits : Type 0 where
  pub max_products : Option ℤ
  pub max_customers : Option ℤ
  pub max_orders_per_month : Option ℤ

-- The type with its metadata; a grant of a plan other than pro and enterprise is `none`, as is a date
-- that is no text.
pub data ExceptionType : Type 0 where
  unlimited_window : ExceptionType
  plan_grant : Option PlanType → ExceptionType
  custom_limits : CustomLimits → ExceptionType
  billing_adjustment : Option ℕ → ExceptionType

pub data ExceptionStatus : Type 0 where
  active expired revoked : ExceptionStatus

pub record AccountException : Type 0 where
  pub id : ℕ
  pub account_id : ℕ
  pub exception_type : ExceptionType
  pub status : ExceptionStatus
  pub effective_from : ℕ
  pub effective_until : Option ℕ
  pub created_at : ℕ

unfoldable pub is_active : ExceptionStatus → Bool
is_active active = true
is_active expired = false
is_active revoked = false

-- `effective_until: null` or `gt: now`
unfoldable pub not_ended : Option ℕ → ℕ → Bool
not_ended none now = true
not_ended (some t) now = ltb now t

unfoldable pub in_force : ℕ → ℕ → AccountException → Bool
unfolding is_active not_ended
in_force account_id now x =
    x.account_id == account_id
    && is_active x.status
    && leb x.effective_from now
    && not_ended x.effective_until now

-- `orderBy: { createdAt: 'desc' }`
abbrev pub is_newer : AccountException → AccountException → Bool
is_newer a b = leb b.created_at a.created_at

-- `findActiveByAccountId`
unfoldable pub find_active : ℕ → ℕ → List AccountException → List AccountException
unfolding in_force
find_active account_id now table = sort_by is_newer (where_rows (in_force account_id now) table)

-- The records of the source stand behind each field; the limits service reads what is here.
pub record ResolvedExceptions : Type 0 where
  pub window : Option AccountException
  pub granted : Option PlanType
  pub custom : Option CustomLimits
  pub next_billing_date : Option ℕ

-- `if (!field) field = value`
abbrev first_of {ℓ} : {A : Type ℓ} → Option A → Option A → Option A
first_of none b = b
first_of (some a) b = some a

-- One round of the loop.
unfoldable pub resolve_one : AccountException → ResolvedExceptions → ResolvedExceptions
resolve_one x r = elim x.exception_type [
  | unlimited_window ↦ record r { window = first_of r.window (some x) }
  | plan_grant plan ↦ record r { granted = first_of r.granted plan }
  | custom_limits limits ↦ record r { custom = first_of r.custom (some limits) }
  | billing_adjustment date ↦ record r { next_billing_date = first_of r.next_billing_date date }
]

unfoldable pub resolve_all : List AccountException → ResolvedExceptions → ResolvedExceptions
unfolding resolve_one
resolve_all [] r = r
resolve_all (x ∷ xs) r = resolve_all xs (resolve_one x r)

unfoldable pub resolve_active_exceptions : ℕ → ℕ → List AccountException → ResolvedExceptions
unfolding find_active resolve_all
resolve_active_exceptions account_id now table =
    resolve_all (find_active account_id now table)
      (record { window = none; granted = none; custom = none; next_billing_date = none })

-- What one exception has to say on a field.
abbrev pub window_of : AccountException → Option AccountException
window_of x = elim x.exception_type [ unlimited_window ↦ some x | _ ↦ none ]

abbrev pub grant_of : AccountException → Option PlanType
grant_of x = elim x.exception_type [ plan_grant p ↦ p | _ ↦ none ]

abbrev pub custom_of : AccountException → Option CustomLimits
custom_of x = elim x.exception_type [ custom_limits l ↦ some l | _ ↦ none ]

abbrev pub date_of : AccountException → Option ℕ
date_of x = elim x.exception_type [ billing_adjustment d ↦ d | _ ↦ none ]

-- The first of the list that has something to say.
unfoldable pub first_some {ℓ} :
    {A : Type ℓ} → (AccountException → Option A) → List AccountException → Option A
first_some f [] = none
first_some f (x ∷ xs) = first_of (f x) (first_some f xs)
