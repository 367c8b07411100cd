-- ===== src/Billings/Records.antt =====
-- `PrismaBillingRepository`. A row that it returns carries the state `overdue` where that applies; the
-- table never does.
use mathlib.Core.Option
use v_backend.Base.{
  ℕ, suc, Bool, true, false, not, ◌&&◌, List, [], ◌∷◌, ◌++◌, Option, none, some, Result, ok, err,
  ◌>>=◌, or_throw, not_found, unique_violation, ◌==◌, ltb, if◌then◌else◌, find_row, where_rows,
  update_rows, any_row, text_eq, ℤ,
}
use v_backend.Calendar.{LocalDate, midnight, to_ms}
use v_backend.Db.{Db}
use v_backend.Db.Rows.{
  Order, Billing, BillingStatus, PaymentMethod, BillingMode, Customer, per_sale, weekly, biweekly,
  monthly, custom,
}
use v_backend.Db.Tenant.{TenantContext, tenant_filter, in_filter}
use v_backend.Billings.Status.{DerivedBilling}
use v_backend.Orders.Change.{find_order, is_canceled}

unfoldable pub may_be_overdue : BillingStatus → Bool
may_be_overdue BillingStatus.pending = true
may_be_overdue BillingStatus.partial = true
may_be_overdue BillingStatus.paid = false
may_be_overdue BillingStatus.overdue = false
may_be_overdue BillingStatus.canceled = false

unfoldable pub is_before : Option ℕ → ℕ → Bool
is_before none t = false
is_before (some d) t = ltb d t

unfoldable pub apply_overdue : LocalDate → Billing → Billing
unfolding may_be_overdue is_before
apply_overdue now b =
    if may_be_overdue b.status && is_before b.due_date (to_ms (midnight now))
    then record b { status = BillingStatus.overdue }
    else b

-- `{ order: { seller_id } }`
unfoldable pub order_in_filter : Option ℕ → Option Order → Bool
order_in_filter filter none = false
order_in_filter filter (some o) = in_filter filter o.seller_id

unfoldable pub in_tenant : Option ℕ → List Order → Billing → Bool
unfolding order_in_filter
in_tenant none orders b = true
in_tenant (some s) orders b = order_in_filter (some s) (find_order b.order_id orders)

-- The row of `findById`, before the overlay.
unfoldable pub stored_by_id : Option ℕ → ℕ → Db → Option Billing
unfolding in_tenant
stored_by_id filter id db =
    find_row (λ (b : Billing). b.id == id && in_tenant filter db.orders b) db.billings

unfoldable pub find_by_id : TenantContext → LocalDate → ℕ → Db → Result (Option Billing)
unfolding stored_by_id apply_overdue
find_by_id ctx now id db = do
  filter ← tenant_filter ctx
  ok (Option.map (apply_overdue now) (stored_by_id filter id db))

-- The columns of an update; one that is absent keeps its value, and a date can be cleared.
pub data Patch : Type 0 where
  keep : Patch
  clear : Patch
  assign : ℕ → Patch

unfoldable pub patch : Patch → Option ℕ → Option ℕ
patch keep old = old
patch clear old = none
patch (assign t) old = some t

pub record UpdateBillingData : Type 0 where
  pub total_amount : Option ℤ
  pub paid_amount : Option ℤ
  pub payment_method : Option PaymentMethod
  pub due_date : Patch
  pub payment_date : Patch
  pub notes : Option (List ℕ)
  pub state : Option DerivedBilling

-- `a ?? b`
abbrev pub or_else {ℓ} : {A : Type ℓ} → Option A → A → A
or_else none b = b
or_else (some a) b = a

abbrev pub or_kept {ℓ} : {A : Type ℓ} → Option A → Option A → Option A
or_kept none b = b
or_kept (some a) b = some a

unfoldable pub write_state : Option DerivedBilling → Billing → Billing
write_state none b = b
write_state (some d) b = record b { status = d.status; payment_status = d.payment_status }

unfoldable pub write_columns : UpdateBillingData → Billing → Billing
unfolding patch
write_columns u b = record b {
  total_amount = or_else u.total_amount b.total_amount;
  paid_amount = or_else u.paid_amount b.paid_amount;
  payment_method = or_else u.payment_method b.payment_method;
  due_date = patch u.due_date b.due_date;
  payment_date = patch u.payment_date b.payment_date;
  notes = or_kept u.notes b.notes;
}

unfoldable pub write : UpdateBillingData → Billing → Billing
unfolding write_columns write_state
write u b = write_state u.state (write_columns u b)

-- `update`: the row is looked up in the tenant once more before it is written by its id.
unfoldable pub update :
    TenantContext → LocalDate → ℕ → UpdateBillingData → Db → Result (Db × Billing)
unfolding find_by_id write
update ctx now id u db = do
  found ← find_by_id ctx now id db
  existing ← or_throw found not_found
  let billings = update_rows (λ (b : Billing). b.id == id) (write u) db.billings
  row ← or_throw (find_row (λ (b : Billing). b.id == id) billings) not_found
  ok (record db { billings = billings }, apply_overdue now row)

unfoldable pub delete : TenantContext → LocalDate → ℕ → Db → Result Db
unfolding find_by_id
delete ctx now id db = do
  found ← find_by_id ctx now id db
  existing ← or_throw found not_found
  ok (record db { billings = where_rows (λ (b : Billing). not (b.id == id)) db.billings })

pub record CreateBillingData : Type 0 where
  pub order_id : ℕ
  pub billing_number : List ℕ
  pub total_amount : ℤ
  pub paid_amount : ℤ
  pub payment_method : PaymentMethod
  pub state : DerivedBilling
  pub due_date : Option ℕ
  pub payment_date : Option ℕ
  pub notes : Option (List ℕ)

unfoldable pub new_billing : ℕ → CreateBillingData → Billing
new_billing id d = record {
  id = id;
  order_id = d.order_id;
  billing_number = d.billing_number;
  status = d.state.status;
  total_amount = d.total_amount;
  paid_amount = d.paid_amount;
  payment_method = d.payment_method;
  payment_status = d.state.payment_status;
  due_date = d.due_date;
  payment_date = d.payment_date;
  notes = d.notes;
}

unfoldable pub create : LocalDate → CreateBillingData → Db → Result (Db × Billing)
unfolding new_billing apply_overdue
create now d db =
    let taken = any_row (λ (x : Billing). text_eq x.billing_number d.billing_number) db.billings in
    let row = new_billing db.next_billing d in
    if taken
    then err unique_violation
    else ok (
      record db { next_billing = suc db.next_billing; billings = db.billings ++ row ∷ [] },
      apply_overdue now row,
    )

bills_per_sale : BillingMode → Bool
bills_per_sale per_sale = true
bills_per_sale weekly = false
bills_per_sale biweekly = false
bills_per_sale monthly = false
bills_per_sale custom = false

-- `customer: { billing_mode: 'per_sale' }`
unfoldable pub customer_per_sale : Option Customer → Bool
unfolding bills_per_sale
customer_per_sale none = false
customer_per_sale (some c) = bills_per_sale c.billing_mode

-- `Billing: { none: {} }`
unfoldable pub is_billed : List Billing → ℕ → Bool
is_billed billings order_id = any_row (λ (b : Billing). b.order_id == order_id) billings

unfoldable pub is_unbilled : Option ℕ → Db → Order → Bool
unfolding customer_per_sale is_billed
is_unbilled filter db o =
    in_filter filter o.seller_id
    && customer_per_sale (find_row (λ (c : Customer). c.id == o.customer_id) db.customers)
    && not (is_billed db.billings o.id)
    && not (is_canceled o.status)

unfoldable pub find_unbilled_per_sale_orders : TenantContext → Db → Result (List Order)
unfolding is_unbilled
find_unbilled_per_sale_orders ctx db = do
  filter ← tenant_filter ctx
  ok (where_rows (is_unbilled filter db) db.orders)

-- `verifyOrderAccess`
unfoldable pub verify_order_access : ℕ → Option ℕ → Bool → List Order → Option Order
verify_order_access order_id seller_id is_admin orders = elim (find_order order_id orders) [
  | none ↦ none
  | some o ↦
      if is_admin
      then some o
      else (elim seller_id [ none ↦ none | some s ↦ if o.seller_id == s then some o else none ])
]

unfoldable pub has_status : Option BillingStatus → Billing → Bool
has_status none b = true
has_status (some BillingStatus.pending) b = elim b.status [
  | BillingStatus.pending ↦ true
  | _ ↦ false
]
has_status (some BillingStatus.partial) b = elim b.status [
  | BillingStatus.partial ↦ true
  | _ ↦ false
]
has_status (some BillingStatus.paid) b = elim b.status [ BillingStatus.paid ↦ true | _ ↦ false ]
has_status (some BillingStatus.overdue) b = elim b.status [
  | BillingStatus.overdue ↦ true
  | _ ↦ false
]
has_status (some BillingStatus.canceled) b = elim b.status [
  | BillingStatus.canceled ↦ true
  | _ ↦ false
]

-- `findAll`; the order of the rows is that of the table, where the source asks for the newest first.
unfoldable pub find_all :
    TenantContext → LocalDate → Option BillingStatus → Db → Result (List Billing)
unfolding has_status in_tenant apply_overdue
find_all ctx now status db = do
  filter ← tenant_filter ctx
  ok (
      v_backend.Base.map (apply_overdue now) (
        where_rows (λ (b : Billing). in_tenant filter db.orders b && has_status status b)
          db.billings))

-- `findByOrderId`, with no further filter.
unfoldable pub find_by_order_id : TenantContext → LocalDate → ℕ → Db → Result (List Billing)
unfolding in_tenant apply_overdue
find_by_order_id ctx now order_id db = do
  filter ← tenant_filter ctx
  ok (
      v_backend.Base.map (apply_overdue now) (
        where_rows (λ (b : Billing). b.order_id == order_id && in_tenant filter db.orders b)
          db.billings))
