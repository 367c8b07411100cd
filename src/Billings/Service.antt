-- ===== src/Billings/Service.antt =====
-- `BillingsService`. The cache entry that an update drops is not modelled, nor are the log lines.
use mathlib.Core.Option
use v_backend.Base.{
  ℕ, Bool, false, List, [], ◌∷◌, ◌++◌, Option, none, some, Result, ok, err, ◌>>=◌, ◌>>◌, throw_if,
  or_throw, not_found, bad_request, where_rows, ℤ, pos, ltb_ℤ, ltb, if◌then◌else◌,
}
use v_backend.Calendar.{LocalDate, to_ms}
use v_backend.Db.{Db}
use v_backend.Db.Rows.{Order, Billing, BillingStatus, PaymentStatus, PaymentMethod, cash, per_sale}
use v_backend.Db.Tenant.{TenantContext, get_seller_id, is_admin}
use v_backend.Billings.Scheduler.{compute_due_date}
use v_backend.Billings.Status.{DerivedBilling, derive_billing_status}
use v_backend.Billings.Records
use v_backend.Billings.Records.{
  Patch, keep, clear, assign, UpdateBillingData, CreateBillingData, or_else, find_by_id, find_all,
  verify_order_access, find_unbilled_per_sale_orders, has_status,
}
use v_backend.Orders.Service.{billing_number_of}

-- The validated bodies: amounts are whole and not negative.
pub record CreateBillingDto : Type 0 where
  pub billing_number : List ℕ
  pub total_amount : ℕ
  pub paid_amount : ℕ
  pub payment_method : PaymentMethod
  pub due_date : Option ℕ
  pub payment_date : Option ℕ
  pub notes : Option (List ℕ)

pub record UpdateBillingDto : Type 0 where
  pub total_amount : Option ℕ
  pub paid_amount : Option ℕ
  pub payment_method : Option PaymentMethod
  pub due_date : Patch
  pub payment_date : Patch
  pub notes : Option (List ℕ)

unfoldable pub create :
    TenantContext → LocalDate → ℕ → CreateBillingDto → Db → Result (Db × Billing)
create ctx now order_id dto db = do
  order ←
      or_throw (verify_order_access order_id (get_seller_id ctx) (is_admin ctx) db.orders) not_found
  throw_if (ltb dto.total_amount dto.paid_amount) bad_request
  Records.create now
      (record {
        order_id = order_id;
        billing_number = dto.billing_number;
        total_amount = pos dto.total_amount;
        paid_amount = pos dto.paid_amount;
        payment_method = dto.payment_method;
        state = derive_billing_status (pos dto.paid_amount) (pos dto.total_amount);
        due_date = dto.due_date;
        payment_date = dto.payment_date;
        notes = dto.notes;
      })
      db

-- `dto.paid_amount !== undefined && dto.paid_amount > 0 && !billing.payment_date`
unfoldable pub dates_itself : Option ℕ → Option ℕ → Bool
dates_itself none date = false
dates_itself (some paid) none = ltb 0 paid
dates_itself (some paid) (some date) = false

-- `resolvedPaymentDate`
unfoldable pub resolve_payment_date : LocalDate → UpdateBillingDto → Billing → Patch
unfolding dates_itself
resolve_payment_date now dto billing = elim dto.payment_date [
  | keep ↦ if dates_itself dto.paid_amount billing.payment_date then assign (to_ms now) else keep
  | clear ↦ clear
  | assign t ↦ assign t
]

-- `derived`
unfoldable pub resulting_state : BillingStatus → ℤ → ℤ → Option DerivedBilling
resulting_state BillingStatus.pending paid total = some (derive_billing_status paid total)
resulting_state BillingStatus.partial paid total = some (derive_billing_status paid total)
resulting_state BillingStatus.paid paid total = some (derive_billing_status paid total)
resulting_state BillingStatus.overdue paid total = some (derive_billing_status paid total)
resulting_state BillingStatus.canceled paid total = none

unfoldable pub update :
    TenantContext → LocalDate → ℕ → UpdateBillingDto → Db → Result (Db × Billing)
unfolding resolve_payment_date resulting_state
update ctx now id dto db = do
  found ← find_by_id ctx now id db
  billing ← or_throw found not_found
  let new_total = or_else (Option.map pos dto.total_amount) billing.total_amount
  let new_paid = or_else (Option.map pos dto.paid_amount) billing.paid_amount
  throw_if (ltb_ℤ new_total new_paid) bad_request
  Records.update ctx now id
      (record {
        total_amount = Option.map pos dto.total_amount;
        paid_amount = Option.map pos dto.paid_amount;
        payment_method = dto.payment_method;
        due_date = dto.due_date;
        payment_date = resolve_payment_date now dto billing;
        notes = dto.notes;
        state = resulting_state billing.status new_paid new_total;
      })
      db

abbrev pub canceled_state : DerivedBilling
canceled_state = record { status = BillingStatus.canceled; payment_status = PaymentStatus.canceled }

unfoldable pub cancel : TenantContext → LocalDate → ℕ → Db → Result (Db × Billing)
cancel ctx now id db = do
  found ← find_by_id ctx now id db
  billing ← or_throw found not_found
  Records.update ctx now id
      (record {
        total_amount = none;
        paid_amount = none;
        payment_method = none;
        due_date = keep;
        payment_date = keep;
        notes = none;
        state = some canceled_state;
      })
      db

unfoldable pub delete : TenantContext → LocalDate → ℕ → Db → Result Db
delete ctx now id db = do
  found ← find_by_id ctx now id db
  billing ← or_throw found not_found
  Records.delete ctx now id db

-- The filter of the query: none for `overdue`, which is no stored state.
unfoldable pub query_status : Option BillingStatus → Option BillingStatus
query_status none = none
query_status (some BillingStatus.pending) = some BillingStatus.pending
query_status (some BillingStatus.partial) = some BillingStatus.partial
query_status (some BillingStatus.paid) = some BillingStatus.paid
query_status (some BillingStatus.overdue) = none
query_status (some BillingStatus.canceled) = some BillingStatus.canceled

unfoldable pub keep_status : Option BillingStatus → List Billing → List Billing
keep_status none billings = billings
keep_status (some BillingStatus.pending) billings = billings
keep_status (some BillingStatus.partial) billings = billings
keep_status (some BillingStatus.paid) billings = billings
keep_status (some BillingStatus.overdue) billings =
    where_rows (has_status (some BillingStatus.overdue)) billings
keep_status (some BillingStatus.canceled) billings = billings

unfoldable pub find_all_by_status :
    TenantContext → LocalDate → Option BillingStatus → Db → Result (List Billing)
unfolding query_status keep_status
find_all_by_status ctx now status db = do
  billings ← find_all ctx now (query_status status) db
  ok (keep_status status billings)

-- `replace(...) || COB-id`; `decimal` prints an id.
unfoldable pub sync_number : (ℕ → List ℕ) → Order → List ℕ
sync_number decimal o = elim (billing_number_of o.order_number) [
  | [] ↦ b'C' ∷ b'O' ∷ b'B' ∷ b'-' ∷ decimal o.id
  | x ∷ xs ↦ x ∷ xs
]

-- The charge of an order that has none; `local_date` reads a stored time in the server's time zone.
unfoldable pub sync_data : (ℕ → List ℕ) → (ℕ → LocalDate) → Order → CreateBillingData
unfolding sync_number
sync_data decimal local_date o = record {
  order_id = o.id;
  billing_number = sync_number decimal o;
  total_amount = o.total;
  paid_amount = pos 0;
  payment_method = cash;
  state = derive_billing_status (pos 0) o.total;
  due_date = Option.map to_ms (compute_due_date per_sale none (local_date o.created_at));
  payment_date = none;
  notes = none;
}

-- What `try { ... } catch` leaves of one order.
unfoldable pub keep_going : Db → Result (Db × Billing) → Db × List (List ℕ)
keep_going db (ok r) = (r.0, (r.1).billing_number ∷ [])
keep_going db (err e) = (db, [])

unfoldable pub sync_orders :
    (ℕ → List ℕ) → (ℕ → LocalDate) → LocalDate → List Order → Db → Db × List (List ℕ)
unfolding sync_data keep_going
sync_orders decimal local_date now [] db = (db, [])
sync_orders decimal local_date now (o ∷ os) db =
    let one = keep_going db (Records.create now (sync_data decimal local_date o) db) in
    let rest = sync_orders decimal local_date now os one.0 in (rest.0, one.1 ++ rest.1)

unfoldable pub sync_billings :
    (ℕ → List ℕ) → (ℕ → LocalDate) → TenantContext → LocalDate → Db → Result (Db × List (List ℕ))
unfolding sync_orders
sync_billings decimal local_date ctx now db = do
  orders ← find_unbilled_per_sale_orders ctx db
  ok (sync_orders decimal local_date now orders db)
