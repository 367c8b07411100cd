-- ===== src/Tests/Charges.antt =====
-- Charges of the shop, and the limits of its account.
use v_backend.Orders.Service.{update_status}
use v_backend.Billings.Records.{
  create, find_by_id, find_unbilled_per_sale_orders, in_tenant, update, verify_order_access,
}
use v_backend.Orders.Change
use v_backend.Orders.Change.{find_order, require_order_in_tenant}
use v_backend.Base.{any_row, find_row, update_rows}
use v_backend.Db.Tenant.{get_seller_id, in_filter, is_admin, may_access, tenant_filter}
use v_backend.Plans.Limits.{get_limits, resolve_effective_plan}
use v_backend.Base.{All, not_found}
use v_backend.Base.{
  ℕ, ◌≡◌, ◌≢◌, ◌⊎◌, ◌↔◌, ◌<◌, refl, inl, inr, true, false, List, [], ◌∷◌, Option, none, some, ok,
  err, arith, pos, ◌≤ℤ◌,
}
use v_backend.Calendar.{LocalDate, to_ms, midnight, day_number}
use v_backend.Db.{Db}
use v_backend.Db.Rows.{Order, OrderStatus, Billing, BillingStatus, PaymentStatus, cash}
use v_backend.Billings.Status.{Matches, derive_billing_status, derive_billing_status-Matches}
use v_backend.Billings.Records.{keep, apply_overdue, has_status}
use v_backend.Billings.Service
use v_backend.Billings.Service.{
  CreateBillingDto, UpdateBillingDto, sync_billings, find_all_by_status,
}
use v_backend.Billings.Consistency.{IsSound}
use v_backend.Billings.Reach.{Reachable, here, next, created, status_changed, Reachable-IsSound}
use v_backend.Billings.Payments.{update-within_total, update-keeps_canceled, overdue_next_day}
use mathlib.Core.List.{Memᴰ}
use v_backend.Billings.Scope.{IsOwn, IsAsked, foreign_billing, find_all_by_status-IsOwn}
use v_backend.Orders.Tenancy.{seller}
use v_backend.Billings.Sync.{sync_billings_twice}
use v_backend.Plans.Exceptions.{
  PlanType, free, pro, enterprise, ResolvedExceptions, AccountException, plan_grant, active,
}
use v_backend.Plans.Limits.{
  Settings, Usage, can_create_product, can_create_customer, can_create_order, get_usage_summary,
}
use v_backend.Plans.Agreement.{summary_agrees}
use v_backend.Tests.Sales.{result_of, shop, ctx, an_order}

abbrev today : LocalDate
today = record { year = 2026; month = 0; day = 15; ms = 3600000 }

-- An order that has no charge yet.
abbrev unbilled : Order
unbilled = record an_order {
  id = 1;
  seller_id = 9;
  customer_id = 4;
  order_number = b'O' ∷ b'R' ∷ b'D' ∷ b'1' ∷ [];
  total = pos 50;
}

abbrev books : Db
books = record shop { orders = unbilled ∷ []; next_order = 2 }

books-IsSound : IsSound books
books-IsSound = record { consistent = tt; unique = tt; bounded = tt }

abbrev body : CreateBillingDto
body = record {
  billing_number = b'C' ∷ [];
  total_amount = 50;
  paid_amount = 20;
  payment_method = cash;
  due_date = none;
  payment_date = none;
  notes = none;
}

abbrev some_billing : Billing
some_billing = record {
  id = 0;
  order_id = 0;
  billing_number = [];
  status = BillingStatus.pending;
  total_amount = pos 0;
  paid_amount = pos 0;
  payment_method = cash;
  payment_status = PaymentStatus.pending;
  due_date = none;
  payment_date = none;
  notes = none;
}

abbrev charged : Db × Billing
unfolding Service.create
charged = result_of (books, some_billing) (Service.create ctx today 1 body books)

abbrev decimal : ℕ → List ℕ
decimal n = n ∷ []

abbrev local_date : ℕ → LocalDate
local_date t = today

abbrev dropped : Db
unfolding update_status
dropped = result_of books (update_status ctx 1 OrderStatus.canceled charged.0)

-- A charge is made, and then its order is canceled.
trace : Reachable decimal local_date books dropped
unfolding Service.create verify_order_access find_order find_row is_admin get_seller_id create
    any_row update_status Change.update_status require_order_in_tenant may_access
trace =
    next (next here (created ctx today 1 body {db = books} {r = charged} refl))
      (status_changed ctx 1 OrderStatus.canceled {db = charged.0} {db' = dropped} refl)

Reachable-IsSound_example : IsSound dropped
Reachable-IsSound_example = Reachable-IsSound decimal local_date books dropped books-IsSound trace

abbrev row : Billing
row = record some_billing {
  id = 1;
  order_id = 1;
  total_amount = pos 50;
  paid_amount = pos 20;
  status = BillingStatus.partial;
}

abbrev ledger : Billing → Db
ledger b = record books { billings = b ∷ []; next_billing = 2 }

ledger-IsSound : IsSound (ledger row)
unfolding derive_billing_status
ledger-IsSound = record {
  consistent = (inr (refl, refl), tt);
  unique = (tt, tt);
  bounded = (omega arith, tt);
}

abbrev canceled_row : Billing
canceled_row = record row {
  status = BillingStatus.canceled;
  payment_status = PaymentStatus.canceled;
}

canceled_ledger-IsSound : IsSound (ledger canceled_row)
canceled_ledger-IsSound = record {
  consistent = (inl (refl, refl), tt);
  unique = (tt, tt);
  bounded = (omega arith, tt);
}

abbrev pays_all : UpdateBillingDto
pays_all = record {
  total_amount = none;
  paid_amount = some 50;
  payment_method = none;
  due_date = keep;
  payment_date = keep;
  notes = none;
}

abbrev paid_up : Billing → Db × Billing
unfolding Service.update
paid_up b = result_of (books, some_billing) (Service.update ctx today 1 pays_all (ledger b))

update-within_total_example : ((paid_up row).1).paid_amount ≤ℤ ((paid_up row).1).total_amount
unfolding Service.update find_by_id tenant_filter find_row find_order in_filter update update_rows
update-within_total_example =
    update-within_total ctx today 1 pays_all (ledger row) ledger-IsSound refl

update-keeps_canceled_example : ((paid_up canceled_row).1).status ≡ BillingStatus.canceled
unfolding find_row Service.update find_by_id tenant_filter find_order in_filter update update_rows
update-keeps_canceled_example =
    update-keeps_canceled ctx today 1 pays_all (ledger canceled_row) canceled_row
      canceled_ledger-IsSound refl refl refl

-- Due on the day before.
abbrev yesterday : LocalDate
yesterday = record today { day = 14; ms = 0 }

abbrev late : Billing
late = record row { due_date = some (to_ms (midnight yesterday)) }

partial_is_not_overdue : BillingStatus.partial ≢ BillingStatus.overdue
partial_is_not_overdue e = cc

overdue_next_day_example : ((apply_overdue today late).status ≡ BillingStatus.overdue) ↔ (
    ((BillingStatus.partial ≡ BillingStatus.pending)
      ⊎ (BillingStatus.partial ≡ BillingStatus.partial))
    × (day_number yesterday < day_number today))
overdue_next_day_example = overdue_next_day today yesterday late refl partial_is_not_overdue

abbrev synced : Db × List (List ℕ)
unfolding sync_billings
synced = result_of (shop, []) (sync_billings decimal local_date ctx today books)

sync_billings_twice_example :
    sync_billings decimal local_date ctx today synced.0 ≡ ok (synced.0, [])
unfolding sync_billings find_unbilled_per_sale_orders tenant_filter
sync_billings_twice_example = sync_billings_twice decimal local_date ctx today today books refl

derive_billing_status-Matches_example :
    Matches (pos 20) (pos 50) (derive_billing_status (pos 20) (pos 50))
derive_billing_status-Matches_example = derive_billing_status-Matches (pos 20) (pos 50)

abbrev settings : Settings
settings = record {
  free_plan_products_limit = none;
  free_plan_customers_limit = none;
  free_plan_sales_limit = none;
  window_start = none;
  window_end = none;
}

abbrev plain : Option PlanType → ResolvedExceptions
plain g = record {
  window = none;
  granted = g;
  custom =
      some
        (record { max_products = some (pos 3); max_customers = none; max_orders_per_month = none });
  next_billing_date = none;
}

abbrev usage : Usage
usage = record { products = 3; customers = 100; orders_this_month = 29 }

summary_agrees_example :
    let shown = get_usage_summary settings 5 (plain none) free usage in
    (((can_create_product settings 5 (plain none) free 3).allowed ≡ true)
      ↔ (shown.remaining_products ≢ pos 0))
    × (((can_create_customer settings 5 (plain none) free 100).allowed ≡ true)
        ↔ (shown.remaining_customers ≢ pos 0))
    × (((can_create_order settings 5 (plain none) free 29).allowed ≡ true)
        ↔ (shown.remaining_orders ≢ pos 0))
unfolding get_limits resolve_effective_plan
summary_agrees_example =
    summary_agrees settings 5 (plain none) free usage refl (omega arith, tt, tt) refl refl refl

abbrev grant : ℕ → PlanType → AccountException
grant created_at p = record {
  id = created_at;
  account_id = 9;
  exception_type = plan_grant (some p);
  status = active;
  effective_from = 0;
  effective_until = none;
  created_at = created_at;
}

abbrev grants : List AccountException
grants = grant 1 pro ∷ grant 2 enterprise ∷ []

foreign_billing_example :
    (Service.update (seller 8) today 1 pays_all (ledger row) ≡ err not_found)
    × (Service.cancel (seller 8) today 1 (ledger row) ≡ err not_found)
    × (Service.delete (seller 8) today 1 (ledger row) ≡ err not_found)
unfolding in_tenant find_order find_row in_filter
foreign_billing_example = foreign_billing 8 1 today pays_all (ledger row) (refl, tt)

abbrev late_row : Billing
late_row = record row { due_date = some 0 }

find_all_by_status-IsOwn_example :
    (bs : List Billing) × (find_all_by_status
        (seller 9)
        today
        (some BillingStatus.overdue)
        (ledger late_row)
      ≡ ok bs)
    × All (λ b. IsOwn 9 (ledger late_row) b × IsAsked (some BillingStatus.overdue) b) bs
    × All
        (λ b.
          Memᴰ (apply_overdue today b) bs
          ⊎ ((¬ (IsOwn 9 (ledger late_row) b))
              ⊎ (has_status (some BillingStatus.overdue) (apply_overdue today b) ≡ false)))
        (late_row ∷ [])
find_all_by_status-IsOwn_example =
    find_all_by_status-IsOwn 9 today (some BillingStatus.overdue) (ledger late_row)
