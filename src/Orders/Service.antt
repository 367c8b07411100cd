-- ===== src/Orders/Service.antt =====
-- `OrdersService`: pricing an order, its charge, and the calls of the repository. The messages and
-- the queue are left out: a notification is returned as a value.
pub mod Pricing
use mathlib.Core.Option
use v_backend.Base.{
  ℕ, ◌+◌, ◌*◌, min, Bool, List, [], ◌∷◌, map, Option, none, some, Result, ok, err, ◌>>=◌, ◌>>◌,
  or_throw, not_found, ◌==◌, ◌&&◌, if◌then◌else◌, find_row, sum_by, ℤ, pos, ◌-ℤ◌,
}
use v_backend.Calendar.{LocalDate, to_ms}
use v_backend.Db.{Db}
use v_backend.Db.Rows.{
  Order, OrderItem, OrderStatus, Customer, BillingMode, BillingStatus, PaymentStatus, cash,
  per_sale, weekly, biweekly, monthly, custom,
}
use v_backend.Db.Tenant.{TenantContext, may_access, require_seller_id}
use v_backend.Billings.Scheduler.{compute_due_date}
use v_backend.Billings.Status.{derive_billing_status}
use v_backend.Orders.Data.{
  OrderItemInput, CreateOrderDto, OrderLine, CreateOrderBillingData, CreateOrderData, OversoldItem,
  OversoldNotice,
}
use v_backend.Orders.Create
use v_backend.Orders.Change
use v_backend.Orders.Change.{BillingUpdate}
use v_backend.Orders.Lines

-- The discount is clamped to the line's value. Prices and quantities are not negative.
unfoldable pub price_item : OrderItemInput → OrderLine
price_item it =
    let line_value = it.unit_price * it.quantity in
    let discount = min it.discount line_value in
    record {
      product_id = it.product_id;
      quantity = it.quantity;
      unit_price = it.unit_price;
      discount = discount;
      total = pos line_value -ℤ pos discount;
    }

unfoldable pub line_value : OrderLine → ℕ
line_value it = it.unit_price * it.quantity

-- `reduce((acc, it) => acc + it.lineValue, 0)`
unfoldable pub subtotal_of : List OrderLine → ℕ
unfolding sum_by line_value
subtotal_of = sum_by line_value

unfoldable pub discount_of : List OrderLine → ℕ
unfolding sum_by
discount_of = sum_by (λ it. it.discount)

-- `orderNumber.replace(/^ORD/, 'COB')`
unfoldable pub billing_number_of : List ℕ → List ℕ
billing_number_of (a ∷ b ∷ c ∷ rest) =
    if a == b'O' && b == b'R' && c == b'D' then b'C' ∷ b'O' ∷ b'B' ∷ rest else a ∷ b ∷ c ∷ rest
billing_number_of number = number

-- `CustomersService.findOne` over `PrismaCustomerRepository.findById`
unfoldable pub find_customer : TenantContext → ℕ → List Customer → Result Customer
find_customer ctx id customers = do
  customer ← or_throw (find_row (λ (c : Customer). c.id == id) customers) not_found
  if may_access ctx customer.seller_id then ok customer else err not_found

unfoldable pub is_per_sale : BillingMode → Bool
is_per_sale per_sale = v_backend.Base.true
is_per_sale weekly = v_backend.Base.false
is_per_sale biweekly = v_backend.Base.false
is_per_sale monthly = v_backend.Base.false
is_per_sale custom = v_backend.Base.false

unfoldable pub build_billing_data :
    TenantContext
    → LocalDate
    → ℕ
    → List ℕ
    → ℤ
    → List Customer
    → Result (Option CreateOrderBillingData)
unfolding is_per_sale find_customer
build_billing_data ctx now customer_id order_number total customers = do
  customer ← find_customer ctx customer_id customers
  let derived = derive_billing_status (pos 0) total
  ok (
      if is_per_sale customer.billing_mode
      then some (record {
        billing_number = billing_number_of order_number;
        total_amount = total;
        paid_amount = pos 0;
        payment_method = cash;
        payment_status = derived.payment_status;
        status = derived.status;
        due_date =
            Option.map to_ms (compute_due_date customer.billing_mode customer.billing_day now);
      })
      else none)

unfoldable pub create_data : ℕ → CreateOrderDto → Option CreateOrderBillingData → CreateOrderData
unfolding price_item subtotal_of discount_of
create_data seller_id dto billing =
    let items = map price_item dto.items in
    record {
      seller_id = seller_id;
      customer_id = dto.customer_id;
      order_number = dto.order_number;
      notes = dto.notes;
      subtotal = pos (subtotal_of items);
      discount = pos (discount_of items);
      total = pos (subtotal_of items) -ℤ pos (discount_of items);
      items = items;
      billing = billing;
    }

-- One notification to the seller for each oversold item, after the transaction.
unfoldable pub notify_oversold : ℕ → List ℕ → List OversoldItem → List OversoldNotice
notify_oversold seller_id order_number oversold =
    map (λ item. record { user_id = seller_id; order_number = order_number; item = item }) oversold

unfoldable pub create :
    TenantContext → LocalDate → CreateOrderDto → Db → Result (Db × Order × List OversoldNotice)
unfolding create_data build_billing_data notify_oversold
create ctx now dto db = do
  seller_id ← require_seller_id ctx
  let items = map price_item dto.items
  let total = pos (subtotal_of items) -ℤ pos (discount_of items)
  billing ← build_billing_data ctx now dto.customer_id dto.order_number total db.customers
  created ← Create.create (to_ms now) (create_data seller_id dto billing) db
  ok (created.0, created.1, notify_oversold seller_id dto.order_number created.2)

unfoldable pub add_item :
    TenantContext → LocalDate → ℕ → OrderItemInput → Db → Result (Db × OrderItem)
unfolding price_item
add_item ctx now order_id it db = Lines.add_item ctx (to_ms now) order_id (price_item it) db

-- Only a cancellation is passed on to the billings of the order.
unfoldable pub billing_update_for : OrderStatus → Option BillingUpdate
billing_update_for OrderStatus.pending = none
billing_update_for OrderStatus.confirmed = none
billing_update_for OrderStatus.shipping = none
billing_update_for OrderStatus.delivered = none
billing_update_for OrderStatus.canceled = some (record {
  status = BillingStatus.canceled;
  payment_status = PaymentStatus.canceled;
  payment_date = none;
  paid_amount = none;
})

unfoldable pub update_status : TenantContext → ℕ → OrderStatus → Db → Result Db
unfolding billing_update_for
update_status ctx id status db = Change.update_status ctx id status (billing_update_for status) db

unfoldable pub delete : TenantContext → ℕ → Db → Result Db
delete ctx id db = Change.delete ctx id db
