-- ===== src/Orders/Change.antt =====
-- `PrismaOrderRepository.updateStatus` and `delete`, with the stock that they give back. Each runs in
-- one transaction.
pub mod Restore
use v_backend.Base.{
  ℕ, Bool, true, false, not, List, [], ◌∷◌, ◌++◌, Option, none, some, Result, ok, err, ◌>>=◌, ◌>>◌,
  throw_if, or_throw, not_found, ◌==◌, if◌then◌else◌, ◌&&◌, find_row, where_rows, update_rows, ℤ,
}
use v_backend.Db.{Db}
use v_backend.Db.Rows.{
  StoreStock, Order, OrderItem, Backorder, StockMovement, Billing, OrderStatus, BackorderStatus,
  BillingStatus, PaymentStatus, incoming, return,
}
use v_backend.Db.Stock.{find_stock, raise, update_stock, is_pending}
use v_backend.Db.Tenant.{TenantContext, may_access}

unfoldable pub is_canceled : OrderStatus → Bool
is_canceled OrderStatus.pending = false
is_canceled OrderStatus.confirmed = false
is_canceled OrderStatus.shipping = false
is_canceled OrderStatus.delivered = false
is_canceled OrderStatus.canceled = true

-- `order.findUnique({ where: { id } })`
unfoldable pub find_order : ℕ → List Order → Option Order
find_order id = find_row (λ o. o.id == id)

-- A missing order and an order of another seller give the same error.
unfoldable pub require_order_in_tenant : TenantContext → ℕ → List Order → Result Order
require_order_in_tenant ctx id orders = do
  order ← or_throw (find_order id orders) not_found
  throw_if (not (may_access ctx order.seller_id)) not_found
  ok order

-- The pending backorders of the order are dropped.
unfoldable pub cancel_backorders : ℕ → List Backorder → List Backorder
unfolding is_pending
cancel_backorders order_id =
    update_rows (λ b. b.order_id == order_id && is_pending b.status)
      λ b. record b { status = BackorderStatus.canceled }

unfoldable pub restore_item : ℕ → OrderItem → Db → Db
restore_item order_id it db = elim (find_stock it.product_id db.stocks) [
  | none ↦ db
  | some s ↦ record db {
    stocks = update_stock it.product_id (raise it.quantity) db.stocks;
    movements =
        db.movements
        ++ record {
          movement_type = incoming;
          reference_type = return;
          reference_id = order_id;
          product_id = it.product_id;
          quantity = it.quantity;
        }
          ∷ [];
  }
]

unfoldable pub restore_items : ℕ → List OrderItem → Db → Db
restore_items order_id [] db = db
restore_items order_id (it ∷ its) db = restore_items order_id its (restore_item order_id it db)

unfoldable pub items_of : ℕ → List OrderItem → List OrderItem
items_of order_id = where_rows λ it. it.order_id == order_id

-- `restoreStockInTx`
unfoldable pub restore_stock : ℕ → Db → Db
restore_stock order_id db =
    restore_items order_id (items_of order_id db.order_items)
      (record db { backorders = cancel_backorders order_id db.backorders })

pub record BillingUpdate : Type 0 where
  pub status : BillingStatus
  pub payment_status : PaymentStatus
  pub payment_date : Option ℕ
  pub paid_amount : Option ℤ

-- A column whose new value is undefined keeps its value.
abbrev kept_amount : Option ℤ → ℤ → ℤ
kept_amount none a = a
kept_amount (some b) a = b

unfoldable pub update_billing : BillingUpdate → Billing → Billing
update_billing u b = elim u.payment_date [
  | none ↦ record b { status = u.status; payment_status = u.payment_status }
  | some date ↦ record b {
    status = u.status;
    payment_status = u.payment_status;
    payment_date = some date;
    paid_amount = kept_amount u.paid_amount b.paid_amount;
  }
]

-- `billing.updateMany({ where: { order_id } })`
unfoldable pub update_billings : ℕ → Option BillingUpdate → List Billing → List Billing
unfolding update_billing
update_billings order_id none billings = billings
update_billings order_id (some u) billings =
    update_rows (λ b. b.order_id == order_id) (update_billing u) billings

unfoldable pub set_status : ℕ → OrderStatus → List Order → List Order
set_status id status = update_rows (λ o. o.id == id) λ o. record o { status = status }

unfoldable pub update_status :
    TenantContext → ℕ → OrderStatus → Option BillingUpdate → Db → Result Db
unfolding is_canceled
update_status ctx id status billing_update db = do
  order ← require_order_in_tenant ctx id db.orders
  let moves = is_canceled status && not (is_canceled order.status)
  let restored = if moves then restore_stock id db else db
  ok (record restored {
    orders = set_status id status restored.orders;
    billings = update_billings id billing_update restored.billings;
  })

-- `order.delete`: the schema cascades to the items, the backorders and the billings of the order.
unfoldable pub delete_order : ℕ → Db → Db
delete_order id db = record db {
  orders = where_rows (λ (o : Order). not (o.id == id)) db.orders;
  order_items = where_rows (λ (it : OrderItem). not (it.order_id == id)) db.order_items;
  backorders = where_rows (λ (b : Backorder). not (b.order_id == id)) db.backorders;
  billings = where_rows (λ (b : Billing). not (b.order_id == id)) db.billings;
}

unfoldable pub delete : TenantContext → ℕ → Db → Result Db
unfolding is_canceled
delete ctx id db = do
  order ← require_order_in_tenant ctx id db.orders
  ok (delete_order id (if is_canceled order.status then db else restore_stock id db))
