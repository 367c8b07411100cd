-- ===== src/Orders/Lines.antt =====
-- `PrismaOrderRepository.addItem`, in one transaction.
pub mod Totals
use v_backend.Base.{
  ℕ, zero, suc, ◌+◌, ◌-◌, Bool, not, List, [], ◌∷◌, ◌++◌, Option, none, some, Result, ok, err,
  ◌>>=◌, ◌>>◌, throw_if, or_throw, bad_request, not_found, ◌==◌, ◌&&◌, if◌then◌else◌, find_row,
  update_rows, sum_by, ℤ, pos, pos_part, ◌+ℤ◌, ◌-ℤ◌, ltb_ℤ,
}
use v_backend.Db.{Db}
use v_backend.Db.Rows.{
  Product, StoreStock, Order, OrderItem, Backorder, StockMovement, BackorderStatus, outgoing, sale,
}
use v_backend.Db.Stock.{find_product, find_stock, lower, update_stock}
use v_backend.Db.Tenant.{TenantContext, may_access}
use v_backend.Orders.Data.{OrderLine}
use v_backend.Orders.Create.{add_backorder, sell_line, oversell}
use v_backend.Orders.Change.{find_order, items_of}

-- The units owed by the new line; it is short where they are computed.
unfoldable pub owed_by : List Product → Option StoreStock → OrderLine → Result ℕ
unfolding oversell
owed_by products none it = ok 0
owed_by products (some s) it =
    let available = s.quantity -ℤ s.reserved_quantity in
    if ltb_ℤ available (pos it.quantity)
    then (do
      entry ← oversell (find_product it.product_id products) it available
      ok (it.quantity - pos_part available))
    else ok 0

unfoldable pub total_of : List OrderItem → ℤ
total_of [] = pos 0
total_of (it ∷ its) = it.total +ℤ total_of its

unfoldable pub discount_of : List OrderItem → ℕ
unfolding sum_by
discount_of = sum_by (λ it. it.discount)

-- `order.update({ data: { subtotal, discount, total: subtotal - discount } })`
unfoldable pub update_totals : ℕ → Db → Db
unfolding total_of discount_of
update_totals order_id db =
    let all_items = items_of order_id db.order_items in
    let subtotal = total_of all_items in
    let discount = pos (discount_of all_items) in
    record db {
      orders =
          update_rows (λ o. o.id == order_id)
            (λ o. record o {
              subtotal = subtotal;
              discount = discount;
              total = subtotal -ℤ discount;
            })
            db.orders;
    }

unfoldable pub new_item : ℕ → ℕ → OrderLine → OrderItem
new_item id order_id it = record {
  id = id;
  order_id = order_id;
  product_id = it.product_id;
  quantity = it.quantity;
  unit_price = it.unit_price;
  discount = it.discount;
  total = it.total;
}

-- `order_item.create`
unfoldable pub insert_item : OrderItem → Db → Db
insert_item item db = record db {
  order_items = db.order_items ++ item ∷ [];
  next_item = suc db.next_item;
}

unfoldable pub add_item : TenantContext → ℕ → ℕ → OrderLine → Db → Result (Db × OrderItem)
add_item ctx now order_id it db = do
  order ← or_throw (find_order order_id db.orders) bad_request
  throw_if (not (may_access ctx order.seller_id)) bad_request
  owned ←
      or_throw
        (find_row (λ (p : Product). p.id == it.product_id && p.seller_id == order.seller_id)
          db.products)
        not_found
  owed ← owed_by db.products (find_stock it.product_id db.stocks) it
  let sold = sell_line order.id it.product_id it.quantity db
  let item = new_item db.next_item order_id it
  let owing = add_backorder now order.seller_id order.id owed item it (insert_item item sold)
  ok (update_totals order_id owing, item)
