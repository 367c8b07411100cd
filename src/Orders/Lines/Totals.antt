-- ===== src/Orders/Lines/Totals.antt =====
-- What adding a line leaves in the totals of the order.

use v_backend.Base.{
  ℕ, zero, suc, ◌≡◌, ◌≢◌, refl, ◌∙◌, [], ◌∷◌, ◌++◌, some, ok, >>=-eq-ok, or_throw-eq-ok, ap, arith,
  ◌==◌, ==-refl, not, find-update_rows, ℤ, pos, ◌-ℤ◌, throw_if, or_throw, bad_request, not_found,
  find_row, ◌&&◌,
}
use v_backend.Db.{Db}
use v_backend.Db.Rows.{Order, OrderItem, Product}
use v_backend.Db.Stock.{find_stock}
use v_backend.Db.Tenant.{TenantContext, may_access}
use v_backend.Orders.Data.{OrderLine}
use v_backend.Orders.Create.{add_backorder, sell_line}
use v_backend.Orders.Create.StockFlow.{sell_line-SameTables}
use v_backend.Orders.Change.{find_order, items_of}
use v_backend.Orders.Lines.{
  owed_by, total_of, discount_of, update_totals, new_item, insert_item, add_item,
}

find_order-update_totals :
    (id : ℕ) (db : Db) (o : Order)
    → find_order id db.orders ≡ some o
    → let items = items_of id db.order_items in
      let subtotal = total_of items in
      let discount = pos (discount_of items) in
      find_order id (update_totals id db).orders
      ≡ some (record o { subtotal = subtotal; discount = discount; total = subtotal -ℤ discount })
unfolding update_totals find_order
find_order-update_totals id db o e =
    find-update_rows (λ (x : Order). x.id) id id _ db.orders (λ x. refl) ∙ rw (==-refl id, e)

add_backorder-tables :
    (now seller_id order_id owed : ℕ) (c : OrderItem) (it : OrderLine) (db : Db)
    → ((add_backorder now seller_id order_id owed c it db).orders ≡ db.orders)
      × ((add_backorder now seller_id order_id owed c it db).order_items ≡ db.order_items)
unfolding add_backorder
add_backorder-tables now seller_id order_id zero c it db = (refl, refl)
add_backorder-tables now seller_id order_id (suc owed) c it db = (refl, refl)

update_totals-order_items : (id : ℕ) (db : Db) → (update_totals id db).order_items ≡ db.order_items
unfolding update_totals
update_totals-order_items id db = refl

insert_item-orders : (item : OrderItem) (db : Db) → (insert_item item db).orders ≡ db.orders
unfolding insert_item
insert_item-orders item db = refl

insert_item-order_items :
    (item : OrderItem) (db : Db) → (insert_item item db).order_items ≡ db.order_items ++ item ∷ []
unfolding insert_item
insert_item-order_items item db = refl

-- An added line is stored behind the others, and the order is found with totals that are computed
-- from all its items: the subtotal is the sum of the line totals, which are net of the discounts,
-- and the total takes the discounts off once more.
pub add_item_totals :
    (ctx : TenantContext) (now order_id : ℕ) (it : OrderLine) (db : Db) {r : Db × OrderItem}
    → add_item ctx now order_id it db ≡ ok r
    → let items = items_of order_id (r.0).order_items in
      ((r.0).order_items ≡ db.order_items ++ r.1 ∷ [])
      × (o : Order) × (find_order order_id (r.0).orders ≡ some o)
      × (o.subtotal ≡ total_of items)
      × (o.discount ≡ pos (discount_of items))
      × (o.total ≡ total_of items -ℤ pos (discount_of items))
unfolding add_item
add_item_totals ctx now order_id it db {r} e =
    let order = >>=-eq-ok (or_throw (find_order order_id db.orders) bad_request) _ e in
    let access =
      >>=-eq-ok (throw_if (not (may_access ctx (order.0).seller_id)) bad_request) _ order.2 in
    let owned =
      >>=-eq-ok
        (or_throw
          (find_row (λ (p : Product). p.id == it.product_id && p.seller_id == (order.0).seller_id)
            db.products)
          not_found)
        _ access.2 in
    let owed = >>=-eq-ok (owed_by db.products (find_stock it.product_id db.stocks) it) _ owned.2 in
    let sold = sell_line (order.0).id it.product_id it.quantity db in
    let item = new_item db.next_item order_id it in
    let owing =
      add_backorder now (order.0).seller_id (order.0).id owed.0 item it (insert_item item sold) in
    let same : r ≡ (update_totals order_id owing, item) = cc (owed.2) in
    let tables = sell_line-SameTables (order.0).id it.product_id it.quantity db in
    let added =
      add_backorder-tables now (order.0).seller_id (order.0).id owed.0 item it
        (insert_item item sold) in
    let orders_eq : owing.orders ≡ db.orders =
      added.0 ∙ insert_item-orders item sold ∙ tables.orders_eq in
    let items_eq : owing.order_items ≡ db.order_items ++ item ∷ [] =
      added.1
      ∙ insert_item-order_items item sold
      ∙ ap (λ x. x ++ item ∷ []) tables.order_items_eq in
    let found =
      find_order-update_totals order_id owing order.0 (rw orders_eq (or_throw-eq-ok _ _ order.1)) in
    rw same (rw update_totals-order_items (items_eq, _, found, refl, refl, refl))

less_than_all : (a : ℤ) (n : ℕ) → a -ℤ pos n ≡ a → n ≡ 0
unfolding ◌-ℤ◌
less_than_all a n h = ground arith

-- After a line is added, an order of which any line carries a discount has a total that is not
-- the sum of its lines' totals.
pub add_item_double_discount :
    (ctx : TenantContext) (now order_id : ℕ) (it : OrderLine) (db : Db) {r : Db × OrderItem}
    {o : Order}
    → add_item ctx now order_id it db ≡ ok r
    → find_order order_id (r.0).orders ≡ some o
    → discount_of (items_of order_id (r.0).order_items) ≢ 0
    → o.total ≢ total_of (items_of order_id (r.0).order_items)
add_item_double_discount ctx now order_id it db {r} {o} e found discounted same =
    let (stored, o', found', sub_eq, disc_eq, total_eq) =
      add_item_totals ctx now order_id it db e in
    let one : o ≡ o' = cc (found, found') in
    discounted (
      less_than_all (total_of (items_of order_id (r.0).order_items))
        (discount_of (items_of order_id (r.0).order_items)) (cc (one, total_eq, same)))
