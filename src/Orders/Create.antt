-- ===== src/Orders/Create.antt =====
-- `PrismaOrderRepository.create`. It runs in one transaction: what it throws leaves no trace, so an
-- error carries no state. The row locks of `SELECT ... FOR UPDATE` have no effect on one call alone.
pub mod Owed
pub mod StockFlow
pub mod Facts
use v_backend.Base.{
  ℕ, zero, suc, ◌+◌, ◌-◌, Bool, ◌&&◌, not, List, [], ◌∷◌, ◌++◌, Option, none, some, map, Result, ok,
  err, ◌>>=◌, ◌>>◌, throw_if, or_throw, bad_request, not_found, unique_violation, ◌==◌, leb,
  if◌then◌else◌, length, where_rows, any_row, includes, distinct, text_eq, ℤ, pos, pos_part, ◌-ℤ◌,
  ltb_ℤ,
}
use v_backend.Db.{Db}
use v_backend.Db.Rows.{
  Product, StoreStock, Order, OrderItem, Backorder, StockMovement, Billing, OrderStatus,
  BackorderStatus, outgoing, sale,
}
use v_backend.Db.Stock.{find_product, find_stock, lower, update_stock}
use v_backend.Orders.Data.{OrderLine, CreateOrderData, CreateOrderBillingData, OversoldItem}

abbrev pub product_ids : List OrderLine → List ℕ
product_ids lines = map (λ (it : OrderLine). it.product_id) lines

-- Every product that the order names belongs to its seller.
unfoldable pub owned_count : ℕ → List ℕ → List Product → ℕ
owned_count seller_id ids products =
    length (where_rows (λ (p : Product). includes ids p.id && p.seller_id == seller_id) products)

unfoldable pub check_ownership : ℕ → List OrderLine → List Product → Result (Unit {0})
unfolding owned_count
check_ownership seller_id [] products = ok tt
check_ownership seller_id (it ∷ its) products =
    let unique_ids = distinct (product_ids (it ∷ its)) in
    throw_if (not (owned_count seller_id unique_ids products == length unique_ids)) not_found

-- `runningAvailable`, newest entry first.
abbrev pub Running : Type 0
Running = List (ℕ × ℤ)

unfoldable pub running_get : ℕ → Running → Option ℤ
running_get p [] = none
running_get p ((k, v) ∷ m) = if k == p then some v else running_get p m

-- What earlier lines have left of a product, or its stock less the reservations.
unfoldable pub available_of : Running → StoreStock → ℕ → ℤ
unfolding running_get
available_of running s p = elim (running_get p running) [
  | none ↦ s.quantity -ℤ s.reserved_quantity
  | some a ↦ a
]

-- A product that is short is sold only if it is flagged for overselling.
unfoldable pub oversell : Option Product → OrderLine → ℤ → Result OversoldItem
oversell none it available = err bad_request
oversell (some product) it available =
    if product.allow_oversell
    then ok (record {
      product_id = it.product_id;
      product_name = product.name;
      available = available;
      requested = it.quantity;
    })
    else err bad_request

-- One round of the validation loop: the running stock, the units owed, and what was oversold. The
-- line is short in the second branch, so the subtraction is exact.
unfoldable pub check_line :
    List Product → List StoreStock → Running → OrderLine → Result (Running × ℕ × List OversoldItem)
unfolding available_of oversell find_stock find_product
check_line products stocks running it = elim (find_stock it.product_id stocks) [
  | none ↦ ok (running, 0, [])
  | some s ↦
      let available = available_of running s it.product_id in
      let running' = (it.product_id, available -ℤ pos it.quantity) ∷ running in
      if ltb_ℤ available (pos it.quantity)
      then (do
        entry ← oversell (find_product it.product_id products) it available
        ok (running', it.quantity - pos_part available, entry ∷ []))
      else ok (running', 0, [])
]

-- `owedByIndex` and `oversold`.
unfoldable pub check_lines :
    List Product → List StoreStock → Running → List OrderLine → Result (List ℕ × List OversoldItem)
check_lines products stocks running [] = ok ([], [])
check_lines products stocks running (it ∷ its) = do
  line ← check_line products stocks running it
  rest ← check_lines products stocks line.0 its
  ok (line.1 ∷ rest.0, line.2 ++ rest.1)

-- The nested `create` of the items gives them ascending ids.
unfoldable pub create_items : ℕ → ℕ → List OrderLine → List OrderItem
create_items order_id next [] = []
create_items order_id next (it ∷ its) =
    record {
      id = next;
      order_id = order_id;
      product_id = it.product_id;
      quantity = it.quantity;
      unit_price = it.unit_price;
      discount = it.discount;
      total = it.total;
    }
    ∷ create_items order_id (suc next) its

-- `sort((a, b) => a.id - b.id)`
unfoldable pub insert_item : OrderItem → List OrderItem → List OrderItem
insert_item x [] = x ∷ []
insert_item x (y ∷ ys) =
    let rest = insert_item x ys in if leb x.id y.id then x ∷ y ∷ ys else y ∷ rest

unfoldable pub sort_items : List OrderItem → List OrderItem
sort_items [] = []
sort_items (x ∷ xs) = insert_item x (sort_items xs)

-- One backorder for each line that owes units.
unfoldable pub add_backorder : ℕ → ℕ → ℕ → ℕ → OrderItem → OrderLine → Db → Db
add_backorder now seller_id order_id zero created it db = db
add_backorder now seller_id order_id (suc owed) created it db = record db {
  next_backorder = suc db.next_backorder;
  backorders =
      db.backorders
      ++ record {
        id = db.next_backorder;
        seller_id = seller_id;
        order_id = order_id;
        order_item_id = created.id;
        product_id = it.product_id;
        quantity = suc owed;
        fulfilled_quantity = 0;
        status = BackorderStatus.pending;
        created_at = now;
        fulfilled_at = none;
      }
        ∷ [];
}

unfoldable pub record_backorders : ℕ → ℕ → ℕ → List ℕ → List OrderItem → List OrderLine → Db → Db
record_backorders now seller_id order_id [] created its db = db
record_backorders now seller_id order_id (owed ∷ more) [] its db = db
record_backorders now seller_id order_id (owed ∷ more) (c ∷ created) [] db = db
record_backorders now seller_id order_id (owed ∷ more) (c ∷ created) (it ∷ its) db =
    record_backorders now seller_id order_id more created its
      (add_backorder now seller_id order_id owed c it db)

-- The stock of a line is decremented, and the movement recorded, only where there is a stock row.
unfoldable pub sell_line : ℕ → ℕ → ℕ → Db → Db
sell_line order_id product_id quantity db = elim (find_stock product_id db.stocks) [
  | none ↦ db
  | some s ↦ record db {
    stocks = update_stock product_id (lower quantity) db.stocks;
    movements =
        db.movements
        ++ record {
          movement_type = outgoing;
          reference_type = sale;
          reference_id = order_id;
          product_id = product_id;
          quantity = quantity;
        }
          ∷ [];
  }
]

unfoldable pub sell_lines : ℕ → List OrderLine → Db → Db
sell_lines order_id [] db = db
sell_lines order_id (it ∷ its) db =
    sell_lines order_id its (sell_line order_id it.product_id it.quantity db)

-- `order.create`: order numbers are unique for each seller.
unfoldable pub insert_order : ℕ → CreateOrderData → Db → Result (Db × Order)
insert_order now d db =
    let order : Order = record {
      id = db.next_order;
      seller_id = d.seller_id;
      customer_id = d.customer_id;
      order_number = d.order_number;
      notes = d.notes;
      status = OrderStatus.pending;
      subtotal = d.subtotal;
      discount = d.discount;
      total = d.total;
      created_at = now;
    } in
    let taken =
      any_row (λ (o : Order). o.seller_id == d.seller_id && text_eq o.order_number d.order_number)
        db.orders in
    if taken
    then err unique_violation
    else ok (
      record db {
        orders = db.orders ++ order ∷ [];
        next_order = suc db.next_order;
        order_items = db.order_items ++ create_items db.next_order db.next_item d.items;
        next_item = db.next_item + length d.items;
      },
      order,
    )

-- `billing.create`: billing numbers are unique in the whole table.
unfoldable pub insert_billing : ℕ → CreateOrderBillingData → Db → Result Db
insert_billing order_id b db =
    let taken = any_row (λ (x : Billing). text_eq x.billing_number b.billing_number) db.billings in
    if taken
    then err unique_violation
    else ok (record db {
      next_billing = suc db.next_billing;
      billings =
          db.billings
          ++ record {
            id = db.next_billing;
            order_id = order_id;
            billing_number = b.billing_number;
            status = b.status;
            total_amount = b.total_amount;
            paid_amount = b.paid_amount;
            payment_method = b.payment_method;
            payment_status = b.payment_status;
            due_date = b.due_date;
            payment_date = none;
            notes = none;
          }
            ∷ [];
    })

unfoldable pub insert_charge : ℕ → Option CreateOrderBillingData → Db → Result Db
unfolding insert_billing
insert_charge order_id none db = ok db
insert_charge order_id (some b) db = insert_billing order_id b db

unfoldable pub create : ℕ → CreateOrderData → Db → Result (Db × Order × List OversoldItem)
create now d db = do
  check_ownership d.seller_id d.items db.products
  checked ← check_lines db.products db.stocks [] d.items
  inserted ← insert_order now d db
  let order = inserted.1
  let created = sort_items (create_items order.id db.next_item d.items)
  let owing = record_backorders now d.seller_id order.id checked.0 created d.items inserted.0
  charged ← insert_charge order.id d.billing (sell_lines order.id d.items owing)
  ok (charged, order, checked.1)
