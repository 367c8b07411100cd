-- ===== src/Orders/Cancel.antt =====
-- Canceling and deleting orders: what comes back into stock, and how often.
use mathlib.Core.Option
use v_backend.Base.{
  ℕ, suc, ◌+◌, ◌≡◌, refl, ◌∙◌, sym, ap, List, [], ◌∷◌, ◌++◌, Option, none, some, ok, >>=-eq-ok,
  ok-injective, Result-cases, find_row, update_rows, arith, All, ◌==◌, ==-refl, if◌then◌else◌, not,
  ◌&&◌, find-update_rows, Bool, true, false, inl, inr, ℤ, pos, ◌+ℤ◌, ◌-ℤ◌, int_laws,
  where_rows-append, where_rows-none, where_rows-All,
}
use v_backend.Db.{Db}
use v_backend.Db.Rows.{StoreStock, Order, OrderItem, OrderStatus, Backorder}
use v_backend.Db.Stock.{find_stock, lower, raise, outstanding}
use v_backend.Db.Tenant.{TenantContext, may_access}
use v_backend.Orders.Data.{CreateOrderData, OversoldItem, OrderLine}
use v_backend.Orders.Create.{create, create_items}
use v_backend.Orders.Create.Owed.{ordered}
use v_backend.Orders.Create.Facts.{create-IsCreated}
use v_backend.Orders.Change.{
  BillingUpdate, update_status, require_order_in_tenant, is_canceled, restore_stock, set_status,
  find_order, items_of, cancel_backorders,
}
use v_backend.Orders.Change.Restore.{
  held, raise-raise, find_stock-restore_stock, restore_stock-SameOrders,
}

-- The items that an order stores hold what its lines asked for.
held-create_items :
    (p order_id next : ℕ) (its : List OrderLine)
    → held p (create_items order_id next its) ≡ ordered p its
unfolding held ordered create_items
held-create_items p order_id next [] = refl
held-create_items p order_id next (it ∷ its) =
    ground (arith, held-create_items p order_id (suc next) its)

create_items-order_id :
    (order_id next : ℕ) (its : List OrderLine)
    → All (λ (it : OrderItem). (it.order_id == order_id) ≡ true) (create_items order_id next its)
unfolding create_items
create_items-order_id order_id next [] = tt
create_items-order_id order_id next (it ∷ its) =
    (==-refl order_id, create_items-order_id order_id (suc next) its)

-- The guard passes only an order of the table that the caller may touch.
pub require_order_in_tenant-ok :
    (ctx : TenantContext) (id : ℕ) (orders : List Order) {o : Order}
    → require_order_in_tenant ctx id orders ≡ ok o
    → (find_order id orders ≡ some o) × (may_access ctx o.seller_id ≡ true)
unfolding require_order_in_tenant
require_order_in_tenant-ok ctx id orders e = ground arith

-- The state after a status change or a deletion has given back the stock, or not.
abbrev restored : Bool → ℕ → Db → Db
restored moves id db = if moves then restore_stock id db else db

restored-orders :
    (moves : Bool) (id : ℕ) (db : Db)
    → ((restored moves id db).order_items ≡ db.order_items)
      × ((restored moves id db).orders ≡ db.orders)
restored-orders true id db =
    let kept = restore_stock-SameOrders id db in (kept.order_items_eq, kept.orders_eq)
restored-orders false id db = (refl, refl)

abbrev moves_in : OrderStatus → Order → Bool
moves_in status o = is_canceled status && not (is_canceled o.status)

-- A status change that is accepted.
update_status-ok :
    (ctx : TenantContext) (id : ℕ) (status : OrderStatus) (u : Option BillingUpdate) (db : Db)
    {db' : Db}
    → update_status ctx id status u db ≡ ok db'
    → (o : Order) × (find_order id db.orders ≡ some o)
      × (db'.stocks ≡ (restored (moves_in status o) id db).stocks)
      × (db'.backorders ≡ (restored (moves_in status o) id db).backorders)
      × (db'.order_items ≡ db.order_items)
      × (db'.orders ≡ set_status id status db.orders)
unfolding update_status
update_status-ok ctx id status u db {db'} e =
    let found = >>=-eq-ok (require_order_in_tenant ctx id db.orders) _ e in
    let kept = restored-orders (moves_in status found.0) id db in
    let same = ok-injective found.2 in
    (
      found.0,
      (require_order_in_tenant-ok ctx id db.orders found.1).0,
      ap (λ x. x.stocks) (sym same),
      ap (λ x. x.backorders) (sym same),
      ap (λ x. x.order_items) (sym same) ∙ kept.0,
      ap (λ x. x.orders) (sym same) ∙ ap (set_status id status) kept.1,
    )

update_status-total :
    (ctx : TenantContext) (id : ℕ) (status : OrderStatus) (u : Option BillingUpdate) (db : Db)
    {o : Order}
    → find_order id db.orders ≡ some o
    → may_access ctx o.seller_id ≡ true
    → (db' : Db) × (update_status ctx id status u db ≡ ok db')
unfolding update_status require_order_in_tenant
update_status-total ctx id status u db found access =
    elim (Result-cases (update_status ctx id status u db)) [
      | inl done ↦ done
      | inr (e, refused) ↦ cc (rw (found, access) at refused)
    ]

-- No row refers to the order that is created next.
pub record IsFresh (db : Db) : Type 0 where
  pub orders_new : All (λ (o : Order). (o.id == db.next_order) ≡ false) db.orders
  pub items_new : All (λ (it : OrderItem). (it.order_id == db.next_order) ≡ false) db.order_items
  pub backorders_new : All (λ (b : Backorder). (b.order_id == db.next_order) ≡ false) db.backorders

find_order-append :
    (id : ℕ) (orders : List Order) (o : Order)
    → All (λ (x : Order). (x.id == id) ≡ false) orders
    → o.id ≡ id
    → find_order id (orders ++ o ∷ []) ≡ some o
unfolding find_order find_row
find_order-append id [] o h e = ground arith
find_order-append id (x ∷ xs) o h e = ground (arith, find_order-append id xs o h.1 e)

items_of-created :
    (id next : ℕ) (items : List OrderItem) (its : List OrderLine)
    → All (λ (it : OrderItem). (it.order_id == id) ≡ false) items
    → items_of id (items ++ create_items id next its) ≡ create_items id next its
unfolding items_of
items_of-created id next items its fresh =
    where_rows-append _ items _
    ∙ rw (where_rows-none _ items fresh) (where_rows-All _ _ (create_items-order_id id next its))

cancel_backorders-fresh :
    (id : ℕ) (bs : List Backorder)
    → All (λ (b : Backorder). (b.order_id == id) ≡ false) bs
    → cancel_backorders id bs ≡ bs
unfolding cancel_backorders update_rows
cancel_backorders-fresh id [] h = refl
cancel_backorders-fresh id (b ∷ bs) h = ground (arith, cancel_backorders-fresh id bs h.1)

add_back : (a : ℤ) (n : ℕ) → a -ℤ pos n +ℤ pos n ≡ a
add_back a n = omega int_laws

raise-lower : (n : ℕ) (o : Option StoreStock) → Option.map (raise n) (Option.map (lower n) o) ≡ o
raise-lower n none = refl
raise-lower n (some s) = rw (add_back s.quantity n)

abbrev canceled : OrderStatus
canceled = OrderStatus.canceled

-- Where no row refers yet to the id that the next order gets, an order that has just been created
-- can be canceled by whoever may see it, and that gives every product the stock, and the units
-- owed, that it had before the order.
pub create_cancel_roundtrip :
    (ctx : TenantContext) (now : ℕ) (d : CreateOrderData) (u : Option BillingUpdate) (db : Db)
    (p : ℕ) {r : Db × Order × List OversoldItem}
    → IsFresh db
    → create now d db ≡ ok r
    → may_access ctx d.seller_id ≡ true
    → (db' : Db) × (update_status ctx (r.1).id canceled u r.0 ≡ ok db')
      × (find_stock p db'.stocks ≡ find_stock p db.stocks)
      × (outstanding p db'.backorders ≡ outstanding p db.backorders)
unfolding is_canceled
create_cancel_roundtrip ctx now d u db p {r} fresh e access =
    let f = create-IsCreated now d db e in
    let stored : find_order (r.1).id (r.0).orders ≡ some r.1 =
      ap (λ x. find_order x (r.0).orders) f.id_eq
      ∙ ap (find_order db.next_order) f.orders_eq
      ∙ find_order-append db.next_order db.orders r.1 fresh.orders_new f.id_eq in
    let (db', done) =
      update_status-total ctx (r.1).id canceled u r.0 stored
        (ap (may_access ctx) f.seller_eq ∙ access) in
    let (o, found, stocks_eq, backorders_eq, items_eq, orders_eq) =
      update_status-ok ctx (r.1).id canceled u r.0 done in
    let moved : moves_in canceled o ≡ true = ground (arith, found, stored, f.status_eq) in
    let held_eq : held p (items_of (r.1).id (r.0).order_items) ≡ ordered p d.items =
      ap (λ x. held p (items_of x (r.0).order_items)) f.id_eq
      ∙ ap (λ x. held p (items_of db.next_order x)) f.items_eq
      ∙ ap (held p)
          (items_of-created db.next_order db.next_item db.order_items d.items fresh.items_new)
      ∙ held-create_items p db.next_order db.next_item d.items in
    (
      db',
      done,
      ap (find_stock p) (stocks_eq ∙ ap (λ b. (restored b (r.1).id r.0).stocks) moved)
          ∙ find_stock-restore_stock (r.1).id p r.0
          ∙ rw (held_eq, f.stock_eq p) (raise-lower (ordered p d.items) (find_stock p db.stocks)),
      ap (outstanding p) (
            backorders_eq
            ∙ ap (λ b. (restored b (r.1).id r.0).backorders) moved
            ∙ (restore_stock-SameOrders (r.1).id r.0).backorders_eq)
          ∙ f.canceled_eq p
          ∙ ap (λ x. outstanding p (cancel_backorders x db.backorders)) f.id_eq
          ∙ ap (outstanding p)
              (cancel_backorders-fresh db.next_order db.backorders fresh.backorders_new),
    )

is_canceled-set_status :
    (id : ℕ) (status : OrderStatus) (orders : List Order) {o : Order}
    → find_order id orders ≡ some o
    → find_order id (set_status id status orders) ≡ some (record o { status = status })
unfolding find_order set_status
is_canceled-set_status id status orders found =
    find-update_rows (λ (x : Order). x.id) id id _ orders (λ x. refl) ∙ rw (==-refl id, found)

-- Canceling an order that has been canceled, with nothing in between, changes neither stock nor
-- backorders.
pub update_status-cancel_again :
    (ctx : TenantContext) (id : ℕ) (u v : Option BillingUpdate) (db : Db) {db1 db2 : Db}
    → update_status ctx id canceled u db ≡ ok db1
    → update_status ctx id canceled v db1 ≡ ok db2
    → (db2.stocks ≡ db1.stocks) × (db2.backorders ≡ db1.backorders)
unfolding is_canceled
update_status-cancel_again ctx id u v db {db1} {db2} e1 e2 =
    let (o, found, _, _, _, orders_eq) = update_status-ok ctx id canceled u db e1 in
    let (o', found', stocks_eq, backorders_eq, _, _) = update_status-ok ctx id canceled v db1 e2 in
    let now : find_order id db1.orders ≡ some (record o { status = canceled }) =
      ap (find_order id) orders_eq ∙ is_canceled-set_status id canceled db.orders found in
    let still : moves_in canceled o' ≡ false = ground (arith, found', now) in
    (
      stocks_eq ∙ ap (λ b. (restored b id db1).stocks) still,
      backorders_eq ∙ ap (λ b. (restored b id db1).backorders) still,
    )

-- Where an order that is not canceled is canceled, then set to another status, then canceled
-- again, every tracked product ends with twice the items of the order given back: setting the
-- other status takes nothing out of stock.
pub update_status_reopened :
    (ctx : TenantContext) (id p : ℕ) (status : OrderStatus) (u v w : Option BillingUpdate) (db : Db)
    {db1 db2 db3 : Db} {o : Order}
    → find_order id db.orders ≡ some o
    → is_canceled o.status ≡ false
    → is_canceled status ≡ false
    → update_status ctx id canceled u db ≡ ok db1
    → update_status ctx id status v db1 ≡ ok db2
    → update_status ctx id canceled w db2 ≡ ok db3
    → let n = held p (items_of id db.order_items) in
      find_stock p db3.stocks ≡ Option.map (raise (n + n)) (find_stock p db.stocks)
update_status_reopened ctx id p status u v w db {db1} {db2} {db3} {o} found live reopening e1 e2
      e3 =
    let (o1, found1, stocks1, _, items1, orders1) = update_status-ok ctx id canceled u db e1 in
    let (o2, found2, stocks2, _, items2, orders2) = update_status-ok ctx id status v db1 e2 in
    let (o3, found3, stocks3, _, items3, orders3) = update_status-ok ctx id canceled w db2 e3 in
    let first : moves_in canceled o1 ≡ true = unfold is_canceled in ground (arith, found1, found) in
    let middle : moves_in status o2 ≡ false = ground (arith) in
    let reopened : find_order id db2.orders ≡ some (record o2 { status = status }) =
      ap (find_order id) orders2 ∙ is_canceled-set_status id status db1.orders found2 in
    let last : moves_in canceled o3 ≡ true =
      unfold is_canceled in ground (arith, found3, reopened) in
    ap (find_stock p) (stocks3 ∙ ap (λ b. (restored b id db2).stocks) last)
    ∙ find_stock-restore_stock id p db2
    ∙ rw (items2, items1, stocks2, middle, stocks1, first, find_stock-restore_stock id p db)
        (raise-raise _ _ _)
