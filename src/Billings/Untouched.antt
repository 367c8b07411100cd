-- ===== src/Billings/Untouched.antt =====
-- The writes of the order repository that leave the table of charges alone.
use v_backend.Base.{
  ℕ, zero, suc, ◌≡◌, ◌∙◌, refl, ap, Bool, true, false, inl, inr, List, [], ◌∷◌, ok, arith,
  if◌then◌else◌, Option-cases,
}
use v_backend.Db.{Db}
use v_backend.Db.Rows.{Billing, Order, OrderItem}
use v_backend.Db.Stock.{find_stock}
use v_backend.Billings.Consistency.{IsSound}
use v_backend.Orders.Data.{OrderLine, CreateOrderData}
use v_backend.Orders.Create.{add_backorder, record_backorders, sell_line, sell_lines, insert_order}
use v_backend.Orders.Change.{restore_item, restore_items, restore_stock, items_of}

-- The part of the database that holds the charges.
abbrev pub charges : Db → List Billing × ℕ
charges db = (db.billings, db.next_billing)

pub IsSound-charges : (a b : Db) → charges b ≡ charges a → IsSound a → IsSound b
IsSound-charges a b e s =
    let rows : b.billings ≡ a.billings = ap (λ (x : List Billing × ℕ). x.0) e in
    let next : b.next_billing ≡ a.next_billing = ap (λ (x : List Billing × ℕ). x.1) e in
    record {
      consistent = rw rows s.consistent;
      unique = rw rows s.unique;
      bounded = rw (rows, next) s.bounded;
    }

pub add_backorder-charges :
    (now seller_id order_id owed : ℕ) (c : OrderItem) (it : OrderLine) (db : Db)
    → charges (add_backorder now seller_id order_id owed c it db) ≡ charges db
unfolding add_backorder
add_backorder-charges now seller_id order_id zero c it db = refl
add_backorder-charges now seller_id order_id (suc owed) c it db = refl

pub record_backorders-charges :
    (now seller_id order_id : ℕ) (os : List ℕ) (created : List OrderItem) (its : List OrderLine)
    (db : Db)
    → charges (record_backorders now seller_id order_id os created its db) ≡ charges db
unfolding record_backorders
record_backorders-charges now seller_id order_id [] created its db = refl
record_backorders-charges now seller_id order_id (o ∷ os) [] its db = refl
record_backorders-charges now seller_id order_id (o ∷ os) (c ∷ created) [] db = refl
record_backorders-charges now seller_id order_id (o ∷ os) (c ∷ created) (it ∷ its) db =
    record_backorders-charges now seller_id order_id os created its _
    ∙ add_backorder-charges now seller_id order_id o c it db

pub sell_line-charges :
    (order_id product_id quantity : ℕ) (db : Db)
    → charges (sell_line order_id product_id quantity db) ≡ charges db
unfolding sell_line
sell_line-charges order_id product_id quantity db =
    elim (Option-cases (find_stock product_id db.stocks)) [
      | inl untracked ↦ rw (untracked, sell_line) refl
      | inr (s, tracked) ↦ rw (tracked, sell_line) refl
    ]

pub sell_lines-charges :
    (order_id : ℕ) (its : List OrderLine) (db : Db)
    → charges (sell_lines order_id its db) ≡ charges db
unfolding sell_lines
sell_lines-charges order_id [] db = refl
sell_lines-charges order_id (it ∷ its) db =
    sell_lines-charges order_id its _ ∙ sell_line-charges order_id it.product_id it.quantity db

pub insert_order-charges :
    (now : ℕ) (d : CreateOrderData) (db : Db) {r : Db × Order}
    → insert_order now d db ≡ ok r
    → charges r.0 ≡ charges db
unfolding insert_order
insert_order-charges now d db e = ground arith

restore_items-charges :
    (order_id : ℕ) (its : List OrderItem) (db : Db)
    → charges (restore_items order_id its db) ≡ charges db
unfolding restore_items restore_item
restore_items-charges order_id [] db = refl
restore_items-charges order_id (it ∷ its) db =
    restore_items-charges order_id its (restore_item order_id it db)
    ∙ elim (Option-cases (find_stock it.product_id db.stocks)) [
      | inl untracked ↦ rw (untracked, restore_item) refl
      | inr (s, tracked) ↦ rw (tracked, restore_item) refl
    ]

pub restore_stock-charges :
    (order_id : ℕ) (moves : Bool) (db : Db)
    → charges (if moves then restore_stock order_id db else db) ≡ charges db
unfolding restore_stock
restore_stock-charges order_id false db = refl
restore_stock-charges order_id true db =
    restore_items-charges order_id (items_of order_id db.order_items) _
