-- ===== src/Orders/Change/Restore.antt =====
-- What giving the stock of an order back does to the stock and to the backorders.
use mathlib.Core.Option
use v_backend.Base.{
  ℕ, ◌+◌, ◌≡◌, refl, ◌∙◌, sym, List, [], ◌∷◌, Option, none, some, arith, ◌==◌, if◌then◌else◌,
  Option-cases, Bool-cases, inl, inr, sum_by, ℤ, pos, ◌+ℤ◌, int_laws,
}
use v_backend.Db.{Db}
use v_backend.Db.Rows.{StoreStock, OrderItem}
use v_backend.Db.Stock.{find_stock, raise, find_stock-update_stock}
use v_backend.Orders.Change.{
  restore_item, restore_items, restore_stock, items_of, cancel_backorders,
}

-- The units of product p that the items hold.
unfoldable pub held_of : ℕ → OrderItem → ℕ
held_of p it = if it.product_id == p then it.quantity else 0

unfoldable pub held : ℕ → List OrderItem → ℕ
unfolding held_of sum_by
held p = sum_by (held_of p)

add_zero : (a : ℤ) → a +ℤ pos 0 ≡ a
add_zero a = omega int_laws

add_add : (a : ℤ) (m n : ℕ) → a +ℤ pos m +ℤ pos n ≡ a +ℤ pos (m + n)
add_add a m n = omega int_laws

raise-zero : (o : Option StoreStock) → Option.map (raise 0) o ≡ o
raise-zero none = refl
raise-zero (some s) = rw (add_zero s.quantity)

pub raise-raise :
    (m n : ℕ) (o : Option StoreStock)
    → Option.map (raise n) (Option.map (raise m) o) ≡ Option.map (raise (m + n)) o
raise-raise m n none = refl
raise-raise m n (some s) = rw (add_add s.quantity m n)

find_stock-restore_item :
    (order_id p : ℕ) (it : OrderItem) (db : Db)
    → find_stock p (restore_item order_id it db).stocks
      ≡ Option.map (raise (held_of p it)) (find_stock p db.stocks)
unfolding restore_item held_of
find_stock-restore_item order_id p it db = elim (Bool-cases (it.product_id == p)) [
  | inl same ↦ elim (Option-cases (find_stock it.product_id db.stocks)) [
    | inl missing ↦ ground (arith, raise-zero (find_stock p db.stocks))
    | inr (s, found) ↦
        ground
          (arith, find_stock-update_stock it.product_id p (raise it.quantity) db.stocks (λ s. refl))
  ]
  | inr other ↦ ground (
    arith,
    raise-zero (find_stock p db.stocks),
    find_stock-update_stock it.product_id p (raise it.quantity) db.stocks (λ s. refl),
  )
]

find_stock-restore_items :
    (order_id p : ℕ) (its : List OrderItem) (db : Db)
    → find_stock p (restore_items order_id its db).stocks
      ≡ Option.map (raise (held p its)) (find_stock p db.stocks)
unfolding restore_items held
find_stock-restore_items order_id p [] db = sym (raise-zero _)
find_stock-restore_items order_id p (it ∷ its) db =
    find_stock-restore_items order_id p its (restore_item order_id it db)
    ∙ rw (find_stock-restore_item order_id p it db) (raise-raise (held_of p it) (held p its) _)

-- The stock of every product rises by what the items of the order hold of it.
pub find_stock-restore_stock :
    (order_id p : ℕ) (db : Db)
    → find_stock p (restore_stock order_id db).stocks
      ≡ Option.map (raise (held p (items_of order_id db.order_items))) (find_stock p db.stocks)
unfolding restore_stock
find_stock-restore_stock order_id p db = find_stock-restore_items order_id p _ _

-- Restoring writes stock rows, movements and backorders only.
pub record SameOrders (a b : Db) : Type 0 where
  pub order_items_eq : b.order_items ≡ a.order_items
  pub orders_eq : b.orders ≡ a.orders
  pub backorders_eq : b.backorders ≡ a.backorders
  pub billings_eq : b.billings ≡ a.billings

restore_item-SameOrders :
    (order_id : ℕ) (it : OrderItem) (db : Db) → SameOrders db (restore_item order_id it db)
unfolding restore_item
restore_item-SameOrders order_id it db = ground arith

pub restore_items-SameOrders :
    (order_id : ℕ) (its : List OrderItem) (db : Db) → SameOrders db (restore_items order_id its db)
unfolding restore_items
restore_items-SameOrders order_id [] db = ground arith
restore_items-SameOrders order_id (it ∷ its) db = ground (
  arith,
  restore_item-SameOrders order_id it db,
  restore_items-SameOrders order_id its (restore_item order_id it db),
)

pub restore_stock-SameOrders :
    (order_id : ℕ) (db : Db)
    → SameOrders
        (record db { backorders = cancel_backorders order_id db.backorders })
        (restore_stock order_id db)
unfolding restore_stock
restore_stock-SameOrders order_id db = restore_items-SameOrders order_id _ _
