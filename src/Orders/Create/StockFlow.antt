-- ===== src/Orders/Create/StockFlow.antt =====
-- What the writes of an order do to the stock, to the backorders and to the other tables.
use mathlib.Core.Option
use v_backend.Base.{
  ℕ, zero, suc, ◌+◌, ◌≤◌, ◌≡◌, refl, ◌∙◌, List, [], ◌∷◌, ◌++◌, Option, none, some, arith, ◌==◌,
  if◌then◌else◌, ==-refl, update_rows, update_rows-append, sum_by-append, ℤ, pos, ◌-ℤ◌, int_laws,
  Option-cases, Bool-cases, inl, inr, sym,
}
use v_backend.Db.{Db}
use v_backend.Db.Rows.{OrderItem, StoreStock, Backorder}
use v_backend.Db.Stock.{find_stock, lower, find_stock-update_stock, outstanding, remaining_of}
use v_backend.Orders.Data.{OrderLine}
use v_backend.Orders.Change.{cancel_backorders}
use v_backend.Orders.Create.{
  create_items, insert_item, sort_items, add_backorder, record_backorders, sell_line, sell_lines,
}
use v_backend.Orders.Create.Owed.{ordered, owed_for}

sub_zero : (a : ℤ) → a -ℤ pos 0 ≡ a
sub_zero a = omega int_laws

sub_sub : (a : ℤ) (m n : ℕ) → a -ℤ pos m -ℤ pos n ≡ a -ℤ pos (m + n)
sub_sub a m n = omega int_laws

lower-zero : (o : Option StoreStock) → Option.map (lower 0) o ≡ o
lower-zero none = refl
lower-zero (some s) = rw (sub_zero s.quantity)

lower-lower :
    (m n : ℕ) (o : Option StoreStock)
    → Option.map (lower n) (Option.map (lower m) o) ≡ Option.map (lower (m + n)) o
lower-lower m n none = refl
lower-lower m n (some s) = rw (sub_sub s.quantity m n)

find_stock-sell_line :
    (order_id k q p : ℕ) (db : Db)
    → find_stock p (sell_line order_id k q db).stocks
      ≡ Option.map (lower (if k == p then q else 0)) (find_stock p db.stocks)
unfolding sell_line
find_stock-sell_line order_id k q p db = elim (Bool-cases (k == p)) [
  | inl same ↦ elim (Option-cases (find_stock k db.stocks)) [
    | inl missing ↦ ground (arith, lower-zero (find_stock p db.stocks))
    | inr (s, found) ↦ ground (arith, find_stock-update_stock k p (lower q) db.stocks (λ s. refl))
  ]
  | inr other ↦ ground (
    arith,
    lower-zero (find_stock p db.stocks),
    find_stock-update_stock k p (lower q) db.stocks (λ s. refl),
  )
]

-- The stock of every product falls by what the lines ask for; what has no stock row gets none.
pub find_stock-sell_lines :
    (order_id p : ℕ) (its : List OrderLine) (db : Db)
    → find_stock p (sell_lines order_id its db).stocks
      ≡ Option.map (lower (ordered p its)) (find_stock p db.stocks)
unfolding sell_lines ordered
find_stock-sell_lines order_id p [] db = sym (lower-zero _)
find_stock-sell_lines order_id p (it ∷ its) db =
    find_stock-sell_lines order_id p its (sell_line order_id it.product_id it.quantity db)
    ∙ rw (find_stock-sell_line order_id it.product_id it.quantity p db)
        (lower-lower (if it.product_id == p then it.quantity else 0) (ordered p its) _)

insert_item-create_items :
    (x : OrderItem) (order_id next : ℕ) (its : List OrderLine)
    → x.id ≤ next
    → insert_item x (create_items order_id next its) ≡ x ∷ create_items order_id next its
unfolding insert_item create_items
insert_item-create_items x order_id next [] h = refl
insert_item-create_items x order_id next (it ∷ its) h = ground arith

-- The items come in the order of their ids already.
pub sort_items-create_items :
    (order_id next : ℕ) (its : List OrderLine)
    → sort_items (create_items order_id next its) ≡ create_items order_id next its
unfolding sort_items create_items
sort_items-create_items order_id next [] = refl
sort_items-create_items order_id next (it ∷ its) =
    rw (sort_items-create_items order_id (suc next) its)
      (insert_item-create_items _ order_id (suc next) its (omega arith))

outstanding-add_backorder :
    (now seller_id order_id owed p : ℕ) (c : OrderItem) (it : OrderLine) (db : Db)
    → outstanding p (add_backorder now seller_id order_id owed c it db).backorders
      ≡ outstanding p db.backorders + (if it.product_id == p then owed else 0)
unfolding add_backorder outstanding
outstanding-add_backorder now seller_id order_id zero p c it db = ground arith
outstanding-add_backorder now seller_id order_id (suc owed) p c it db =
    sum_by-append (remaining_of p) db.backorders _ ∙ ground arith

-- The backorders grow by what was found owed.
pub outstanding-record_backorders :
    (now seller_id order_id next p : ℕ) (os : List ℕ) (its : List OrderLine) (db : Db)
    → outstanding p
        (record_backorders now seller_id order_id os
          (create_items order_id next its)
          its
          db).backorders
      ≡ outstanding p db.backorders + owed_for p os its
unfolding record_backorders create_items owed_for
outstanding-record_backorders now seller_id order_id next p [] its db = omega arith
outstanding-record_backorders now seller_id order_id next p (o ∷ os) [] db = omega arith
outstanding-record_backorders now seller_id order_id next p (o ∷ os) (it ∷ its) db =
    outstanding-record_backorders now seller_id order_id (suc next) p os its _
    ∙ rw (outstanding-add_backorder now seller_id order_id o p _ it db) (omega arith)

-- The tables that these writes leave alone.
pub record_backorders-stocks :
    (now seller_id order_id : ℕ) (os : List ℕ) (created : List OrderItem) (its : List OrderLine)
    (db : Db)
    → (record_backorders now seller_id order_id os created its db).stocks ≡ db.stocks
unfolding record_backorders add_backorder
record_backorders-stocks now seller_id order_id [] created its db = refl
record_backorders-stocks now seller_id order_id (o ∷ os) [] its db = refl
record_backorders-stocks now seller_id order_id (o ∷ os) (c ∷ created) [] db = refl
record_backorders-stocks now seller_id order_id (zero ∷ os) (c ∷ created) (it ∷ its) db =
    record_backorders-stocks now seller_id order_id os created its db
record_backorders-stocks now seller_id order_id (suc o ∷ os) (c ∷ created) (it ∷ its) db =
    record_backorders-stocks now seller_id order_id os created its _

pub record_backorders-order_items :
    (now seller_id order_id : ℕ) (os : List ℕ) (created : List OrderItem) (its : List OrderLine)
    (db : Db)
    → ((record_backorders now seller_id order_id os created its db).order_items ≡ db.order_items)
      × ((record_backorders now seller_id order_id os created its db).orders ≡ db.orders)
unfolding record_backorders add_backorder
record_backorders-order_items now seller_id order_id [] created its db = (refl, refl)
record_backorders-order_items now seller_id order_id (o ∷ os) [] its db = (refl, refl)
record_backorders-order_items now seller_id order_id (o ∷ os) (c ∷ created) [] db = (refl, refl)
record_backorders-order_items now seller_id order_id (zero ∷ os) (c ∷ created) (it ∷ its) db =
    record_backorders-order_items now seller_id order_id os created its db
record_backorders-order_items now seller_id order_id (suc o ∷ os) (c ∷ created) (it ∷ its) db =
    record_backorders-order_items now seller_id order_id os created its _

-- Selling writes stock rows and movements only.
pub record SameTables (a b : Db) : Type 0 where
  pub backorders_eq : b.backorders ≡ a.backorders
  pub order_items_eq : b.order_items ≡ a.order_items
  pub orders_eq : b.orders ≡ a.orders
  pub products_eq : b.products ≡ a.products
  pub billings_eq : b.billings ≡ a.billings

pub sell_line-SameTables : (order_id k q : ℕ) (db : Db) → SameTables db (sell_line order_id k q db)
unfolding sell_line
sell_line-SameTables order_id k q db = ground arith

pub sell_lines-SameTables :
    (order_id : ℕ) (its : List OrderLine) (db : Db) → SameTables db (sell_lines order_id its db)
unfolding sell_lines
sell_lines-SameTables order_id [] db = record {
  backorders_eq = refl;
  order_items_eq = refl;
  orders_eq = refl;
  products_eq = refl;
  billings_eq = refl;
}
sell_lines-SameTables order_id (it ∷ its) db =
    let first = sell_line-SameTables order_id it.product_id it.quantity db in
    let rest =
      sell_lines-SameTables order_id its (sell_line order_id it.product_id it.quantity db) in
    record {
      backorders_eq = rest.backorders_eq ∙ first.backorders_eq;
      order_items_eq = rest.order_items_eq ∙ first.order_items_eq;
      orders_eq = rest.orders_eq ∙ first.orders_eq;
      products_eq = rest.products_eq ∙ first.products_eq;
      billings_eq = rest.billings_eq ∙ first.billings_eq;
    }

cancel_backorders-append :
    (order_id : ℕ) (xs ys : List Backorder)
    → cancel_backorders order_id (xs ++ ys)
      ≡ cancel_backorders order_id xs ++ cancel_backorders order_id ys
unfolding cancel_backorders
cancel_backorders-append order_id xs ys = update_rows-append _ _ xs ys

outstanding-cancel_added :
    (now seller_id order_id owed p : ℕ) (c : OrderItem) (it : OrderLine) (db : Db)
    → outstanding p
        (cancel_backorders order_id (add_backorder now seller_id order_id owed c it db).backorders)
      ≡ outstanding p (cancel_backorders order_id db.backorders)
unfolding add_backorder
outstanding-cancel_added now seller_id order_id zero p c it db = refl
outstanding-cancel_added now seller_id order_id (suc owed) p c it db =
    rw (cancel_backorders-append order_id db.backorders) (
      unfold outstanding in
      sum_by-append (remaining_of p) (cancel_backorders order_id db.backorders) _
      ∙ unfold cancel_backorders update_rows in ground (arith, ==-refl order_id))

-- Canceling the order drops just the backorders that it added.
pub outstanding-cancel_recorded :
    (now seller_id order_id p : ℕ) (os : List ℕ) (created : List OrderItem) (its : List OrderLine)
    (db : Db)
    → outstanding p (
        cancel_backorders order_id
          (record_backorders now seller_id order_id os created its db).backorders)
      ≡ outstanding p (cancel_backorders order_id db.backorders)
unfolding record_backorders
outstanding-cancel_recorded now seller_id order_id p [] created its db = refl
outstanding-cancel_recorded now seller_id order_id p (o ∷ os) [] its db = refl
outstanding-cancel_recorded now seller_id order_id p (o ∷ os) (c ∷ created) [] db = refl
outstanding-cancel_recorded now seller_id order_id p (o ∷ os) (c ∷ created) (it ∷ its) db =
    outstanding-cancel_recorded now seller_id order_id p os created its _
    ∙ outstanding-cancel_added now seller_id order_id o p c it db
