-- ===== src/Db/Stock.antt =====
-- Reads and writes of the stock rows, and the units that are owed to customers.
use v_backend.Base.{
  ℕ, ◌-◌, ◌≡◌, Bool, true, false, ◌&&◌, List, Option, none, some, ◌==◌, if◌then◌else◌, find_row,
  update_rows, find-update_rows, sum_by, pos, pos_part, ◌-ℤ◌, ◌+ℤ◌,
}
use mathlib.Core.Option
use v_backend.Db.Rows.{Product, StoreStock, Backorder, BackorderStatus}

-- `product.findUnique({ where: { id } })`
unfoldable pub find_product : ℕ → List Product → Option Product
find_product p = find_row (λ x. x.id == p)

-- `store_stock.findUnique({ where: { product_id } })`
unfoldable pub find_stock : ℕ → List StoreStock → Option StoreStock
find_stock p = find_row (λ s. s.product_id == p)

-- `quantity: { decrement: n }` and `{ increment: n }`
abbrev pub lower : ℕ → StoreStock → StoreStock
lower n s = record s { quantity = s.quantity -ℤ pos n }

abbrev pub raise : ℕ → StoreStock → StoreStock
raise n s = record s { quantity = s.quantity +ℤ pos n }

-- `store_stock.update({ where: { product_id }, data })`
unfoldable pub update_stock : ℕ → (StoreStock → StoreStock) → List StoreStock → List StoreStock
update_stock p f = update_rows (λ s. s.product_id == p) f

pub find_stock-update_stock :
    (k j : ℕ) (f : StoreStock → StoreStock) (xs : List StoreStock)
    → ((s : StoreStock) → (f s).product_id ≡ s.product_id)
    → find_stock j (update_stock k f xs)
      ≡ (if k == j then Option.map f (find_stock j xs) else find_stock j xs)
unfolding find_stock update_stock
find_stock-update_stock k j f xs h = find-update_rows (λ s. s.product_id) k j f xs h

unfoldable pub is_pending : BackorderStatus → Bool
is_pending BackorderStatus.pending = true
is_pending BackorderStatus.fulfilled = false
is_pending BackorderStatus.canceled = false

-- The units of product p that a row still owes: none unless it is pending.
unfoldable pub remaining_of : ℕ → Backorder → ℕ
unfolding is_pending
remaining_of p b =
    if is_pending b.status && b.product_id == p then b.quantity - b.fulfilled_quantity else 0

-- All the units of product p that the pending backorders owe.
unfoldable pub outstanding : ℕ → List Backorder → ℕ
unfolding remaining_of sum_by
outstanding p = sum_by (remaining_of p)

-- `Math.max(reserved - quantity, 0)`: the units of p that are sold and not on hand.
unfoldable pub deficit_of : Option StoreStock → ℕ
deficit_of none = 0
deficit_of (some s) = pos_part (s.reserved_quantity -ℤ s.quantity)
