-- ===== src/Orders/Oversell.antt =====
-- Products that are not flagged for overselling, and the stock that is available.
use v_backend.Base.{
  ℕ, ◌+◌, ◌≡◌, refl, List, [], ◌∷◌, some, ok, arith, ◌==◌, ==_iff, inl, inr, ◌⊎◌, ℤ, pos, ◌-ℤ◌,
  Bool-cases, ◌≤ℤ◌, false,
}
use v_backend.Db.{Db}
use v_backend.Db.Rows.{StoreStock, Order, Product}
use v_backend.Db.Stock.{find_stock, find_product}
use v_backend.Orders.Data.{CreateOrderData, OversoldItem, OrderLine}
use v_backend.Orders.Create.{create, available_of, check_line, check_lines, Running}
use v_backend.Orders.Create.Owed.{ordered, check_lines-cons, check_line_lem}
use v_backend.Orders.Create.Facts.{create-IsCreated}
use v_backend.Orders.Ledger.{available_of-nil}

within_step :
    (a : ℤ) (q n : ℕ)
    → pos q ≤ℤ a
    → (n ≡ 0) ⊎ (pos n ≤ℤ a -ℤ pos q)
    → (q + n ≡ 0) ⊎ (pos (q + n) ≤ℤ a)
unfolding ◌-ℤ◌
within_step a q n h rest = ground arith

module _ (products : List Product) (stocks : List StoreStock) (p : ℕ) {s : StoreStock} {x : Product}
    (tracked : find_stock p stocks ≡ some s) (known : find_product p products ≡ some x)
    (strict : x.allow_oversell ≡ false) where
  check_line-within :
      (running : Running) (it : OrderLine) {line : Running × ℕ × List OversoldItem}
      → check_line products stocks running it ≡ ok line
      → it.product_id ≡ p
      → pos it.quantity ≤ℤ available_of running s p
  unfolding check_line
  check_line-within running it e same = ground arith

  check_lines-within :
      (running : Running) (its : List OrderLine) {r : List ℕ × List OversoldItem}
      → check_lines products stocks running its ≡ ok r
      → (ordered p its ≡ 0) ⊎ (pos (ordered p its) ≤ℤ available_of running s p)
  unfolding ordered
  check_lines-within running [] e = inl refl
  check_lines-within running (it ∷ its) e =
      let (line, rest, e1, e2, same) = check_lines-cons products stocks running it its e in
      let here = check_line_lem products stocks running it p s tracked e1 in
      elim (Bool-cases (it.product_id == p)) [
        | inl mine ↦
            let used : available_of line.0 s p ≡ available_of running s p -ℤ pos it.quantity =
              rw mine at here.0 in
            rw mine (
              within_step (available_of running s p) it.quantity (ordered p its)
                (check_line-within running it e1 ((==_iff it.product_id p).0 mine))
                (rw used at (check_lines-within line.0 its e2)))
        | inr other ↦ ground (arith, here.0, check_lines-within line.0 its e2)
      ]

-- Where an order is created, the lines of a tracked product that is not flagged for overselling ask
-- together for no more than is available, or for nothing.
pub create-within_stock :
    (now : ℕ) (d : CreateOrderData) (db : Db) (p : ℕ) {s : StoreStock} {x : Product}
    {r : Db × Order × List OversoldItem}
    → create now d db ≡ ok r
    → find_stock p db.stocks ≡ some s
    → find_product p db.products ≡ some x
    → x.allow_oversell ≡ false
    → (ordered p d.items ≡ 0) ⊎ (pos (ordered p d.items) ≤ℤ s.quantity -ℤ s.reserved_quantity)
create-within_stock now d db p {s} e tracked known strict = rw (available_of-nil s p) at (
    check_lines-within db.products db.stocks p tracked known strict [] d.items
      (create-IsCreated now d db e).checked)
