-- ===== src/Orders/Ledger.antt =====
-- The books of what is sold and not on hand: for every product the pending backorders owe exactly the
-- deficit of its stock.

use v_backend.Base.{
  ℕ, ◌+◌, ◌-◌, ◌≡◌, refl, ◌∙◌, List, [], ◌∷◌, none, some, ok, arith, Option-cases, inl, inr,
  pos_part, ◌-ℤ◌,
}
use v_backend.Db.{Db}
use v_backend.Db.Rows.{StoreStock, Order, Product}
use v_backend.Db.Stock.{find_stock, lower, outstanding, deficit_of}
use v_backend.Orders.Data.{CreateOrderData, OversoldItem, OrderLine}
use v_backend.Orders.Create.{create, available_of, check_lines, Running}
use v_backend.Orders.Create.Owed.{
  ordered, owed_for, owed_for-check_lines, owed_for-nil, check_line-untracked, check_lines-cons,
}
use v_backend.Orders.Create.Facts.{create-IsCreated}

-- The backorders of product p match its stock.
abbrev pub IsBalanced : ℕ → Db → Type 0
IsBalanced p db = outstanding p db.backorders ≡ deficit_of (find_stock p db.stocks)

pub available_of-nil :
    (s : StoreStock) (p : ℕ) → available_of [] s p ≡ s.quantity -ℤ s.reserved_quantity
unfolding available_of
available_of-nil s p = refl

deficit_of-lower :
    (s : StoreStock) (n : ℕ)
    → deficit_of (some (lower n s))
      ≡ deficit_of (some s) + (n - pos_part (s.quantity -ℤ s.reserved_quantity))
unfolding deficit_of ◌-ℤ◌
deficit_of-lower s n = ground arith

-- A product without a stock row owes nothing.
owed_for-untracked :
    (products : List Product) (stocks : List StoreStock) (running : Running) (its : List OrderLine)
    (p : ℕ) {r : List ℕ × List OversoldItem}
    → find_stock p stocks ≡ none
    → check_lines products stocks running its ≡ ok r
    → owed_for p r.0 its ≡ 0
unfolding owed_for
owed_for-untracked products stocks running [] p {r} missing e = owed_for-nil p r.0
owed_for-untracked products stocks running (it ∷ its) p {r} missing e =
    let (line, rest, e1, e2, same) = check_lines-cons products stocks running it its e in
    rw same (
      ground (
        arith,
        check_line-untracked products stocks running it p missing e1,
        owed_for-untracked products stocks line.0 its p missing e2,
      ))

-- Where the pending backorders of a product add up to what its stock lacks, they still do after
-- an order is created, whether the product is tracked, oversold, or in several lines of the
-- order.
pub create-IsBalanced :
    (now : ℕ) (d : CreateOrderData) (db : Db) (p : ℕ) {r : Db × Order × List OversoldItem}
    → create now d db ≡ ok r
    → IsBalanced p db
    → IsBalanced p r.0
create-IsBalanced now d db p {r} e balanced =
    let f = create-IsCreated now d db e in
    elim (Option-cases (find_stock p db.stocks)) [
      | inl missing ↦
          f.outstanding_eq p
          ∙ rw
              (
                owed_for-untracked db.products db.stocks [] d.items p missing f.checked,
                f.stock_eq p,
                missing,
              )
              (let before : outstanding p db.backorders ≡ deficit_of none =
                  rw missing at balanced in
                unfold deficit_of in omega (arith, before))
      | inr (s, found) ↦
          f.outstanding_eq p
          ∙ rw
              (
                owed_for-check_lines db.products db.stocks [] d.items p s found f.checked,
                f.stock_eq p,
                found,
                available_of-nil s p,
                deficit_of-lower s (ordered p d.items),
                balanced,
                found,
              )
              refl
    ]
