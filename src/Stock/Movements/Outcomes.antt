-- ===== src/Stock/Movements/Outcomes.antt =====
-- What a manual stock movement leaves behind, and what it keeps.

use v_backend.Base.{
  ℕ, ◌-◌, ◌≤◌, ◌≡◌, refl, ◌∙◌, sym, ap, false, List, [], ◌∷◌, ◌++◌, Option, none, some, ok, arith,
  ◌==◌, Bool-cases, inl, inr, ℤ, pos, pos_part, ◌+ℤ◌, ◌-ℤ◌, ◌≤ℤ◌,
}
use v_backend.Db.{Db}
use v_backend.Db.Rows.{
  Product, StoreStock, Order, Backorder, StockMovement, MovementType, incoming, outgoing,
}
use v_backend.Db.Stock.{find_stock, outstanding, deficit_of}
use v_backend.Db.Tenant.{TenantContext}
use v_backend.Orders.Ledger.{IsBalanced}
use v_backend.Stock.Movements.{
  FulfilledBackorderInfo, quantity_of, reserved_of, upsert_stock, next_quantity, is_blocked,
  allocate_if_incoming, allocate_backorders, create,
}
use v_backend.Stock.Allocation.{HasUniqueIds, outstanding-allocated}
use v_backend.Stock.Movements.Accepted.{upsert_stock_lem, create-IsAccepted}

deficit_of-find : (o : Option StoreStock) → deficit_of o ≡ pos_part (reserved_of o -ℤ quantity_of o)
unfolding deficit_of reserved_of quantity_of ◌-ℤ◌
deficit_of-find none = refl
deficit_of-find (some s) = refl

deficit_of-some :
    (s : StoreStock) → deficit_of (some s) ≡ pos_part (s.reserved_quantity -ℤ s.quantity)
unfolding deficit_of
deficit_of-some s = refl

less_owed :
    (reserved quantity : ℤ) (n : ℕ)
    → pos_part (reserved -ℤ (quantity +ℤ pos n)) ≤ pos_part (reserved -ℤ quantity)
unfolding ◌+ℤ◌ ◌-ℤ◌
less_owed reserved quantity n = ground arith

outstanding-allocate_backorders :
    (now : ℕ) (product : Product) (orders : List Order) (prev next reserved : ℤ)
    (table : List Backorder)
    → HasUniqueIds table
    → outstanding product.id (allocate_backorders now product orders prev next reserved table).0
      ≡ outstanding product.id table - (pos_part (reserved -ℤ prev) - pos_part (reserved -ℤ next))
unfolding allocate_backorders
outstanding-allocate_backorders now product orders prev next reserved table u =
    let n = pos_part (reserved -ℤ prev) - pos_part (reserved -ℤ next) in
    elim (Bool-cases (n == 0)) [
      | inl nothing ↦ ground arith
      | inr some_units ↦ rw some_units (outstanding-allocated now product orders n table u)
    ]

-- The books of product k, before and after its stock row and its backorders are written.
books-incoming :
    (now : ℕ) (product : Product) (orders : List Order) (k n : ℕ) (stocks stocks' : List StoreStock)
    (table table' : List Backorder)
    → product.id ≡ k
    → HasUniqueIds table
    → stocks' ≡ upsert_stock product (quantity_of (find_stock k stocks) +ℤ pos n) stocks
    → table'
      ≡ (allocate_backorders now product orders
          (quantity_of (find_stock k stocks))
          (quantity_of (find_stock k stocks) +ℤ pos n)
          (reserved_of (find_stock k stocks))
          table).0
    → outstanding k table ≡ deficit_of (find_stock k stocks)
    → outstanding k table' ≡ deficit_of (find_stock k stocks')
books-incoming now product orders k n stocks stocks' table table' id u stocks_eq table_eq balanced =
    let old = find_stock k stocks in
    let next = quantity_of old +ℤ pos n in
    let (s, found, level, kept) = upsert_stock_lem product next stocks in
    let row : find_stock k stocks' ≡ some s =
      ap (λ x. find_stock x stocks') (sym id) ∙ ap (find_stock product.id) stocks_eq ∙ found in
    let reserved : s.reserved_quantity ≡ reserved_of old =
      kept ∙ ap (λ x. reserved_of (find_stock x stocks)) id in
    let after : deficit_of (find_stock k stocks') ≡ pos_part (reserved_of old -ℤ next) =
      ap deficit_of row
      ∙ deficit_of-some s
      ∙ ap (λ x. pos_part (x -ℤ s.quantity)) reserved
      ∙ ap (λ x. pos_part (reserved_of old -ℤ x)) level in
    let owed : outstanding k table'
        ≡ outstanding k table
          - (pos_part (reserved_of old -ℤ quantity_of old) - pos_part (reserved_of old -ℤ next)) =
      ap (outstanding k) table_eq
      ∙ ap
          (λ x.
            outstanding x
              (allocate_backorders now product orders (quantity_of old) next (reserved_of old)
                table).0)
          (sym id)
      ∙ outstanding-allocate_backorders now product orders (quantity_of old) next (reserved_of old)
          table u
      ∙ ap
          (λ x.
            outstanding x table
            - (pos_part (reserved_of old -ℤ quantity_of old) - pos_part (reserved_of old -ℤ next)))
          id in
    omega (
      arith,
      owed,
      after,
      balanced,
      deficit_of-find old,
      less_owed (reserved_of old) (quantity_of old) n,
    )

-- Where backorders have distinct ids and the pending ones of a product add up to what its stock
-- lacks, they still do after an incoming movement that is accepted: what arrives is allocated to
-- them.
pub incoming-IsBalanced :
    (ctx : TenantContext) (now : ℕ) (d : StockMovement) (db : Db)
    {r : Db × List FulfilledBackorderInfo}
    → d.movement_type ≡ incoming
    → HasUniqueIds db.backorders
    → IsBalanced d.product_id db
    → create ctx now d db ≡ ok r
    → IsBalanced d.product_id r.0
unfolding next_quantity allocate_if_incoming
incoming-IsBalanced ctx now d db {r} kind u balanced e =
    let a = create-IsAccepted ctx now d db e in
    let old = quantity_of (find_stock d.product_id db.stocks) in
    books-incoming now a.product db.orders d.product_id d.quantity db.stocks (r.0).stocks
      db.backorders (r.0).backorders a.id_eq u
      (a.stocks_eq
        ∙ ap (λ t. upsert_stock a.product (next_quantity t old d.quantity) db.stocks) kind)
      (a.backorders_eq
        ∙ ap
            (λ t.
              (allocate_if_incoming t now a.product db.orders old (next_quantity t old d.quantity)
                (reserved_of (find_stock d.product_id db.stocks)) db.backorders).0)
            kind)
      balanced

-- The level that an accepted movement of a type leaves, by the old level and the units.
abbrev pub IsLevelAfter : MovementType → ℤ → ℕ → ℤ → Type 0
IsLevelAfter incoming old n level = level ≡ old +ℤ pos n
IsLevelAfter outgoing old n level = (level ≡ old -ℤ pos n) × (pos 0 ≤ℤ level)

level_after :
    (t : MovementType) (old level : ℤ) (n : ℕ)
    → level ≡ next_quantity t old n
    → is_blocked t (next_quantity t old n) ≡ false
    → IsLevelAfter t old n level
unfolding is_blocked next_quantity
level_after incoming old level n e passed = e
level_after outgoing old level n e passed = (e, ground (arith))

-- After an accepted movement the product has a stock row: an arrival has added its units to the
-- level, and a departure has taken them off and not gone below zero. The units that are reserved
-- stay, and the movement is recorded.
pub create-level :
    (ctx : TenantContext) (now : ℕ) (d : StockMovement) (db : Db)
    {r : Db × List FulfilledBackorderInfo}
    → create ctx now d db ≡ ok r
    → (s : StoreStock) × (find_stock d.product_id (r.0).stocks ≡ some s)
      × IsLevelAfter d.movement_type
          (quantity_of (find_stock d.product_id db.stocks))
          d.quantity
          s.quantity
      × (s.reserved_quantity ≡ reserved_of (find_stock d.product_id db.stocks))
      × ((r.0).movements ≡ db.movements ++ d ∷ [])
create-level ctx now d db {r} e =
    let a = create-IsAccepted ctx now d db e in
    let old = find_stock d.product_id db.stocks in
    let next = next_quantity d.movement_type (quantity_of old) d.quantity in
    let (s, found, level, kept) = upsert_stock_lem a.product next db.stocks in
    (
      s,
      ap (find_stock d.product_id) a.stocks_eq
          ∙ ap (λ k. find_stock k (upsert_stock a.product next db.stocks)) (sym a.id_eq)
          ∙ found,
      level_after d.movement_type (quantity_of old) s.quantity d.quantity level a.open_eq,
      kept ∙ ap (λ k. reserved_of (find_stock k db.stocks)) a.id_eq,
      a.movements_eq,
    )
