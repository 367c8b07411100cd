-- ===== src/Orders/Create/Facts.antt =====
-- Inversion of an order that was created: the steps that it passed and the rows that it wrote.
use mathlib.Core.Option
use v_backend.Base.{
  ℕ, ◌+◌, ◌≡◌, ◌∙◌, ap, List, [], ◌∷◌, ◌++◌, Option, none, some, ok, >>=-eq-ok, arith,
}
use v_backend.Db.{Db}
use v_backend.Db.Rows.{Order, OrderStatus}
use v_backend.Db.Stock.{find_stock, lower, outstanding}
use v_backend.Orders.Data.{CreateOrderData, CreateOrderBillingData, OversoldItem}
use v_backend.Orders.Create.{
  check_ownership, check_lines, create_items, sort_items, record_backorders, sell_lines,
  insert_order, insert_charge, create,
}
use v_backend.Orders.Change.{cancel_backorders}
use v_backend.Orders.Create.Owed.{ordered, owed_for}
use v_backend.Orders.Create.StockFlow.{
  find_stock-sell_lines, sort_items-create_items, outstanding-record_backorders,
  outstanding-cancel_recorded, record_backorders-stocks, record_backorders-order_items,
  sell_lines-SameTables,
}

-- The order as `insert_order` writes it.
pub record IsInserted (now : ℕ) (d : CreateOrderData) (db : Db) (r : Db × Order) : Type 0 where
  pub orders_eq : (r.0).orders ≡ db.orders ++ r.1 ∷ []
  pub items_eq :
      (r.0).order_items ≡ db.order_items ++ create_items db.next_order db.next_item d.items
  pub stocks_eq : (r.0).stocks ≡ db.stocks
  pub backorders_eq : (r.0).backorders ≡ db.backorders
  pub id_eq : (r.1).id ≡ db.next_order
  pub seller_eq : (r.1).seller_id ≡ d.seller_id
  pub status_eq : (r.1).status ≡ OrderStatus.pending

insert_order-IsInserted :
    (now : ℕ) (d : CreateOrderData) (db : Db) {r : Db × Order}
    → insert_order now d db ≡ ok r
    → IsInserted now d db r
unfolding insert_order
insert_order-IsInserted now d db e = ground arith

pub record IsCharged (a b : Db) : Type 0 where
  pub orders_eq : b.orders ≡ a.orders
  pub items_eq : b.order_items ≡ a.order_items
  pub stocks_eq : b.stocks ≡ a.stocks
  pub backorders_eq : b.backorders ≡ a.backorders

insert_charge-IsCharged :
    (order_id : ℕ) (b : Option CreateOrderBillingData) (db : Db) {db' : Db}
    → insert_charge order_id b db ≡ ok db'
    → IsCharged db db'
unfolding insert_charge
insert_charge-IsCharged order_id none db e = ground arith
insert_charge-IsCharged order_id (some b) db e = ground arith

pub record IsCreated (now : ℕ) (d : CreateOrderData) (db : Db) (r : Db × Order × List OversoldItem)
    : Type 0 where
  pub owes : List ℕ
  pub checked : check_lines db.products db.stocks [] d.items ≡ ok (owes, r.2)
  pub stock_eq :
      (p : ℕ)
      → find_stock p (r.0).stocks ≡ Option.map (lower (ordered p d.items)) (find_stock p db.stocks)
  pub outstanding_eq :
      (p : ℕ)
      → outstanding p (r.0).backorders ≡ outstanding p db.backorders + owed_for p owes d.items
  pub canceled_eq :
      (p : ℕ)
      → outstanding p (cancel_backorders (r.1).id (r.0).backorders)
        ≡ outstanding p (cancel_backorders (r.1).id db.backorders)
  pub items_eq :
      (r.0).order_items ≡ db.order_items ++ create_items db.next_order db.next_item d.items
  pub orders_eq : (r.0).orders ≡ db.orders ++ r.1 ∷ []
  pub id_eq : (r.1).id ≡ db.next_order
  pub seller_eq : (r.1).seller_id ≡ d.seller_id
  pub status_eq : (r.1).status ≡ OrderStatus.pending

pub create-IsCreated :
    (now : ℕ) (d : CreateOrderData) (db : Db) {r : Db × Order × List OversoldItem}
    → create now d db ≡ ok r
    → IsCreated now d db r
unfolding create
create-IsCreated now d db {r} e =
    let owned = >>=-eq-ok (check_ownership d.seller_id d.items db.products) _ e in
    let checked = >>=-eq-ok (check_lines db.products db.stocks [] d.items) _ owned.2 in
    let inserted = >>=-eq-ok (insert_order now d db) _ checked.2 in
    let order = inserted.0.1 in
    let owing =
      record_backorders now d.seller_id order.id checked.0.0
        (sort_items (create_items order.id db.next_item d.items)) d.items inserted.0.0 in
    let sold = sell_lines order.id d.items owing in
    let charged = >>=-eq-ok (insert_charge order.id d.billing sold) _ inserted.2 in
    let i = insert_order-IsInserted now d db inserted.1 in
    let c = insert_charge-IsCharged order.id d.billing sold charged.1 in
    let created = sort_items (create_items order.id db.next_item d.items) in
    let tables = sell_lines-SameTables order.id d.items owing in
    let kept =
      record_backorders-order_items now d.seller_id order.id checked.0.0 created d.items
        inserted.0.0 in
    let same_stocks =
      record_backorders-stocks now d.seller_id order.id checked.0.0 created d.items inserted.0.0 in
    let same : r ≡ (charged.0, order, checked.0.1) = cc (charged.2) in
    rw same (record {
      owes = checked.0.0;
      checked = checked.1;
      stock_eq = λ p.
          ap (find_stock p) c.stocks_eq
          ∙ find_stock-sell_lines order.id p d.items owing
          ∙ ap (λ x. Option.map (lower (ordered p d.items)) (find_stock p x))
              (same_stocks ∙ i.stocks_eq);
      outstanding_eq = λ p.
          ap (outstanding p) (c.backorders_eq ∙ tables.backorders_eq)
          ∙ ap
              (λ x.
                outstanding p
                  (record_backorders now d.seller_id order.id checked.0.0 x d.items
                    inserted.0.0).backorders)
              (sort_items-create_items order.id db.next_item d.items)
          ∙ outstanding-record_backorders now d.seller_id order.id db.next_item p checked.0.0
              d.items inserted.0.0
          ∙ ap (λ x. outstanding p x + owed_for p checked.0.0 d.items) i.backorders_eq;
      canceled_eq = λ p.
          ap (λ x. outstanding p (cancel_backorders order.id x))
            (c.backorders_eq ∙ tables.backorders_eq)
          ∙ outstanding-cancel_recorded now d.seller_id order.id p checked.0.0 created d.items
              inserted.0.0
          ∙ ap (λ x. outstanding p (cancel_backorders order.id x)) i.backorders_eq;
      items_eq = c.items_eq ∙ tables.order_items_eq ∙ kept.0 ∙ i.items_eq;
      orders_eq = c.orders_eq ∙ tables.orders_eq ∙ kept.1 ∙ i.orders_eq;
      id_eq = i.id_eq;
      seller_eq = i.seller_eq;
      status_eq = i.status_eq;
    })
