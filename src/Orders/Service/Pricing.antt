-- ===== src/Orders/Service/Pricing.antt =====
-- The amounts of an order that the service creates, and what stops the whole order.
use v_backend.Base.{
  ℕ, zero, suc, ap, sym, ◌+◌, ◌≤◌, ◌≡◌, refl, ◌∙◌, List, [], ◌∷◌, map, Option, some, ok, err,
  >>=-eq-ok, Result-cases, inl, inr, arith, All, ℤ, pos, ◌+ℤ◌, ◌-ℤ◌, ◌≤ℤ◌, int_laws, any_row,
  text_eq, true, unique_violation, HttpError,
}
use v_backend.Db.{Db}
use v_backend.Db.Rows.{Order, OrderItem, Billing}
use v_backend.Orders.Data.{
  OrderItemInput, CreateOrderDto, OrderLine, CreateOrderBillingData, CreateOrderData,
}
use v_backend.Orders.Create
use v_backend.Orders.Create.{
  insert_order, insert_billing, insert_charge, sell_lines, record_backorders, add_backorder,
  create_items, sort_items, check_ownership, check_lines,
}
use v_backend.Orders.Create.StockFlow.{sell_lines-SameTables}
use v_backend.Orders.Service.{price_item, line_value, subtotal_of, discount_of, create_data}

pub total_of_lines : List OrderLine → ℤ
total_of_lines [] = pos 0
total_of_lines (it ∷ its) = it.total +ℤ total_of_lines its

-- A line's discount is at most its value, and its total is what is left.
pub record IsPriced (it : OrderLine) : Type 0 where
  pub discount_le : it.discount ≤ line_value it
  pub total_eq : it.total +ℤ pos it.discount ≡ pos (line_value it)
  pub total_nonneg : pos 0 ≤ℤ it.total

price_item-IsPriced : (it : OrderItemInput) → IsPriced (price_item it)
unfolding price_item line_value ◌-ℤ◌ ◌+ℤ◌
price_item-IsPriced it = ground arith

add_pairs :
    (a t : ℤ) (d e v w : ℕ)
    → a +ℤ pos d ≡ pos v
    → t +ℤ pos e ≡ pos w
    → a +ℤ t +ℤ pos (d + e) ≡ pos (v + w)
unfolding ◌+ℤ◌
add_pairs a t d e v w h k = ground arith

minus_of_plus : (t : ℤ) (d v : ℕ) → t +ℤ pos d ≡ pos v → pos v -ℤ pos d ≡ t
unfolding ◌+ℤ◌ ◌-ℤ◌
minus_of_plus t d v h = ground arith

totals_agree :
    (its : List OrderLine)
    → All IsPriced its
    → (total_of_lines its +ℤ pos (discount_of its) ≡ pos (subtotal_of its))
      × (discount_of its ≤ subtotal_of its)
unfolding total_of_lines discount_of subtotal_of
totals_agree [] h = (omega int_laws, omega arith)
totals_agree (it ∷ its) h =
    let rest = totals_agree its h.1 in
    (
      add_pairs it.total (total_of_lines its) it.discount _ (line_value it) _ (h.0).total_eq rest.0,
      omega (arith, (h.0).discount_le, rest.1),
    )

IsPriced-items : (items : List OrderItemInput) → All IsPriced (map price_item items)
IsPriced-items [] = tt
IsPriced-items (it ∷ items) = (price_item-IsPriced it, IsPriced-items items)

-- Whatever discounts a client asks for, every line is priced at zero or more, and so is the order:
-- its total is the sum of the line totals, and its subtotal less its discount.
pub create_data-amounts :
    (seller_id : ℕ) (dto : CreateOrderDto) (billing : Option CreateOrderBillingData)
    → let d = create_data seller_id dto billing in
      All IsPriced d.items
      × (d.total ≡ total_of_lines d.items)
      × (d.total ≡ d.subtotal -ℤ d.discount)
      × (pos 0 ≤ℤ d.total)
unfolding create_data
create_data-amounts seller_id dto billing =
    let priced = IsPriced-items dto.items in
    let agree = totals_agree (map price_item dto.items) priced in
    (priced, minus_of_plus _ _ _ agree.0, refl, omega (int_laws, agree.1))

insert_order-billings :
    (now : ℕ) (d : CreateOrderData) (db : Db) {r : Db × Order}
    → insert_order now d db ≡ ok r
    → (r.0).billings ≡ db.billings
unfolding insert_order
insert_order-billings now d db e = ground arith

record_backorders-billings :
    (now seller_id order_id : ℕ) (os : List ℕ) (created : List OrderItem) (its : List OrderLine)
    (db : Db)
    → (record_backorders now seller_id order_id os created its db).billings ≡ db.billings
unfolding record_backorders add_backorder
record_backorders-billings now seller_id order_id [] created its db = refl
record_backorders-billings now seller_id order_id (o ∷ os) [] its db = refl
record_backorders-billings now seller_id order_id (o ∷ os) (c ∷ created) [] db = refl
record_backorders-billings now seller_id order_id (zero ∷ os) (c ∷ created) (it ∷ its) db =
    record_backorders-billings now seller_id order_id os created its db
record_backorders-billings now seller_id order_id (suc o ∷ os) (c ∷ created) (it ∷ its) db =
    record_backorders-billings now seller_id order_id os created its _

insert_charge-taken :
    (order_id : ℕ) (b : CreateOrderBillingData) (db : Db)
    → any_row (λ (x : Billing). text_eq x.billing_number b.billing_number) db.billings ≡ true
    → insert_charge order_id (some b) db ≡ err unique_violation
unfolding insert_charge
insert_charge-taken order_id b db taken = rw taken

-- Billing numbers are compared across all sellers: an order whose charge would bear a number that any
-- billing bears, of whichever seller, is not created.
pub create-number_taken :
    (now : ℕ) (d : CreateOrderData) (b : CreateOrderBillingData) (db : Db)
    → d.billing ≡ some b
    → any_row (λ (x : Billing). text_eq x.billing_number b.billing_number) db.billings ≡ true
    → (e : HttpError) × (Create.create now d db ≡ err e)
unfolding Create.create
create-number_taken now d b db charged taken = elim (Result-cases (Create.create now d db)) [
  | inl (r, done) ↦
      let owned = >>=-eq-ok (check_ownership d.seller_id d.items db.products) _ done in
      let checked = >>=-eq-ok (check_lines db.products db.stocks [] d.items) _ owned.2 in
      let inserted = >>=-eq-ok (insert_order now d db) _ checked.2 in
      let order = inserted.0.1 in
      let created = sort_items (create_items order.id db.next_item d.items) in
      let owing =
        record_backorders now d.seller_id order.id checked.0.0 created d.items inserted.0.0 in
      let sold = sell_lines order.id d.items owing in
      let charge = >>=-eq-ok (insert_charge order.id d.billing sold) _ inserted.2 in
      let same : sold.billings ≡ db.billings =
        (sell_lines-SameTables order.id d.items owing).billings_eq
        ∙ record_backorders-billings now d.seller_id order.id checked.0.0 created d.items
            inserted.0.0
        ∙ insert_order-billings now d db inserted.1 in
      let still : any_row (λ (x : Billing). text_eq x.billing_number b.billing_number) sold.billings
          ≡ true =
        ap (any_row (λ (x : Billing). text_eq x.billing_number b.billing_number)) same ∙ taken in
      cc (
        ap (λ x. insert_charge order.id x sold) (sym charged) ∙ charge.1,
        insert_charge-taken order.id b sold still,
      )
  | inr refused ↦ refused
]
