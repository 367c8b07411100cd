-- ===== src/Billings/FromOrders.antt =====
-- What the calls of `OrdersService` write to the table of charges.
use v_backend.Base.{
  ℕ, zero, suc, ◌<◌, ◌≡◌, ◌∙◌, refl, sym, ap, Bool, true, false, not, ◌&&◌, inl, inr, List, [], ◌∷◌,
  ◌++◌, Option, none, some, ok, >>=-eq-ok, ok-injective, or_throw, throw_if, bad_request, not_found,
  arith, All, ◌==◌, if◌then◌else◌, Bool-cases, Option-cases, find_row, update_rows, pos, ◌-ℤ◌, map,
}
use v_backend.Base.Keys.{HasUniqueKeys-where_rows, All-where_rows}
use v_backend.Calendar.{LocalDate, to_ms}
use v_backend.Db.{Db}
use v_backend.Db.Rows.{Billing, Order, OrderItem, OrderStatus, Customer, Product}
use v_backend.Db.Stock.{find_stock}
use v_backend.Db.Tenant.{TenantContext, may_access, require_seller_id}
use v_backend.Billings.Status.{derive_billing_status}
use v_backend.Billings.Consistency.{IsConsistent, HasUniqueIds, IsSound}
use v_backend.Billings.Writes.{append-IsSound}
use v_backend.Billings.Untouched.{
  charges, IsSound-charges, add_backorder-charges, record_backorders-charges, sell_line-charges,
  sell_lines-charges, insert_order-charges, restore_stock-charges,
}
use v_backend.Orders.Data.{
  OrderItemInput, CreateOrderDto, CreateOrderData, CreateOrderBillingData, OversoldItem,
  OversoldNotice,
}
use v_backend.Orders.Create
use v_backend.Orders.Create.{
  check_ownership, check_lines, create_items, sort_items, add_backorder, record_backorders,
  sell_line, sell_lines, insert_order, insert_billing, insert_charge,
}
use v_backend.Orders.Change
use v_backend.Orders.Change.{
  find_order, require_order_in_tenant, restore_item, restore_items, restore_stock, update_billing,
  update_billings, is_canceled, delete_order, items_of,
}
use v_backend.Orders.Lines
use v_backend.Orders.Lines.{owed_by, update_totals, new_item, insert_item}
use v_backend.Orders.Service
use v_backend.Orders.Service.{
  price_item, subtotal_of, discount_of, find_customer, build_billing_data, create_data,
  billing_update_for,
}

-- The state of the charge of a new order is the one that its amounts give.
abbrev IsDerived : Option CreateOrderBillingData → Type 0
IsDerived none = Unit
IsDerived (some b) =
    (b.status ≡ (derive_billing_status b.paid_amount b.total_amount).status)
    × (b.payment_status ≡ (derive_billing_status b.paid_amount b.total_amount).payment_status)

insert_billing-IsSound :
    (order_id : ℕ) (b : CreateOrderBillingData) (db : Db) {db' : Db}
    → IsDerived (some b)
    → insert_billing order_id b db ≡ ok db'
    → IsSound db
    → IsSound db'
unfolding insert_billing
insert_billing-IsSound order_id b db {db'} derived e s =
    elim (Bool-cases (
      v_backend.Base.any_row
        (λ (x : Billing). v_backend.Base.text_eq x.billing_number b.billing_number) db.billings)) [
          | inl taken ↦ let impossible = rw taken at e in cc
          | inr free ↦
              rw (sym (ok-injective (rw free at e)))
                (append-IsSound _ db refl (inr (derived.0, derived.1)) s)
        ]

insert_charge-IsSound :
    (order_id : ℕ) (b : Option CreateOrderBillingData) (db : Db) {db' : Db}
    → IsDerived b
    → insert_charge order_id b db ≡ ok db'
    → IsSound db
    → IsSound db'
unfolding insert_charge
insert_charge-IsSound order_id none db derived e s = rw (sym (ok-injective e)) s
insert_charge-IsSound order_id (some b) db derived e s =
    insert_billing-IsSound order_id b db derived e s

build_billing_data-IsDerived :
    (ctx : TenantContext) (now : LocalDate) (customer_id : ℕ) (number : List ℕ)
    (total : v_backend.Base.ℤ) (customers : List Customer) {b : Option CreateOrderBillingData}
    → build_billing_data ctx now customer_id number total customers ≡ ok b
    → IsDerived b
unfolding build_billing_data
build_billing_data-IsDerived ctx now customer_id number total customers e =
    let customer = >>=-eq-ok (find_customer ctx customer_id customers) _ e in
    elim (Bool-cases (Service.is_per_sale customer.0.billing_mode)) [
      | inl per_sale ↦ rw (sym (ok-injective (rw per_sale at customer.2))) (refl, refl)
      | inr other ↦ rw (sym (ok-injective (rw other at customer.2))) tt
    ]

repository_create-IsSound :
    (now : ℕ) (d : CreateOrderData) (db : Db) {r : Db × Order × List OversoldItem}
    → IsDerived d.billing
    → Create.create now d db ≡ ok r
    → IsSound db
    → IsSound r.0
unfolding Create.create
repository_create-IsSound now d db {r} derived e s =
    let owned = >>=-eq-ok (check_ownership d.seller_id d.items db.products) _ e in
    let checked = >>=-eq-ok (check_lines db.products db.stocks [] d.items) _ owned.2 in
    let inserted = >>=-eq-ok (insert_order now d db) _ checked.2 in
    let order = inserted.0.1 in
    let created = sort_items (create_items order.id db.next_item d.items) in
    let owing =
      record_backorders now d.seller_id order.id checked.0.0 created d.items inserted.0.0 in
    let sold = sell_lines order.id d.items owing in
    let charged = >>=-eq-ok (insert_charge order.id d.billing sold) _ inserted.2 in
    let same : charges sold ≡ charges db =
      sell_lines-charges order.id d.items owing
      ∙ record_backorders-charges now d.seller_id order.id checked.0.0 created d.items inserted.0.0
      ∙ insert_order-charges now d db inserted.1 in
    let result : r.0 ≡ charged.0 =
      ap (λ (x : Db × Order × List OversoldItem). x.0) (sym (ok-injective charged.2)) in
    rw result (
      insert_charge-IsSound order.id d.billing sold derived charged.1
        (IsSound-charges db sold same s))

pub ordered-IsSound :
    (ctx : TenantContext) (now : LocalDate) (dto : CreateOrderDto) (db : Db)
    {r : Db × Order × List OversoldNotice}
    → Service.create ctx now dto db ≡ ok r
    → IsSound db
    → IsSound r.0
unfolding Service.create create_data
ordered-IsSound ctx now dto db {r} e s =
    let seller = >>=-eq-ok (require_seller_id ctx) _ e in
    let items = map price_item dto.items in
    let total = pos (subtotal_of items) -ℤ pos (discount_of items) in
    let billing =
      >>=-eq-ok (build_billing_data ctx now dto.customer_id dto.order_number total db.customers) _
        seller.2 in
    let created =
      >>=-eq-ok (Create.create (to_ms now) (create_data seller.0 dto billing.0) db) _ billing.2 in
    let result : r.0 ≡ created.0.0 =
      ap (λ (x : Db × Order × List OversoldNotice). x.0) (sym (ok-injective created.2)) in
    rw result (
      repository_create-IsSound (to_ms now) (create_data seller.0 dto billing.0) db
        (build_billing_data-IsDerived ctx now dto.customer_id dto.order_number total db.customers
          billing.1)
        created.1 s)

pub item_added-IsSound :
    (ctx : TenantContext) (now : LocalDate) (order_id : ℕ) (it : OrderItemInput) (db : Db)
    {r : Db × OrderItem}
    → Service.add_item ctx now order_id it db ≡ ok r
    → IsSound db
    → IsSound r.0
unfolding Service.add_item Lines.add_item update_totals insert_item
item_added-IsSound ctx now order_id it db {r} e s =
    let order = >>=-eq-ok (or_throw (find_order order_id db.orders) bad_request) _ e in
    let allowed =
      >>=-eq-ok (throw_if (not (may_access ctx order.0.seller_id)) bad_request) _ order.2 in
    let owned =
      >>=-eq-ok
        (or_throw
          (find_row (λ (p : Product). p.id == it.product_id && p.seller_id == order.0.seller_id)
            db.products)
          not_found)
        _ allowed.2 in
    let owed =
      >>=-eq-ok (owed_by db.products (find_stock it.product_id db.stocks) (price_item it)) _
        owned.2 in
    let sold = sell_line order.0.id it.product_id it.quantity db in
    let item = new_item db.next_item order_id (price_item it) in
    let owing =
      add_backorder (to_ms now) order.0.seller_id order.0.id owed.0 item (price_item it)
        (insert_item item sold) in
    let same : charges owing ≡ charges db =
      add_backorder-charges (to_ms now) order.0.seller_id order.0.id owed.0 item (price_item it)
        (insert_item item sold)
      ∙ sell_line-charges order.0.id it.product_id it.quantity db in
    let result : r.0 ≡ update_totals order_id owing =
      ap (λ (x : Db × OrderItem). x.0) (sym (ok-injective owed.2)) in
    rw result (IsSound-charges db (update_totals order_id owing) same s)

module _ (c : Billing → Bool) (f : Billing → Billing) where
  All-update_rows :
      (P : Billing → Type 0) (xs : List Billing)
      → ((b : Billing) → P b → P (f b))
      → All P xs
      → All P (update_rows c f xs)
  unfolding update_rows
  All-update_rows P [] step h = tt
  All-update_rows P (x ∷ xs) step h = elim (Bool-cases (c x)) [
    | inl hit ↦ rw hit (step x h.0, All-update_rows P xs step h.1)
    | inr miss ↦ rw miss (h.0, All-update_rows P xs step h.1)
  ]

  HasUniqueIds-update_rows :
      (xs : List Billing)
      → ((b : Billing) → (f b).id ≡ b.id)
      → HasUniqueIds xs
      → HasUniqueIds (update_rows c f xs)
  unfolding update_rows
  HasUniqueIds-update_rows [] keeps u = tt
  HasUniqueIds-update_rows (x ∷ xs) keeps u =
      let others =
        All-update_rows (λ (y : Billing). (y.id == x.id) ≡ false) xs (λ y other. rw (keeps y) other)
          u.0 in
      elim (Bool-cases (c x)) [
        | inl hit ↦ rw (hit, keeps x) (others, HasUniqueIds-update_rows xs keeps u.1)
        | inr miss ↦ rw miss (others, HasUniqueIds-update_rows xs keeps u.1)
      ]

-- The charges of an order that is canceled are canceled.
update_billings-IsSound :
    (id : ℕ) (status : OrderStatus) (orders : List Order) (db : Db)
    → IsSound db
    → IsSound (record db {
      orders = orders;
      billings = update_billings id (billing_update_for status) db.billings;
    })
unfolding update_billings update_billing billing_update_for
update_billings-IsSound id OrderStatus.pending orders db s = IsSound-charges db _ refl s
update_billings-IsSound id OrderStatus.confirmed orders db s = IsSound-charges db _ refl s
update_billings-IsSound id OrderStatus.shipping orders db s = IsSound-charges db _ refl s
update_billings-IsSound id OrderStatus.delivered orders db s = IsSound-charges db _ refl s
update_billings-IsSound id OrderStatus.canceled orders db s =
    let mine = λ (b : Billing). b.order_id == id in
    record {
      consistent =
          All-update_rows mine _ IsConsistent db.billings (λ b h. inl (refl, refl)) s.consistent;
      unique = HasUniqueIds-update_rows mine _ db.billings (λ b. refl) s.unique;
      bounded =
          All-update_rows mine _ (λ (b : Billing). b.id < db.next_billing) db.billings (λ b h. h)
            s.bounded;
    }

pub status_changed-IsSound :
    (ctx : TenantContext) (id : ℕ) (status : OrderStatus) (db : Db) {db' : Db}
    → Service.update_status ctx id status db ≡ ok db'
    → IsSound db
    → IsSound db'
unfolding Service.update_status Change.update_status
status_changed-IsSound ctx id status db e s =
    let order = >>=-eq-ok (require_order_in_tenant ctx id db.orders) _ e in
    let moves = is_canceled status && not (is_canceled order.0.status) in
    let restored = if moves then restore_stock id db else db in
    rw (sym (ok-injective order.2)) (
      update_billings-IsSound id status _ restored
        (IsSound-charges db restored (restore_stock-charges id moves db) s))

delete_order-IsSound : (id : ℕ) (db : Db) → IsSound db → IsSound (delete_order id db)
unfolding delete_order
delete_order-IsSound id db s = record {
  consistent = All-where_rows IsConsistent _ db.billings s.consistent;
  unique = HasUniqueKeys-where_rows (λ (b : Billing). b.id) _ db.billings s.unique;
  bounded = All-where_rows (λ (b : Billing). b.id < db.next_billing) _ db.billings s.bounded;
}

pub order_deleted-IsSound :
    (ctx : TenantContext) (id : ℕ) (db : Db) {db' : Db}
    → Service.delete ctx id db ≡ ok db'
    → IsSound db
    → IsSound db'
unfolding Service.delete Change.delete
order_deleted-IsSound ctx id db e s =
    let order = >>=-eq-ok (require_order_in_tenant ctx id db.orders) _ e in
    let again : charges (if is_canceled order.0.status then db else restore_stock id db)
        ≡ charges db =
      given (is_canceled order.0.status) in
    rw (sym (ok-injective order.2)) (delete_order-IsSound id _ (IsSound-charges db _ again s))
  where
    given : (t : Bool) → charges (if t then db else restore_stock id db) ≡ charges db
    given true = refl
    given false = restore_stock-charges id true db
