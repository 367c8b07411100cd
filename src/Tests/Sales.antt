-- ===== src/Tests/Sales.antt =====
-- A shop with one product, of which two units are on hand.
use mathlib.Core.Option
use Prim.Native.Nat.{◌*◌}
use v_backend.Base.{
  ℕ, ◌≡◌, ◌≢◌, ◌⊎◌, refl, Bool, true, false, List, [], ◌∷◌, Option, none, some, Result, ok, err,
  HttpError, not_found, bad_request, All, arith, ◌++◌, ℤ, pos, ◌≤ℤ◌, ◌-ℤ◌,
}
use v_backend.Db.{Db}
use v_backend.Db.Rows.{
  Product, Order, OrderItem, Billing, per_sale, cash, OrderStatus, BillingStatus, PaymentStatus,
}
use v_backend.Db.Stock.{find_stock, outstanding, raise}
use v_backend.Orders.Data.{CreateOrderData, OrderLine, OversoldItem}
use v_backend.Db.Tenant.{TenantContext}
use v_backend.Orders.Data.{CreateOrderDto, CreateOrderBillingData}
use v_backend.Orders.Create
use v_backend.Orders.Create.Owed.{ordered}
use v_backend.Orders.Change.{update_status, delete, find_order, items_of}
use v_backend.Orders.Lines.{add_item, discount_of, total_of}
use v_backend.Orders.Lines.Totals.{add_item_totals, add_item_double_discount}
use v_backend.Orders.Oversell.{create-within_stock}
use v_backend.Orders.Cancel.{
  IsFresh, create_cancel_roundtrip, update_status-cancel_again, update_status_reopened,
}
use v_backend.Orders.Tenancy.{seller, foreign_order, create-owned}
use v_backend.Orders.Tenancy.Counting.{owns}
use v_backend.Orders.Service.{create_data}
use v_backend.Orders.Service.Pricing.{
  IsPriced, total_of_lines, create_data-amounts, create-number_taken,
}
use v_backend.Orders.Ledger.{IsBalanced, create-IsBalanced}

abbrev pub bag : Product
bag = record { id = 1; seller_id = 9; name = ""; allow_oversell = true }

abbrev pub shop : Db
shop = record {
  products = bag ∷ [];
  stocks =
      record {
        seller_id = 9;
        product_id = 1;
        quantity = pos 2;
        reserved_quantity = pos 0;
        min_stock = pos 0;
        max_stock = pos 0;
      }
      ∷ [];
  orders = [];
  order_items = [];
  backorders = [];
  movements = [];
  billings = [];
  customers = record { id = 4; seller_id = 9; billing_mode = per_sale; billing_day = none } ∷ [];
  next_order = 1;
  next_item = 1;
  next_backorder = 1;
  next_billing = 1;
}

abbrev line : ℕ → OrderLine
line n = record {
  product_id = 1;
  quantity = n;
  unit_price = 10;
  discount = 0;
  total = pos (10 * n);
}

abbrev sale_of : ℕ → CreateOrderData
sale_of n = record {
  seller_id = 9;
  customer_id = 4;
  order_number = 7 ∷ [];
  notes = none;
  subtotal = pos (10 * n);
  discount = pos 0;
  total = pos (10 * n);
  items = line n ∷ [];
  billing = none;
}

-- The value of a call that succeeds, at the type of the state that it starts from.
abbrev pub result_of {ℓ} : {A : Type ℓ} → A → Result A → A
result_of a (ok x) = x
result_of a (err e) = a

abbrev pub an_order : Order
an_order = record {
  id = 0;
  seller_id = 0;
  customer_id = 0;
  order_number = [];
  notes = none;
  status = OrderStatus.pending;
  subtotal = pos 0;
  discount = pos 0;
  total = pos 0;
  created_at = 0;
}

abbrev sold : Db × Order × List OversoldItem
unfolding Create.create
sold = result_of (shop, an_order, []) (Create.create 5 (sale_of 3) shop)

create-IsBalanced_example : IsBalanced 1 sold.0
unfolding Create.create Create.check_ownership v_backend.Base.where_rows v_backend.Base.includes
    v_backend.Base.distinct Create.check_lines Create.check_line v_backend.Base.find_row ◌-ℤ◌
    Create.insert_order v_backend.Base.any_row Create.insert_charge v_backend.Db.Stock.deficit_of
    outstanding
create-IsBalanced_example = create-IsBalanced 5 (sale_of 3) shop 1 refl refl

abbrev pub ctx : TenantContext
ctx = seller 9

shop-IsFresh : IsFresh shop
shop-IsFresh = record { orders_new = tt; items_new = tt; backorders_new = tt }

create_cancel_roundtrip_example :
    (db' : Db) × (update_status ctx 1 OrderStatus.canceled none sold.0 ≡ ok db')
    × (find_stock 1 db'.stocks ≡ find_stock 1 shop.stocks)
    × (outstanding 1 db'.backorders ≡ outstanding 1 shop.backorders)
unfolding sold Create.create Create.check_ownership v_backend.Base.where_rows
    v_backend.Base.includes v_backend.Base.distinct Create.check_lines Create.check_line
    v_backend.Base.find_row ◌-ℤ◌ Create.insert_order v_backend.Base.any_row Create.insert_charge
    Create.sell_lines Create.sell_line v_backend.Base.◌+ℤ◌ v_backend.Base.text_eq
    v_backend.Base.update_rows v_backend.Db.Stock.find_product find_stock
    v_backend.Db.Stock.is_pending v_backend.Db.Stock.update_stock v_backend.Db.Tenant.may_access
    v_backend.Orders.Change.cancel_backorders v_backend.Orders.Change.is_canceled items_of
    v_backend.Orders.Change.restore_item v_backend.Orders.Change.restore_items
    v_backend.Orders.Change.restore_stock v_backend.Orders.Change.set_status
    v_backend.Orders.Change.update_billing v_backend.Orders.Change.update_billings
    Create.add_backorder Create.available_of Create.create_items Create.insert_billing
    Create.insert_item Create.oversell Create.owned_count Create.record_backorders
    Create.running_get Create.sort_items update_status
    v_backend.Orders.Change.require_order_in_tenant find_order add_item discount_of total_of
    v_backend.Orders.Lines.owed_by v_backend.Orders.Lines.update_totals
    v_backend.Orders.Lines.new_item v_backend.Orders.Lines.insert_item v_backend.Base.sum_by
    outstanding
create_cancel_roundtrip_example =
    create_cancel_roundtrip ctx 5 (sale_of 3) none shop 1 shop-IsFresh refl refl

abbrev strict_shop : Db
strict_shop = record shop { products = record bag { allow_oversell = false } ∷ [] }

create-within_stock_example :
    (ordered 1 (line 2 ∷ []) ≡ 0) ⊎ (pos (ordered 1 (line 2 ∷ [])) ≤ℤ pos 2 -ℤ pos 0)
unfolding Create.create Create.check_ownership v_backend.Base.where_rows v_backend.Base.includes
    v_backend.Base.distinct Create.check_lines Create.check_line v_backend.Base.find_row ◌-ℤ◌
    Create.insert_order v_backend.Base.any_row Create.insert_charge
create-within_stock_example = create-within_stock 5 (sale_of 2) strict_shop 1 refl refl refl refl

not_of_eight : (o : Order) → find_order 1 (sold.0).orders ≡ some o → o.seller_id ≢ 8
unfolding sold Create.create Create.check_ownership v_backend.Base.where_rows
    v_backend.Base.includes v_backend.Base.distinct Create.check_lines Create.check_line
    v_backend.Base.find_row ◌-ℤ◌ Create.insert_order v_backend.Base.any_row Create.insert_charge
    Create.sell_lines Create.sell_line v_backend.Base.◌+ℤ◌ v_backend.Base.text_eq
    v_backend.Base.update_rows v_backend.Db.Stock.find_product find_stock
    v_backend.Db.Stock.is_pending v_backend.Db.Stock.update_stock v_backend.Db.Tenant.may_access
    v_backend.Orders.Change.cancel_backorders v_backend.Orders.Change.is_canceled items_of
    v_backend.Orders.Change.restore_item v_backend.Orders.Change.restore_items
    v_backend.Orders.Change.restore_stock v_backend.Orders.Change.set_status
    v_backend.Orders.Change.update_billing v_backend.Orders.Change.update_billings
    Create.add_backorder Create.available_of Create.create_items Create.insert_billing
    Create.insert_item Create.oversell Create.owned_count Create.record_backorders
    Create.running_get Create.sort_items update_status
    v_backend.Orders.Change.require_order_in_tenant find_order add_item discount_of total_of
    v_backend.Orders.Lines.owed_by v_backend.Orders.Lines.update_totals
    v_backend.Orders.Lines.new_item v_backend.Orders.Lines.insert_item v_backend.Base.sum_by
    outstanding
not_of_eight o found same = ground arith

foreign_order_example :
    (update_status (seller 8) 1 OrderStatus.canceled none sold.0 ≡ err not_found)
    × (delete (seller 8) 1 sold.0 ≡ err not_found)
    × (add_item (seller 8) 5 1 (line 1) sold.0 ≡ err bad_request)
foreign_order_example = foreign_order 8 1 5 OrderStatus.canceled none (line 1) sold.0 not_of_eight

create-owned_example :
    All (λ (it : OrderLine). owns 9 shop.products it.product_id ≡ true) (line 3 ∷ [])
unfolding Create.create Create.check_ownership v_backend.Base.where_rows v_backend.Base.includes
    v_backend.Base.distinct Create.check_lines Create.check_line v_backend.Base.find_row ◌-ℤ◌
    Create.insert_order v_backend.Base.any_row Create.insert_charge
create-owned_example = create-owned 5 (sale_of 3) shop (tt, tt) refl

abbrev canceled_once : Db
unfolding update_status
canceled_once = result_of shop (update_status ctx 1 OrderStatus.canceled none sold.0)

abbrev canceled_twice : Db
unfolding update_status
canceled_twice = result_of shop (update_status ctx 1 OrderStatus.canceled none canceled_once)

update_status-cancel_again_example :
    (canceled_twice.stocks ≡ canceled_once.stocks)
    × (canceled_twice.backorders ≡ canceled_once.backorders)
unfolding sold canceled_once canceled_twice Create.create Create.check_ownership
    v_backend.Base.where_rows v_backend.Base.includes v_backend.Base.distinct Create.check_lines
    Create.check_line v_backend.Base.find_row ◌-ℤ◌ Create.insert_order v_backend.Base.any_row
    Create.insert_charge Create.sell_lines Create.sell_line v_backend.Base.◌+ℤ◌
    v_backend.Base.text_eq v_backend.Base.update_rows v_backend.Db.Stock.find_product find_stock
    v_backend.Db.Stock.is_pending v_backend.Db.Stock.update_stock v_backend.Db.Tenant.may_access
    v_backend.Orders.Change.cancel_backorders v_backend.Orders.Change.is_canceled items_of
    v_backend.Orders.Change.restore_item v_backend.Orders.Change.restore_items
    v_backend.Orders.Change.restore_stock v_backend.Orders.Change.set_status
    v_backend.Orders.Change.update_billing v_backend.Orders.Change.update_billings
    Create.add_backorder Create.available_of Create.create_items Create.insert_billing
    Create.insert_item Create.oversell Create.owned_count Create.record_backorders
    Create.running_get Create.sort_items update_status
    v_backend.Orders.Change.require_order_in_tenant find_order add_item discount_of total_of
    v_backend.Orders.Lines.owed_by v_backend.Orders.Lines.update_totals
    v_backend.Orders.Lines.new_item v_backend.Orders.Lines.insert_item v_backend.Base.sum_by
    outstanding
update_status-cancel_again_example = update_status-cancel_again ctx 1 none none sold.0 refl refl

abbrev reopened : Db
unfolding update_status
reopened = result_of shop (update_status ctx 1 OrderStatus.confirmed none canceled_once)

abbrev canceled_anew : Db
unfolding update_status
canceled_anew = result_of shop (update_status ctx 1 OrderStatus.canceled none reopened)

update_status_reopened_example :
    find_stock 1 canceled_anew.stocks ≡ Option.map (raise 6) (find_stock 1 (sold.0).stocks)
unfolding v_backend.Orders.Change.Restore.held sold canceled_once canceled_twice reopened
    canceled_anew Create.create Create.check_ownership v_backend.Base.where_rows
    v_backend.Base.includes v_backend.Base.distinct Create.check_lines Create.check_line
    v_backend.Base.find_row ◌-ℤ◌ Create.insert_order v_backend.Base.any_row Create.insert_charge
    Create.sell_lines Create.sell_line v_backend.Base.◌+ℤ◌ v_backend.Base.text_eq
    v_backend.Base.update_rows v_backend.Db.Stock.find_product find_stock
    v_backend.Db.Stock.is_pending v_backend.Db.Stock.update_stock v_backend.Db.Tenant.may_access
    v_backend.Orders.Change.cancel_backorders v_backend.Orders.Change.is_canceled items_of
    v_backend.Orders.Change.restore_item v_backend.Orders.Change.restore_items
    v_backend.Orders.Change.restore_stock v_backend.Orders.Change.set_status
    v_backend.Orders.Change.update_billing v_backend.Orders.Change.update_billings
    Create.add_backorder Create.available_of Create.create_items Create.insert_billing
    Create.insert_item Create.oversell Create.owned_count Create.record_backorders
    Create.running_get Create.sort_items update_status
    v_backend.Orders.Change.require_order_in_tenant find_order add_item discount_of total_of
    v_backend.Orders.Lines.owed_by v_backend.Orders.Lines.update_totals
    v_backend.Orders.Lines.new_item v_backend.Orders.Lines.insert_item v_backend.Base.sum_by
    outstanding
update_status_reopened_example =
    update_status_reopened ctx 1 1 OrderStatus.confirmed none none none sold.0 refl refl refl refl
      refl refl

abbrev discounted_line : OrderLine
discounted_line = record {
  product_id = 1;
  quantity = 1;
  unit_price = 10;
  discount = 4;
  total = pos 6;
}

abbrev an_item : OrderItem
an_item = record {
  id = 0;
  order_id = 0;
  product_id = 0;
  quantity = 0;
  unit_price = 0;
  discount = 0;
  total = pos 0;
}

abbrev extended : Db × OrderItem
unfolding add_item
extended = result_of (shop, an_item) (add_item ctx 6 1 discounted_line sold.0)

four_off : discount_of (items_of 1 (extended.0).order_items) ≢ 0
unfolding sold canceled_once canceled_twice reopened canceled_anew extended Create.create
    Create.check_ownership v_backend.Base.where_rows v_backend.Base.includes v_backend.Base.distinct
    Create.check_lines Create.check_line v_backend.Base.find_row ◌-ℤ◌ Create.insert_order
    v_backend.Base.any_row Create.insert_charge Create.sell_lines Create.sell_line
    v_backend.Base.◌+ℤ◌ v_backend.Base.text_eq v_backend.Base.update_rows
    v_backend.Db.Stock.find_product find_stock v_backend.Db.Stock.is_pending
    v_backend.Db.Stock.update_stock v_backend.Db.Tenant.may_access
    v_backend.Orders.Change.cancel_backorders v_backend.Orders.Change.is_canceled items_of
    v_backend.Orders.Change.restore_item v_backend.Orders.Change.restore_items
    v_backend.Orders.Change.restore_stock v_backend.Orders.Change.set_status
    v_backend.Orders.Change.update_billing v_backend.Orders.Change.update_billings
    Create.add_backorder Create.available_of Create.create_items Create.insert_billing
    Create.insert_item Create.oversell Create.owned_count Create.record_backorders
    Create.running_get Create.sort_items update_status
    v_backend.Orders.Change.require_order_in_tenant find_order add_item discount_of total_of
    v_backend.Orders.Lines.owed_by v_backend.Orders.Lines.update_totals
    v_backend.Orders.Lines.new_item v_backend.Orders.Lines.insert_item v_backend.Base.sum_by
    outstanding
four_off e = ground arith

add_item_totals_example :
    ((extended.0).order_items ≡ (sold.0).order_items ++ extended.1 ∷ [])
    × (o : Order) × (find_order 1 (extended.0).orders ≡ some o)
    × (o.subtotal ≡ pos 36)
    × (o.discount ≡ pos 4)
    × (o.total ≡ pos 32)
unfolding sold canceled_once canceled_twice reopened canceled_anew extended Create.create
    Create.check_ownership v_backend.Base.where_rows v_backend.Base.includes v_backend.Base.distinct
    Create.check_lines Create.check_line v_backend.Base.find_row ◌-ℤ◌ Create.insert_order
    v_backend.Base.any_row Create.insert_charge Create.sell_lines Create.sell_line
    v_backend.Base.◌+ℤ◌ v_backend.Base.text_eq v_backend.Base.update_rows
    v_backend.Db.Stock.find_product find_stock v_backend.Db.Stock.is_pending
    v_backend.Db.Stock.update_stock v_backend.Db.Tenant.may_access
    v_backend.Orders.Change.cancel_backorders v_backend.Orders.Change.is_canceled items_of
    v_backend.Orders.Change.restore_item v_backend.Orders.Change.restore_items
    v_backend.Orders.Change.restore_stock v_backend.Orders.Change.set_status
    v_backend.Orders.Change.update_billing v_backend.Orders.Change.update_billings
    Create.add_backorder Create.available_of Create.create_items Create.insert_billing
    Create.insert_item Create.oversell Create.owned_count Create.record_backorders
    Create.running_get Create.sort_items update_status
    v_backend.Orders.Change.require_order_in_tenant find_order add_item discount_of total_of
    v_backend.Orders.Lines.owed_by v_backend.Orders.Lines.update_totals
    v_backend.Orders.Lines.new_item v_backend.Orders.Lines.insert_item v_backend.Base.sum_by
    outstanding
add_item_totals_example = add_item_totals ctx 6 1 discounted_line sold.0 refl

add_item_double_discount_example : pos 32 ≢ pos 36
unfolding sold canceled_once canceled_twice reopened canceled_anew extended Create.create
    Create.check_ownership v_backend.Base.where_rows v_backend.Base.includes v_backend.Base.distinct
    Create.check_lines Create.check_line v_backend.Base.find_row ◌-ℤ◌ Create.insert_order
    v_backend.Base.any_row Create.insert_charge Create.sell_lines Create.sell_line
    v_backend.Base.◌+ℤ◌ v_backend.Base.text_eq v_backend.Base.update_rows
    v_backend.Db.Stock.find_product find_stock v_backend.Db.Stock.is_pending
    v_backend.Db.Stock.update_stock v_backend.Db.Tenant.may_access
    v_backend.Orders.Change.cancel_backorders v_backend.Orders.Change.is_canceled items_of
    v_backend.Orders.Change.restore_item v_backend.Orders.Change.restore_items
    v_backend.Orders.Change.restore_stock v_backend.Orders.Change.set_status
    v_backend.Orders.Change.update_billing v_backend.Orders.Change.update_billings
    Create.add_backorder Create.available_of Create.create_items Create.insert_billing
    Create.insert_item Create.oversell Create.owned_count Create.record_backorders
    Create.running_get Create.sort_items update_status
    v_backend.Orders.Change.require_order_in_tenant find_order add_item discount_of total_of
    v_backend.Orders.Lines.owed_by v_backend.Orders.Lines.update_totals
    v_backend.Orders.Lines.new_item v_backend.Orders.Lines.insert_item v_backend.Base.sum_by
    outstanding
add_item_double_discount_example =
    add_item_double_discount ctx 6 1 discounted_line sold.0 refl refl four_off

abbrev asked : CreateOrderDto
asked = record {
  customer_id = 4;
  order_number = 7 ∷ [];
  notes = none;
  items = record { product_id = 1; quantity = 2; unit_price = 10; discount = 50 } ∷ [];
}

create_data-amounts_example :
    All IsPriced (create_data 9 asked none).items
    × ((create_data 9 asked none).total ≡ total_of_lines (create_data 9 asked none).items)
    × ((create_data 9 asked none).total ≡ pos 20 -ℤ pos 20)
    × (pos 0 ≤ℤ (create_data 9 asked none).total)
unfolding create_data
create_data-amounts_example = create_data-amounts 9 asked none

abbrev charge : CreateOrderBillingData
charge = record {
  billing_number = 7 ∷ [];
  total_amount = pos 20;
  paid_amount = pos 0;
  payment_method = cash;
  payment_status = PaymentStatus.pending;
  status = BillingStatus.pending;
  due_date = none;
}

-- The charge of another seller's order.
abbrev foreign_charge : Billing
foreign_charge = record {
  id = 1;
  order_id = 77;
  billing_number = 7 ∷ [];
  status = BillingStatus.pending;
  total_amount = pos 5;
  paid_amount = pos 0;
  payment_method = cash;
  payment_status = PaymentStatus.pending;
  due_date = none;
  payment_date = none;
  notes = none;
}

create-number_taken_example :
    (e : HttpError) × (Create.create 5
        (record (sale_of 2) { billing = some charge })
        (record shop { billings = foreign_charge ∷ [] })
      ≡ err e)
unfolding v_backend.Base.any_row v_backend.Base.text_eq
create-number_taken_example =
    create-number_taken 5 (record (sale_of 2) { billing = some charge }) charge
      (record shop { billings = foreign_charge ∷ [] }) refl refl
