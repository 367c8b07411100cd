-- ===== src/Catalog/Ordering.antt =====
-- `CatalogService.createOrder`. The number of the order, which is made of the time and a random suffix,
-- is a parameter; notes and addresses are left out.
use v_backend.Base.{
  ℕ, ◌*◌, Bool, false, ◌&&◌, not, List, [], ◌∷◌, ◌++◌, map, Option, none, some, ◌==◌, if◌then◌else◌,
  find_row, where_rows, any_row, includes, distinct, length, sum_by, pos, ◌-ℤ◌, ltb_ℤ, ok, err,
  bad_request, not_found, unique_violation,
}
use v_backend.Base.Effects.{Effect, ◌>>=◌, throw}
use v_backend.Db.Rows.{StoreStock}
use v_backend.Catalog.Data.{
  Account, Product, ProductPrice, Promotion, Order, OrderItem, pending, Shop,
}
use v_backend.Catalog.Customers.{
  CatalogCustomer, find_store_id_by_slug, find_customer_by_id, find_customer_by_contact,
  create_customer,
}
use v_backend.Catalog.Products.{
  find_active_products, find_stocks, find_active_prices, find_active_promotions, price_of,
}

pub record CatalogOrderItem : Type 0 where
  pub product_id : ℕ
  pub quantity : ℕ

pub record CreateCatalogOrder : Type 0 where
  pub items : List CatalogOrderItem
  pub customer_id : Option ℕ
  pub customer : Option CatalogCustomer

unfoldable pub product_ids : List CatalogOrderItem → List ℕ
product_ids items = map (λ (it : CatalogOrderItem). it.product_id) items

-- `validProducts.length === new Set(productIds).size`
unfoldable pub all_found : ℕ → List ℕ → Shop → Bool
unfolding find_active_products
all_found seller_id ids s =
    length (where_rows (λ (p : Product). includes ids p.id) (find_active_products seller_id s))
    == length (distinct ids)

-- A line whose product is tracked and short; each line is compared with the whole stock.
unfoldable pub is_short : List StoreStock → CatalogOrderItem → Bool
is_short stocks it = elim (find_row (λ x. x.product_id == it.product_id) stocks) [
  | none ↦ false
  | some x ↦ ltb_ℤ (x.quantity -ℤ x.reserved_quantity) (pos it.quantity)
]

-- The promotions overwrite the price one after the other.
unfoldable pub apply_promotions : List Promotion → ℕ → ℕ → ℕ
apply_promotions [] id price = price
apply_promotions (p ∷ ps) id price =
    apply_promotions ps id (if p.product_id == id then p.promotional_price else price)

-- `priceMap.get(id) || 0`
unfoldable pub charged_price : List ProductPrice → List Promotion → ℕ → ℕ
unfolding price_of apply_promotions
charged_price prices promotions id = elim (price_of prices id) [
  | none ↦ 0
  | some price ↦ apply_promotions promotions id price
]

unfoldable pub known_customer : ℕ → ℕ → Effect Shop ℕ
unfolding find_customer_by_id
known_customer seller_id id s = elim (find_customer_by_id id s) [
  | none ↦ (s, err bad_request)
  | some c ↦ if c.seller_id == seller_id then (s, ok c.id) else (s, err bad_request)
]

unfoldable pub customer_by_contact : ℕ → CatalogCustomer → Effect Shop ℕ
unfolding find_customer_by_contact create_customer
customer_by_contact seller_id c s =
    elim (find_customer_by_contact c.email c.phone c.document seller_id s) [
      | none ↦ create_customer seller_id c s
      | some existing ↦ (s, ok existing.id)
    ]

unfoldable pub resolve_customer : ℕ → Option ℕ → Option CatalogCustomer → Effect Shop ℕ
unfolding known_customer customer_by_contact
resolve_customer seller_id (some id) customer = known_customer seller_id id
resolve_customer seller_id none (some c) = customer_by_contact seller_id c
resolve_customer seller_id none none = throw bad_request

unfoldable pub order_item : (ℕ → ℕ) → CatalogOrderItem → OrderItem
order_item price it = record {
  product_id = it.product_id;
  quantity = it.quantity;
  unit_price = price it.product_id;
  discount = 0;
  total = price it.product_id * it.quantity;
}

unfoldable pub new_order : ℕ → ℕ → ℕ → List OrderItem → Order
new_order seller_id number customer_id items =
    let subtotal = sum_by (λ (it : OrderItem). it.total) items in
    record {
      seller_id = seller_id;
      order_number = number;
      customer_id = customer_id;
      status = pending;
      subtotal = subtotal;
      discount = 0;
      total = subtotal;
      items = items;
    }

-- The number is unique for each seller.
unfoldable pub create_order_with_items : Order → Effect Shop Order
create_order_with_items o s =
    if any_row (λ (x : Order). x.seller_id == o.seller_id && x.order_number == o.order_number)
      s.orders
    then (s, err unique_violation)
    else (record s { orders = s.orders ++ o ∷ [] }, ok o)

-- From the customer on: the prices are read before.
unfoldable pub place : ℕ → ℕ → (ℕ → ℕ) → CreateCatalogOrder → Effect Shop Order
unfolding resolve_customer create_order_with_items new_order order_item
place seller_id number price dto =
    resolve_customer seller_id dto.customer_id dto.customer >>= λ customer_id.
    create_order_with_items
      (new_order seller_id number customer_id (map (order_item price) dto.items))

unfoldable pub order_in_store : ℕ → ℕ → CreateCatalogOrder → Account → Effect Shop Order
unfolding all_found is_short find_stocks charged_price find_active_prices find_active_promotions
    place product_ids
order_in_store now number dto store s =
    let ids = product_ids dto.items in
    let price = charged_price (find_active_prices now ids s) (find_active_promotions now ids s) in
    if not (all_found store.id ids s)
    then (s, err bad_request)
    else (if any_row (is_short (find_stocks ids s)) dto.items
        then (s, err bad_request)
        else place store.id number price dto s)

unfoldable pub create_order : ℕ → ℕ → ℕ → CreateCatalogOrder → Effect Shop Order
unfolding find_store_id_by_slug order_in_store
create_order now number slug dto s = elim dto.items [
  | [] ↦ (s, err bad_request)
  | it ∷ its ↦ elim (find_store_id_by_slug slug s) [
    | none ↦ (s, err not_found)
    | some store ↦ order_in_store now number dto store s
  ]
]
