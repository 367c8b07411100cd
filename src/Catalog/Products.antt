-- ===== src/Catalog/Products.antt =====
-- `PrismaCatalogRepository`: products, prices, promotions and stock; `CatalogService`: the listing. Its
-- order by name and the columns that are only shown are left out.
use v_backend.Base.{
  ℕ, Bool, true, false, ◌&&◌, not, List, [], ◌∷◌, ◌++◌, map, Option, none, some, ◌==◌, leb,
  find_row, where_rows, includes, ◌-ℤ◌, pos_part, Result, ok, err, not_found,
}
use mathlib.Core.Option
use v_backend.Base.Keys.{sort_by}
use v_backend.Db.Rows.{StoreStock}
use v_backend.Catalog.Data.{
  Product, ProductPrice, PriceType, cost, sale, wholesale, promotional, Promotion, PromotionStatus,
  active, scheduled, expired, Shop,
}
use v_backend.Catalog.Customers.{find_store_id_by_slug}

-- `active: true, deletedAt: null`
unfoldable pub is_active : Product → Bool
is_active p = elim p.deleted_at [ none ↦ p.active | some t ↦ false ]

-- A product that the store of the seller shows.
unfoldable pub is_shown : ℕ → Product → Bool
unfolding is_active
is_shown seller_id p = is_active p && p.seller_id == seller_id

unfoldable pub find_active_products : ℕ → Shop → List Product
unfolding is_shown
find_active_products seller_id s = where_rows (is_shown seller_id) s.products

unfoldable pub find_active_product_by_id : ℕ → Shop → Option Product
unfolding is_active
find_active_product_by_id id s = find_row (λ p. p.id == id && is_active p) s.products

unfoldable pub find_active_product_by_seller : ℕ → ℕ → Shop → Option Product
unfolding is_shown
find_active_product_by_seller id seller_id s =
    find_row (λ p. p.id == id && is_shown seller_id p) s.products

unfoldable pub is_sale : PriceType → Bool
is_sale cost = false
is_sale sale = true
is_sale wholesale = false
is_sale promotional = false

-- `valid_from` is null or has passed.
unfoldable pub is_valid : ℕ → Option ℕ → Bool
is_valid now none = true
is_valid now (some t) = leb t now

unfoldable pub is_in_force : ℕ → ProductPrice → Bool
unfolding is_sale is_valid
is_in_force now p = p.active && is_sale p.price_type && is_valid now p.valid_from

-- `orderBy: { createdAt: 'desc' }`
unfoldable pub newest_first : List ProductPrice → List ProductPrice
newest_first = sort_by λ a b. leb b.created_at a.created_at

unfoldable pub find_active_prices : ℕ → List ℕ → Shop → List ProductPrice
unfolding newest_first is_in_force
find_active_prices now ids s =
    newest_first (where_rows (λ p. includes ids p.product_id && is_in_force now p) s.prices)

unfoldable pub find_latest_price : ℕ → ℕ → Shop → Option ProductPrice
unfolding newest_first is_in_force
find_latest_price now id s =
    find_row (λ p. p.product_id == id && is_in_force now p) (newest_first s.prices)

unfoldable pub is_expired : PromotionStatus → Bool
is_expired active = false
is_expired scheduled = false
is_expired expired = true

unfoldable pub is_running : ℕ → Promotion → Bool
unfolding is_expired
is_running now p = leb p.start_date now && leb now p.end_date && not (is_expired p.status)

unfoldable pub find_active_promotions : ℕ → List ℕ → Shop → List Promotion
unfolding is_running
find_active_promotions now ids s =
    sort_by (λ a b. leb b.created_at a.created_at)
      (where_rows (λ p. includes ids p.product_id && is_running now p) s.promotions)

unfoldable pub find_stocks : List ℕ → Shop → List StoreStock
find_stocks ids s = where_rows (λ x. includes ids x.product_id) s.stocks

unfoldable pub find_stock_by_product : ℕ → Shop → Option StoreStock
find_stock_by_product id s = find_row (λ x. x.product_id == id) s.stocks

-- `priceMap.get(id)`, of a map that keeps the first price of a product.
unfoldable pub price_of : List ProductPrice → ℕ → Option ℕ
price_of prices id =
    Option.map (λ (p : ProductPrice). p.price) (find_row (λ p. p.product_id == id) prices)

-- `promotionMap.get(id)` of the listing: the first promotion of a product.
unfoldable pub promotion_of : List Promotion → ℕ → Option ℕ
promotion_of promotions id =
    Option.map (λ (p : Promotion). p.promotional_price)
      (find_row (λ p. p.product_id == id) promotions)

-- `stockMap.get(id) || 0`: never below zero.
unfoldable pub shown_stock : Option StoreStock → ℕ
shown_stock none = 0
shown_stock (some x) = pos_part (x.quantity -ℤ x.reserved_quantity)

pub record ListedProduct : Type 0 where
  pub id : ℕ
  pub price : ℕ
  pub original_price : Option ℕ
  pub available_stock : ℕ

-- `a ?? b`
abbrev pub or_else : Option ℕ → ℕ → ℕ
or_else none b = b
or_else (some a) b = a

-- A product without a price is not listed.
unfoldable pub list_product :
    List ProductPrice → List Promotion → List StoreStock → Product → List ListedProduct
unfolding price_of promotion_of shown_stock
list_product prices promotions stocks p = elim (price_of prices p.id) [
  | none ↦ []
  | some price ↦
      record {
        id = p.id;
        price = or_else (promotion_of promotions p.id) price;
        original_price = Option.map (λ promoted. price) (promotion_of promotions p.id);
        available_stock = shown_stock (find_row (λ x. x.product_id == p.id) stocks);
      }
      ∷ []
]

unfoldable pub list_products :
    List ProductPrice → List Promotion → List StoreStock → List Product → List ListedProduct
unfolding list_product
list_products prices promotions stocks [] = []
list_products prices promotions stocks (p ∷ ps) =
    list_product prices promotions stocks p ++ list_products prices promotions stocks ps

unfoldable pub list_products_for_seller : ℕ → ℕ → Shop → List ListedProduct
unfolding find_active_products find_active_prices find_active_promotions find_stocks list_products
list_products_for_seller now seller_id s =
    let products = find_active_products seller_id s in
    let ids = map (λ (p : Product). p.id) products in
    list_products (find_active_prices now ids s) (find_active_promotions now ids s)
      (find_stocks ids s) products

unfoldable pub get_store_products : ℕ → ℕ → Shop → Result (List ListedProduct)
unfolding find_store_id_by_slug list_products_for_seller
get_store_products now slug s = elim (find_store_id_by_slug slug s) [
  | none ↦ err not_found
  | some store ↦ ok (list_products_for_seller now store.id s)
]

-- The page of one product shows no promotion.
unfoldable pub get_product_by_id : ℕ → ℕ → Shop → Result ListedProduct
unfolding find_active_product_by_id find_latest_price find_stock_by_product shown_stock
get_product_by_id now id s = elim (find_active_product_by_id id s) [
  | none ↦ err not_found
  | some p ↦ ok (record {
    id = p.id;
    price = or_else (Option.map (λ (x : ProductPrice). x.price) (find_latest_price now id s)) 0;
    original_price = none;
    available_stock = shown_stock (find_stock_by_product id s);
  })
]

unfoldable pub get_store_product_by_id : ℕ → ℕ → ℕ → Shop → Result ListedProduct
unfolding find_store_id_by_slug find_active_product_by_seller get_product_by_id
get_store_product_by_id now slug id s = elim (find_store_id_by_slug slug s) [
  | none ↦ err not_found
  | some store ↦ elim (find_active_product_by_seller id store.id s) [
    | none ↦ err not_found
    | some p ↦ get_product_by_id now id s
  ]
]
