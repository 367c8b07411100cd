-- ===== src/Stock/Movements/Accepted.antt =====
-- The steps that an accepted stock movement has passed, and the stock row that it leaves.

use v_backend.Base.{
  ℕ, ◌≡◌, refl, ◌∙◌, sym, ap, false, List, [], ◌∷◌, ◌++◌, Option, none, some, ok, >>=-eq-ok,
  ok-injective, or_throw-eq-ok, or_throw, throw_if, throw_if-passed, bad_request, arith, ==-refl,
  Option-cases, inl, inr, ℤ, pos, find_row,
}
use v_backend.Db.{Db}
use v_backend.Db.Rows.{Product, StoreStock, StockMovement}
use v_backend.Db.Stock.{find_stock, update_stock, find_stock-update_stock}
use v_backend.Db.Tenant.{TenantContext, tenant_filter}
use v_backend.Stock.Movements.{
  FulfilledBackorderInfo, quantity_of, reserved_of, upsert_stock, next_quantity, is_blocked,
  allocate_if_incoming, find_product_in, create,
}

find_product_in-id :
    (f : Option ℕ) (id : ℕ) (products : List Product) {x : Product}
    → find_product_in f id products ≡ some x
    → x.id ≡ id
unfolding find_product_in find_row
find_product_in-id f id [] e = cc
find_product_in-id f id (p ∷ ps) {x} e = ground (arith, find_product_in-id f id ps {x = x})

find_stock-append :
    (k : ℕ) (stocks : List StoreStock) (s : StoreStock)
    → s.product_id ≡ k
    → find_stock k stocks ≡ none
    → find_stock k (stocks ++ s ∷ []) ≡ some s
unfolding find_stock find_row
find_stock-append k [] s e h = ground arith
find_stock-append k (x ∷ xs) s e h = ground (arith, find_stock-append k xs s e)

abbrev new_row : Product → ℤ → StoreStock
new_row product n = record {
  seller_id = product.seller_id;
  product_id = product.id;
  quantity = n;
  reserved_quantity = pos 0;
  min_stock = pos 0;
  max_stock = pos 0;
}

upsert_stock-new :
    (product : Product) (n : ℤ) (stocks : List StoreStock)
    → find_stock product.id stocks ≡ none
    → upsert_stock product n stocks ≡ stocks ++ new_row product n ∷ []
unfolding upsert_stock
upsert_stock-new product n stocks missing = ground (arith, missing)

upsert_stock-known :
    (product : Product) (n : ℤ) (stocks : List StoreStock) {s : StoreStock}
    → find_stock product.id stocks ≡ some s
    → upsert_stock product n stocks
      ≡ update_stock product.id (λ x. record x { quantity = n }) stocks
unfolding upsert_stock
upsert_stock-known product n stocks found = ground (arith, found)

-- The stock row of the product after the upsert.
pub upsert_stock_lem :
    (product : Product) (n : ℤ) (stocks : List StoreStock)
    → (s : StoreStock) × (find_stock product.id (upsert_stock product n stocks) ≡ some s)
      × (s.quantity ≡ n)
      × (s.reserved_quantity ≡ reserved_of (find_stock product.id stocks))
unfolding reserved_of
upsert_stock_lem product n stocks = elim (Option-cases (find_stock product.id stocks)) [
  | inl missing ↦ (
    new_row product n,
    ap (find_stock product.id) (upsert_stock-new product n stocks missing)
        ∙ find_stock-append product.id stocks (new_row product n) refl missing,
    refl,
    sym (ap reserved_of missing),
  )
  | inr (s, found) ↦ (
    record s { quantity = n },
    ap (find_stock product.id) (upsert_stock-known product n stocks found)
        ∙ find_stock-update_stock product.id product.id (λ x. record x { quantity = n }) stocks
            (λ x. refl)
        ∙ rw (==-refl product.id, found) refl,
    refl,
    sym (ap reserved_of found),
  )
]

-- The steps that an accepted movement has passed.
pub record IsAccepted (ctx : TenantContext) (now : ℕ) (d : StockMovement) (db : Db)
    (r : Db × List FulfilledBackorderInfo) : Type 0 where
  pub product : Product
  pub id_eq : product.id ≡ d.product_id
  pub open_eq :
      is_blocked d.movement_type
        (next_quantity d.movement_type (quantity_of (find_stock d.product_id db.stocks)) d.quantity)
      ≡ false
  pub stocks_eq :
      (r.0).stocks
      ≡ upsert_stock product
          (next_quantity d.movement_type
            (quantity_of (find_stock d.product_id db.stocks))
            d.quantity)
          db.stocks
  pub movements_eq : (r.0).movements ≡ db.movements ++ d ∷ []
  pub backorders_eq :
      (r.0).backorders
      ≡ (allocate_if_incoming d.movement_type now product db.orders
          (quantity_of (find_stock d.product_id db.stocks))
          (next_quantity d.movement_type
            (quantity_of (find_stock d.product_id db.stocks))
            d.quantity)
          (reserved_of (find_stock d.product_id db.stocks))
          db.backorders).0

pub create-IsAccepted :
    (ctx : TenantContext) (now : ℕ) (d : StockMovement) (db : Db)
    {r : Db × List FulfilledBackorderInfo}
    → create ctx now d db ≡ ok r
    → IsAccepted ctx now d db r
unfolding create
create-IsAccepted ctx now d db {r} e =
    let filter = >>=-eq-ok (tenant_filter ctx) _ e in
    let product =
      >>=-eq-ok (or_throw (find_product_in filter.0 d.product_id db.products) bad_request) _
        filter.2 in
    let next =
      next_quantity d.movement_type (quantity_of (find_stock d.product_id db.stocks)) d.quantity in
    let passed = >>=-eq-ok (throw_if (is_blocked d.movement_type next) bad_request) _ product.2 in
    let same = sym (ok-injective passed.2) in
    record {
      product = product.0;
      id_eq = find_product_in-id filter.0 d.product_id db.products (or_throw-eq-ok _ _ product.1);
      open_eq = throw_if-passed _ _ passed.1;
      stocks_eq = ap (λ x. (x.0).stocks) same;
      movements_eq = ap (λ x. (x.0).movements) same;
      backorders_eq = ap (λ x. (x.0).backorders) same;
    }
