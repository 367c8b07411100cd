-- ===== src/Catalog/Sold.antt =====
-- What an order of a customer has been checked for.
use mathlib.Core.Path.{subst}
use mathlib.Core.List.{Memᴰ}
use mathlib.Core.List.Memᴰ
use v_backend.Base.Members.{All-members, All-at}
use v_backend.Db.Rows.{StoreStock}
use v_backend.Catalog.Prices.{IsDue, charged_price-IsDue}
use v_backend.Base.{
  find_row, where_rows, ==-refl, arith, Option, none, pos, ◌-ℤ◌, ◌≤ℤ◌, ℕ, ◌*◌, Bool, true, false,
  ◌&&◌, List, [], ◌∷◌, ◌++◌, map, some, ◌==◌, ==_iff, where_rows-where_rows, any_row, includes,
  distinct, length, sum_by, Result, ok, ok-injective, ◌≡◌, refl, sym, ◌∙◌, ap, ◌⊎◌, inl, inr,
  Bool-cases, Option-cases, All,
}
use v_backend.Base.Keys.{HasUniqueKeys}
use v_backend.Base.Counting.{has_row, listed, listed-includes, distinct-has_row}
use v_backend.Base.Effects.{>>=-returned}
use v_backend.Catalog.Data.{Account, Product, Order, OrderItem, Shop}
use v_backend.Catalog.Customers.{find_store_id_by_slug}
use v_backend.Catalog.Products.{
  find_active_products, find_stocks, find_active_prices, find_active_promotions, is_shown,
  find_stock_by_product,
}
use v_backend.Catalog.Ordering.{
  CatalogOrderItem, CreateCatalogOrder, product_ids, all_found, is_short, charged_price,
  resolve_customer, order_item, new_order, create_order_with_items, place, order_in_store,
  create_order,
}
use v_backend.Catalog.Buyers.{has_customer, resolve-IsResolved}

-- The store shows a product with the id.
unfoldable pub sells : ℕ → List Product → ℕ → Bool
unfolding has_row
sells seller_id = has_row (λ (p : Product). p.id) (is_shown seller_id)

ids-All :
    (P : ℕ → Bool) (items : List CatalogOrderItem)
    → All (λ (x : ℕ). P x ≡ true) (product_ids items)
    → All (λ (it : CatalogOrderItem). P it.product_id ≡ true) items
unfolding product_ids
ids-All P [] h = tt
ids-All P (it ∷ items) h = (h.0, ids-All P items h.1)

all_found-sells :
    (seller_id : ℕ) (items : List CatalogOrderItem) (s : Shop)
    → HasUniqueKeys (λ (p : Product). p.id) s.products
    → all_found seller_id (product_ids items) s ≡ true
    → All (λ (it : CatalogOrderItem). sells seller_id s.products it.product_id ≡ true) items
unfolding all_found find_active_products sells listed
all_found-sells seller_id items s unique e =
    let ids = product_ids items in
    let shown = is_shown seller_id in
    let counted : length (listed (λ (p : Product). p.id) shown (distinct ids) s.products)
        ≡ length (distinct ids) =
      ap length (listed-includes (λ (p : Product). p.id) shown ids s.products)
      ∙ ap length
          (sym (where_rows-where_rows shown (λ (p : Product). includes ids p.id) s.products))
      ∙ (==_iff _ _).0 e in
    ids-All (sells seller_id s.products) items
      (distinct-has_row (λ (p : Product). p.id) shown ids s.products unique counted)

total_of :
    (price : ℕ → ℕ) (items : List CatalogOrderItem)
    → sum_by (λ (it : OrderItem). it.total) (map (order_item price) items)
      ≡ sum_by (λ (it : CatalogOrderItem). price it.product_id * it.quantity) items
unfolding sum_by order_item
total_of price [] = refl
total_of price (it ∷ items) = rw (total_of price items) refl

insert-returned :
    (o : Order) (s t : Shop) {r : Order}
    → create_order_with_items o s ≡ (t, ok r)
    → (r ≡ o) × (t ≡ record s { orders = s.orders ++ o ∷ [] })
unfolding create_order_with_items
insert-returned o s t e =
    elim (Bool-cases (
      any_row (λ (x : Order). x.seller_id == o.seller_id && x.order_number == o.order_number)
        s.orders)) [
          | inl taken ↦ let impossible = rw taken at e in cc
          | inr fresh ↦
              let over = rw fresh at e in
              (
                ok-injective (ap (λ (x : Shop × Result Order). x.1) (sym over)),
                ap (λ (x : Shop × Result Order). x.0) (sym over),
              )
        ]

-- What an order that is placed is, and what it leaves.
abbrev IsPlaced : ℕ → (ℕ → ℕ) → List CatalogOrderItem → Shop → Shop → Order → Type 0
IsPlaced seller_id price items s t o =
    (o.seller_id ≡ seller_id)
    × (o.total ≡ sum_by (λ (it : CatalogOrderItem). price it.product_id * it.quantity) items)
    × (has_customer seller_id o.customer_id t ≡ true)
    × (t.stocks ≡ s.stocks)

place-IsPlaced :
    (seller_id number : ℕ) (price : ℕ → ℕ) (dto : CreateCatalogOrder) (s t : Shop) (o : Order)
    → place seller_id number price dto s ≡ (t, ok o)
    → IsPlaced seller_id price dto.items s t o
unfolding place new_order has_customer
place-IsPlaced seller_id number price dto s t o e =
    let row = λ (customer_id : ℕ).
      new_order seller_id number customer_id (map (order_item price) dto.items) in
    let (u, id, found, inserted) =
      >>=-returned (resolve_customer seller_id dto.customer_id dto.customer)
        (λ id. create_order_with_items (row id)) s t e in
    let (resolved, stocks) =
      resolve-IsResolved seller_id dto.customer_id dto.customer s u id found in
    let (made, left) = insert-returned (row id) u t inserted in
    (
      ap (λ (x : Order). x.seller_id) made,
      ap (λ (x : Order). x.total) made ∙ total_of price dto.items,
      ap (λ (x : Order). has_customer seller_id x.customer_id t) made
          ∙ ap (λ (x : Shop). has_customer seller_id id x) left
          ∙ resolved,
      ap (λ (x : Shop). x.stocks) left ∙ stocks,
    )

-- What each product of an order costs its customer.
unfoldable pub price_in : ℕ → List CatalogOrderItem → Shop → ℕ → ℕ
unfolding product_ids charged_price find_active_prices find_active_promotions
price_in now items s =
    charged_price (find_active_prices now (product_ids items) s)
      (find_active_promotions now (product_ids items) s)

store-IsPlaced :
    (now number : ℕ) (dto : CreateCatalogOrder) (store : Account) (s t : Shop) (o : Order)
    → order_in_store now number dto store s ≡ (t, ok o)
    → (all_found store.id (product_ids dto.items) s ≡ true)
      × (any_row (is_short (find_stocks (product_ids dto.items) s)) dto.items ≡ false)
      × IsPlaced store.id (price_in now dto.items s) dto.items s t o
unfolding order_in_store price_in
store-IsPlaced now number dto store s t o e =
    elim (Bool-cases (all_found store.id (product_ids dto.items) s)) [
      | inr unknown ↦ let impossible = rw (unknown, order_in_store) at e in cc
      | inl found ↦
          let inner = rw (found, order_in_store) at e in
          elim (Bool-cases (any_row (is_short (find_stocks (product_ids dto.items) s)) dto.items)) [
            | inl short ↦ let impossible = rw short at inner in cc
            | inr enough ↦ (
              found,
              enough,
              place-IsPlaced store.id number (price_in now dto.items s) dto s t o
                  (rw enough at inner),
            )
          ]
    ]

items_cases :
    (items : List CatalogOrderItem)
    → (items ≡ []) ⊎ ((it : CatalogOrderItem) × (its : List CatalogOrderItem) × (items ≡ it ∷ its))
items_cases [] = inl refl
items_cases (it ∷ its) = inr (it, its, refl)

in_store :
    (now number slug : ℕ) (dto : CreateCatalogOrder) (s t : Shop) (o : Order)
    → create_order now number slug dto s ≡ (t, ok o)
    → (store : Account) × (find_store_id_by_slug slug s ≡ some store)
      × (order_in_store now number dto store s ≡ (t, ok o))
unfolding create_order
in_store now number slug dto s t o e = elim (items_cases dto.items) [
  | inl nothing ↦ let impossible = rw (nothing, create_order) at e in cc
  | inr (it, its, some_items) ↦ elim (Option-cases (find_store_id_by_slug slug s)) [
    | inl missing ↦ let impossible = rw (some_items, missing, create_order) at e in cc
    | inr (store, present) ↦ (store, present, rw (some_items, present, create_order) at e)
  ]
]

-- The stock row of a product, where there is one, holds the units, less those that are reserved.
abbrev pub HasUnits : ℕ → Option StoreStock → Type 0
HasUnits n none = Unit
HasUnits n (some x) = pos n ≤ℤ (x.quantity -ℤ x.reserved_quantity)

pub find_row-asked :
    (ids : List ℕ) (id : ℕ) (xs : List StoreStock)
    → includes ids id ≡ true
    → find_row (λ x. x.product_id == id) (where_rows (λ x. includes ids x.product_id) xs)
      ≡ find_row (λ x. x.product_id == id) xs
unfolding find_row where_rows
find_row-asked ids id [] asked = refl
find_row-asked ids id (x ∷ xs) asked = elim (Bool-cases (x.product_id == id)) [
  | inl own ↦
      let there : includes ids x.product_id ≡ true =
        ap (includes ids) ((==_iff x.product_id id).0 own) ∙ asked in
      rw (there, own) refl
  | inr other ↦ elim (Bool-cases (includes ids x.product_id)) [
    | inl hit ↦ rw (hit, other) (find_row-asked ids id xs asked)
    | inr miss ↦ rw (miss, other) (find_row-asked ids id xs asked)
  ]
]

not_short :
    (stocks : List StoreStock) (it : CatalogOrderItem)
    → is_short stocks it ≡ false
    → HasUnits it.quantity (find_row (λ (x : StoreStock). x.product_id == it.product_id) stocks)
unfolding is_short
not_short stocks it h =
    elim (Option-cases (find_row (λ (x : StoreStock). x.product_id == it.product_id) stocks)) [
      | inl untracked ↦ rw untracked tt
      | inr (x, tracked) ↦ rw tracked (ground (arith, rw (tracked, is_short) at h))
    ]

none_short :
    (c : CatalogOrderItem → Bool) (items : List CatalogOrderItem)
    → any_row c items ≡ false
    → All (λ (it : CatalogOrderItem). c it ≡ false) items
unfolding any_row
none_short c [] h = tt
none_short c (it ∷ items) h = elim (Bool-cases (c it)) [
  | inl hit ↦ let impossible = rw hit at h in cc
  | inr miss ↦ (miss, none_short c items (rw miss at h))
]

asked :
    (it : CatalogOrderItem) (items : List CatalogOrderItem)
    → Memᴰ it items
    → includes (product_ids items) it.product_id ≡ true
unfolding includes product_ids
asked it [] m = absurd (Memᴰ.not-nil m)
asked it (x ∷ items) m = elim (Memᴰ.cases_cons m) [
  | inl same ↦ rw (sym same) (rw (==-refl it.product_id) refl)
  | inr later ↦ ground (arith, asked it items later)
]

-- An order that a customer places in a store (the call returns) is an order of that store for one of
-- its customers. Every line names a product that the store shows, and the stock row of the product,
-- where there is one, holds the units of the line, less those that are reserved. The total is the sum
-- of the lines' quantities times the prices that are due: the newest price in force, or that of the
-- oldest running promotion, and nothing for a product without a price. The stock is left as it was.
-- (The products have distinct ids.)
pub create_order-checked :
    (now number slug : ℕ) (dto : CreateCatalogOrder) (s t : Shop) (o : Order)
    → HasUniqueKeys (λ (p : Product). p.id) s.products
    → create_order now number slug dto s ≡ (t, ok o)
    → (store : Account) × (price : ℕ → ℕ) × (find_store_id_by_slug slug s ≡ some store)
      × All (λ (it : CatalogOrderItem). sells store.id s.products it.product_id ≡ true) dto.items
      × All
          (λ (it : CatalogOrderItem). HasUnits it.quantity (find_stock_by_product it.product_id s))
          dto.items
      × All (λ (it : CatalogOrderItem). IsDue now it.product_id s (price it.product_id)) dto.items
      × (o.seller_id ≡ store.id)
      × (o.total ≡ sum_by (λ (it : CatalogOrderItem). price it.product_id * it.quantity) dto.items)
      × (has_customer store.id o.customer_id t ≡ true)
      × (t.stocks ≡ s.stocks)
unfolding find_stocks find_stock_by_product price_in
create_order-checked now number slug dto s t o unique e =
    let (store, present, inner) = in_store now number slug dto s t o e in
    let (found, enough, placed) = store-IsPlaced now number dto store s t o inner in
    let ids = product_ids dto.items in
    let covered = none_short (is_short (find_stocks ids s)) dto.items enough in
    (
      store,
      price_in now dto.items s,
      present,
      all_found-sells store.id dto.items s unique found,
      All-members _ dto.items λ it m.
          subst (HasUnits it.quantity)
            (find_row-asked ids it.product_id s.stocks (asked it dto.items m))
            (not_short (find_stocks ids s) it (All-at _ it dto.items covered m)),
      All-members _ dto.items
          λ it m. charged_price-IsDue now it.product_id ids s (asked it dto.items m),
      placed.0,
      placed.1,
      placed.2,
      placed.3,
    )
