-- ===== src/Catalog/Listing.antt =====
-- What the listing of a store shows its customers.
use v_backend.Base.{
  ℕ, true, false, List, [], ◌∷◌, map, none, some, ◌==◌, ==-refl, includes, find_row, where_rows, ok,
  ok-injective, ◌≡◌, refl, sym, ◌∙◌, ap, ◌⊎◌, inl, inr, Bool-cases, Option-cases, All, arith,
}
use mathlib.Core.List.{Memᴰ}
use mathlib.Core.List.Memᴰ
use v_backend.Base.Keys.{where_rows-meets}
use v_backend.Base.Members.{All-members, All-at, where_rows-Memᴰ, Memᴰ-where_rows}
use v_backend.Catalog.Data.{Account, Product, ProductPrice, Promotion, Shop}
use v_backend.Catalog.Customers.{find_store_id_by_slug}
use v_backend.Catalog.Products.{
  ListedProduct, is_shown, find_active_products, find_active_prices, find_active_promotions,
  find_stocks, find_stock_by_product, shown_stock, list_product, list_products,
  list_products_for_seller, get_store_products,
}
use v_backend.Catalog.Prices.{
  is_price_of, is_promotion_of, IsListPrice, IsNewestPromotion, price_of-cases, promotion_of-cases,
}
use v_backend.Catalog.Sold.{find_row-asked}

-- A product as it is listed: with its list price, or with the price of its newest promotion beside it.
abbrev pub IsPricedAs : ℕ → ℕ → Shop → ListedProduct → Type 0
IsPricedAs now id s l =
    (p : ProductPrice) × IsListPrice now id s p
    × ((All (λ x. is_promotion_of now id x ≡ false) s.promotions
          × (l.price ≡ p.price)
          × (l.original_price ≡ none))
        ⊎ ((q : Promotion) × IsNewestPromotion now id s q
            × (l.price ≡ q.promotional_price)
            × (l.original_price ≡ some p.price)))

-- The entry is that of a product that the store shows.
abbrev pub IsListed : ℕ → ℕ → Shop → ListedProduct → Type 0
IsListed now seller_id s l =
    (x : Product) × Memᴰ x s.products
    × (is_shown seller_id x ≡ true)
    × (l.id ≡ x.id)
    × IsPricedAs now x.id s l
    × (l.available_stock ≡ shown_stock (find_stock_by_product x.id s))

-- The product is not shown, has no price in force, or has an entry.
abbrev pub IsCovered : ℕ → ℕ → Shop → List ListedProduct → Product → Type 0
IsCovered now seller_id s ls x =
    (is_shown seller_id x ≡ false)
    ⊎ (All (λ p. is_price_of now x.id p ≡ false) s.prices
        ⊎ ((l : ListedProduct) × Memᴰ l ls × (l.id ≡ x.id)))

module _ (now : ℕ) (ids : List ℕ) (s : Shop) where
  abbrev entry : Product → List ListedProduct
  entry =
      list_product (find_active_prices now ids s) (find_active_promotions now ids s)
        (find_stocks ids s)

  -- The entry of one product, if it has one.
  entry-cases :
      (x : Product)
      → includes ids x.id ≡ true
      → (All (λ p. is_price_of now x.id p ≡ false) s.prices × (entry x ≡ []))
        ⊎ ((l : ListedProduct) × (entry x ≡ l ∷ [])
            × (l.id ≡ x.id)
            × IsPricedAs now x.id s l
            × (l.available_stock ≡ shown_stock (find_stock_by_product x.id s)))
  unfolding list_product find_stocks find_stock_by_product
  entry-cases x asked = elim (price_of-cases now x.id ids s asked) [
    | inl (unpriced, missing) ↦ inl (unpriced, rw (missing, list_product) refl)
    | inr (p, newest, found) ↦
        let stock = ap shown_stock (find_row-asked ids x.id s.stocks asked) in
        elim (promotion_of-cases now x.id ids s asked) [
          | inl (none_running, regular) ↦ inr (
            record {
              id = x.id;
              price = p.price;
              original_price = none;
              available_stock =
                  shown_stock (find_row (λ y. y.product_id == x.id) (find_stocks ids s));
            },
            rw (found, regular, list_product) refl,
            refl,
            (p, newest, inl (none_running, refl, refl)),
            stock,
          )
          | inr (q, running, promotion) ↦ inr (
            record {
              id = x.id;
              price = q.promotional_price;
              original_price = some p.price;
              available_stock =
                  shown_stock (find_row (λ y. y.product_id == x.id) (find_stocks ids s));
            },
            rw (found, promotion, list_product) refl,
            refl,
            (p, newest, inr (q, running, refl, refl)),
            stock,
          )
        ]
  ]

  abbrev entries : List Product → List ListedProduct
  entries =
      list_products (find_active_prices now ids s) (find_active_promotions now ids s)
        (find_stocks ids s)

  entries-IsListed :
      (seller_id : ℕ) (xs : List Product)
      → All (λ (x : Product). includes ids x.id ≡ true) xs
      → All (λ (x : Product). Memᴰ x s.products × (is_shown seller_id x ≡ true)) xs
      → All (IsListed now seller_id s) (entries xs)
  unfolding list_products
  entries-IsListed seller_id [] asked shown = tt
  entries-IsListed seller_id (x ∷ xs) asked shown = elim (entry-cases x asked.0) [
    | inl (unpriced, nothing) ↦ rw nothing (entries-IsListed seller_id xs asked.1 shown.1)
    | inr (l, one, id, priced, stock) ↦ rw one (
      (x, shown.0.0, shown.0.1, id, priced, stock),
      entries-IsListed seller_id xs asked.1 shown.1,
    )
  ]

  entries-covers :
      (x : Product) (xs : List Product)
      → includes ids x.id ≡ true
      → Memᴰ x xs
      → All (λ p. is_price_of now x.id p ≡ false) s.prices
        ⊎ ((l : ListedProduct) × Memᴰ l (entries xs) × (l.id ≡ x.id))
  unfolding list_products
  entries-covers x [] asked m = absurd (Memᴰ.not-nil m)
  entries-covers x (y ∷ xs) asked m = elim (Memᴰ.cases_cons m) [
    | inl same ↦ elim (entry-cases x asked) [
      | inl (unpriced, nothing) ↦ inl unpriced
      | inr (l, one, id, priced, stock) ↦
          inr (l, rw (ap entry (sym same) ∙ one) (Memᴰ.head refl), id)
    ]
    | inr later ↦ elim (entries-covers x xs asked later) [
      | inl unpriced ↦ inl unpriced
      | inr (l, there, id) ↦ inr (l, Memᴰ.append_right (entry y) there, id)
    ]
  ]

own_id :
    (x : Product) (xs : List Product)
    → Memᴰ x xs
    → includes (map (λ (p : Product). p.id) xs) x.id ≡ true
unfolding includes
own_id x [] m = absurd (Memᴰ.not-nil m)
own_id x (y ∷ xs) m = elim (Memᴰ.cases_cons m) [
  | inl same ↦ rw (sym same) (rw (==-refl x.id) refl)
  | inr later ↦ ground (arith, own_id x xs later)
]

-- The listing of a store (the call returns) is right and complete. Every entry is that of a product
-- that the store shows, with the newest price in force, or, where promotions are running, the price
-- of the newest one and the other price beside it, and with the units in stock less those that are
-- reserved, never below zero. Every product that the store shows and that has a price in force has
-- an entry.
pub get_store_products-IsListed :
    (now slug : ℕ) (s : Shop) (ls : List ListedProduct)
    → get_store_products now slug s ≡ ok ls
    → (store : Account) × (find_store_id_by_slug slug s ≡ some store)
      × All (IsListed now store.id s) ls
      × All (IsCovered now store.id s ls) s.products
unfolding get_store_products list_products_for_seller find_active_products
get_store_products-IsListed now slug s ls e = elim (Option-cases (find_store_id_by_slug slug s)) [
  | inl missing ↦ let impossible = rw (missing, get_store_products) at e in cc
  | inr (store, found) ↦
      let shown = where_rows (is_shown store.id) s.products in
      let ids = map (λ (p : Product). p.id) shown in
      let same : ls ≡ entries now ids s shown =
        ok-injective (sym (rw (found, get_store_products) at e)) in
      rw same (
        store,
        found,
        entries-IsListed now ids s store.id shown (All-members _ shown (λ x m. own_id x shown m)) (
            All-members _ shown λ x m. (
              where_rows-Memᴰ (is_shown store.id) x s.products m,
              All-at (λ y. is_shown store.id y ≡ true) x shown
                  (where_rows-meets (is_shown store.id) s.products) m,
            )),
        All-members _ s.products λ x m. elim (Bool-cases (is_shown store.id x)) [
          | inr hidden ↦ inl hidden
          | inl visible ↦
              let there = Memᴰ-where_rows (is_shown store.id) x s.products visible m in
              inr (entries-covers now ids s x shown (own_id x shown there) there)
        ],
      )
]
