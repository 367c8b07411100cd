-- ===== src/Catalog/Prices.antt =====
-- What a product costs the customers of a store, by the rows of its prices and promotions.
use v_backend.Base.{
  ℕ, ◌≤◌, Bool, true, false, ◌&&◌, List, [], ◌∷◌, Option, none, some, ◌==◌, ==_iff, if◌then◌else◌,
  find_row, where_rows, includes, ◌≡◌, refl, sym, ◌∙◌, ap, ◌⊎◌, inl, inr, Bool-cases, Option-cases,
  All, arith,
}
use mathlib.Core.Option
use mathlib.Core.List.{Memᴰ}
use v_backend.Base.Keys.{All-map, sort_by}
use v_backend.Base.Members.{
  All-members, All-at, find_row-Memᴰ, find_row-none, IsDescending, sort_by-IsDescending,
  find_row-newest, is_later,
}
use v_backend.Catalog.Queried.{answered-Memᴰ, answered-All, answered-none}
use v_backend.Catalog.Data.{ProductPrice, Promotion, Shop}
use v_backend.Catalog.Products.{
  is_in_force, is_running, find_active_prices, find_active_promotions, newest_first, price_of,
  promotion_of,
}
use v_backend.Catalog.Ordering.{apply_promotions, charged_price}

-- The row is a price of the product that is in force.
unfoldable pub is_price_of : ℕ → ℕ → ProductPrice → Bool
unfolding is_in_force
is_price_of now id p = p.product_id == id && is_in_force now p

-- The row is a promotion of the product that is running.
unfoldable pub is_promotion_of : ℕ → ℕ → Promotion → Bool
unfolding is_running
is_promotion_of now id q = q.product_id == id && is_running now q

-- The price of the product: the newest one in force.
abbrev pub IsListPrice : ℕ → ℕ → Shop → ProductPrice → Type 0
IsListPrice now id s p =
    Memᴰ p s.prices
    × (is_price_of now id p ≡ true)
    × All (λ x. (is_price_of now id x ≡ false) ⊎ (x.created_at ≤ p.created_at)) s.prices

-- The promotion that counts for an order: the oldest one that is running.
abbrev pub IsOldestPromotion : ℕ → ℕ → Shop → Promotion → Type 0
IsOldestPromotion now id s q =
    Memᴰ q s.promotions
    × (is_promotion_of now id q ≡ true)
    × All (λ x. (is_promotion_of now id x ≡ false) ⊎ (q.created_at ≤ x.created_at)) s.promotions

-- What an order charges for a product: nothing where no price is in force, the list price where no
-- promotion is running, else the promotional price.
abbrev pub IsDue : ℕ → ℕ → Shop → ℕ → Type 0
IsDue now id s n =
    (All (λ x. is_price_of now id x ≡ false) s.prices × (n ≡ 0))
    ⊎ ((p : ProductPrice) × IsListPrice now id s p
        × ((All (λ x. is_promotion_of now id x ≡ false) s.promotions × (n ≡ p.price))
            ⊎ ((q : Promotion) × IsOldestPromotion now id s q × (n ≡ q.promotional_price))))

-- The last promotion of a product in a list that the newest one heads.
apply_promotions-last :
    (id n : ℕ) (ps : List Promotion)
    → IsDescending (λ (x : Promotion). x.created_at) ps
    → (All (λ (x : Promotion). (x.product_id == id) ≡ false) ps × (apply_promotions ps id n ≡ n))
      ⊎ ((q : Promotion) × Memᴰ q ps
          × ((q.product_id == id) ≡ true)
          × All
              (λ (x : Promotion). ((x.product_id == id) ≡ false) ⊎ (q.created_at ≤ x.created_at))
              ps
          × (apply_promotions ps id n ≡ q.promotional_price))
unfolding apply_promotions
apply_promotions-last id n [] d = inl (tt, refl)
apply_promotions-last id n (p ∷ ps) d =
    elim (apply_promotions-last id (if p.product_id == id then p.promotional_price else n) ps d.1) [
      | inr (q, there, own, oldest, price) ↦ inr (
        q,
        Memᴰ.tail there,
        own,
        (inr (All-at (λ (x : Promotion). x.created_at ≤ p.created_at) q ps d.0 there), oldest),
        price,
      )
      | inl (others, price) ↦ elim (Bool-cases (p.product_id == id)) [
        | inl own ↦ inr (
          p,
          Memᴰ.head refl,
          own,
          (
            inr (omega arith),
            All-map (λ (x : Promotion). (x.product_id == id) ≡ false) (λ x. Unit {0}) _
                (λ x other _. inl other) ps others (All-members (λ x. Unit {0}) ps (λ x m. tt)),
          ),
          price ∙ rw own refl,
        )
        | inr other ↦ inl ((other, others), price ∙ rw other refl)
      ]
    ]

promoted :
    (now id n : ℕ) (ids : List ℕ) (s : Shop)
    → includes ids id ≡ true
    → let charged = apply_promotions (find_active_promotions now ids s) id n in
      (All (λ x. is_promotion_of now id x ≡ false) s.promotions × (charged ≡ n))
      ⊎ ((q : Promotion) × IsOldestPromotion now id s q × (charged ≡ q.promotional_price))
unfolding find_active_promotions is_promotion_of
promoted now id n ids s asked =
    let product = λ (x : Promotion). x.product_id in
    let later = is_later (λ (x : Promotion). x.created_at) in
    elim (apply_promotions-last id n _ (
      sort_by-IsDescending (λ (x : Promotion). x.created_at)
        (where_rows (λ (x : Promotion). includes ids x.product_id && is_running now x)
          s.promotions))) [
            | inl (others, price) ↦ inl (
              answered-none product (is_running now) later ids id s.promotions asked others,
              price,
            )
            | inr (q, there, own, oldest, price) ↦
                let (stored, counts) =
                  answered-Memᴰ product (is_running now) later ids id s.promotions q there own in
                inr (
                  q,
                  (
                    stored,
                    counts,
                    answered-All product (is_running now) later ids id s.promotions
                        (λ x. q.created_at ≤ x.created_at) asked oldest,
                  ),
                  price,
                )
          ]

-- The price of a product in the answer to the query, and in the table.
pub price_of-cases :
    (now id : ℕ) (ids : List ℕ) (s : Shop)
    → includes ids id ≡ true
    → (All (λ x. is_price_of now id x ≡ false) s.prices
        × (price_of (find_active_prices now ids s) id ≡ none))
      ⊎ ((p : ProductPrice) × IsListPrice now id s p
          × (price_of (find_active_prices now ids s) id ≡ some p.price))
unfolding price_of find_active_prices newest_first is_price_of
price_of-cases now id ids s asked =
    let product = λ (p : ProductPrice). p.product_id in
    let later = is_later (λ (p : ProductPrice). p.created_at) in
    let queried = λ (p : ProductPrice). includes ids p.product_id && is_in_force now p in
    let prices = sort_by later (where_rows queried s.prices) in
    let own = λ (p : ProductPrice). p.product_id == id in
    elim (Option-cases (find_row own prices)) [
      | inl missing ↦ inl (
        answered-none product (is_in_force now) later ids id s.prices asked
            (find_row-none own prices missing),
        ap (Option.map (λ (p : ProductPrice). p.price)) missing,
      )
      | inr (p, found) ↦
          let (there, counts) =
            answered-Memᴰ product (is_in_force now) later ids id s.prices p
              (find_row-Memᴰ own prices found) (v_backend.Base.find_row-meets own prices found) in
          inr (
            p,
            (
              there,
              counts,
              answered-All product (is_in_force now) later ids id s.prices
                  (λ x. x.created_at ≤ p.created_at) asked
                  (find_row-newest (λ (x : ProductPrice). x.created_at) own prices
                    (sort_by-IsDescending (λ (x : ProductPrice). x.created_at) _) found),
            ),
            ap (Option.map (λ (x : ProductPrice). x.price)) found,
          )
    ]

-- What `createOrder` charges for a product that it has asked the prices of.
pub charged_price-IsDue :
    (now id : ℕ) (ids : List ℕ) (s : Shop)
    → includes ids id ≡ true
    → IsDue now id s
        (charged_price (find_active_prices now ids s) (find_active_promotions now ids s) id)
unfolding charged_price
charged_price-IsDue now id ids s asked = elim (price_of-cases now id ids s asked) [
  | inl (unpriced, missing) ↦ inl (unpriced, rw (missing, charged_price) refl)
  | inr (p, newest, found) ↦
      inr (p, newest, rw (found, charged_price) (promoted now id p.price ids s asked))
]

-- The promotion that the listing shows: the newest one that is running.
abbrev pub IsNewestPromotion : ℕ → ℕ → Shop → Promotion → Type 0
IsNewestPromotion now id s q =
    Memᴰ q s.promotions
    × (is_promotion_of now id q ≡ true)
    × All (λ x. (is_promotion_of now id x ≡ false) ⊎ (x.created_at ≤ q.created_at)) s.promotions

pub promotion_of-cases :
    (now id : ℕ) (ids : List ℕ) (s : Shop)
    → includes ids id ≡ true
    → (All (λ x. is_promotion_of now id x ≡ false) s.promotions
        × (promotion_of (find_active_promotions now ids s) id ≡ none))
      ⊎ ((q : Promotion) × IsNewestPromotion now id s q
          × (promotion_of (find_active_promotions now ids s) id ≡ some q.promotional_price))
unfolding promotion_of find_active_promotions is_promotion_of
promotion_of-cases now id ids s asked =
    let product = λ (q : Promotion). q.product_id in
    let later = is_later (λ (q : Promotion). q.created_at) in
    let queried = λ (q : Promotion). includes ids q.product_id && is_running now q in
    let rows = sort_by later (where_rows queried s.promotions) in
    let own = λ (q : Promotion). q.product_id == id in
    elim (Option-cases (find_row own rows)) [
      | inl missing ↦ inl (
        answered-none product (is_running now) later ids id s.promotions asked
            (find_row-none own rows missing),
        ap (Option.map (λ (q : Promotion). q.promotional_price)) missing,
      )
      | inr (q, found) ↦
          let (there, counts) =
            answered-Memᴰ product (is_running now) later ids id s.promotions q
              (find_row-Memᴰ own rows found) (v_backend.Base.find_row-meets own rows found) in
          inr (
            q,
            (
              there,
              counts,
              answered-All product (is_running now) later ids id s.promotions
                  (λ x. x.created_at ≤ q.created_at) asked
                  (find_row-newest (λ (x : Promotion). x.created_at) own rows
                    (sort_by-IsDescending (λ (x : Promotion). x.created_at) _) found),
            ),
            ap (Option.map (λ (x : Promotion). x.promotional_price)) found,
          )
    ]
