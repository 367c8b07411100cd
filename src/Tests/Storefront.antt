-- ===== src/Tests/Storefront.antt =====
-- A store, its customers, and a cache that is a function of the key.
use v_backend.Base.{distinct, find_row, includes, where_rows}
use v_backend.Catalog.Access.{has_password}
use v_backend.Catalog.Data.{pending}
use v_backend.Base.Keys.{insert_by, sort_by}
use v_backend.Base.{
  ℕ, ◌+◌, ◌*◌, ◌≤◌, ◌≡◌, refl, Bool, true, false, List, [], ◌∷◌, Option, none, some, Result, ok,
  err, bad_request, unauthorized, HttpError, arith, ◌==◌, ltb, if◌then◌else◌, All, inl, inr,
  Bool-cases, ℤ, pos, any_row, sum_by,
}
use v_backend.Catalog.Data.{Account, active, sale, Customer, Order, Promotion, Shop}
use v_backend.Cache.{Redis, Key, otp, invite, same_key}
use v_backend.Catalog.Customers.{
  find_store_id_by_slug, find_customer_by_id, find_customer_by_email_or_phone,
  update_customer_password_hash,
}
use v_backend.Catalog.Products.{find_stock_by_product, ListedProduct, get_store_products}
use v_backend.Catalog.Ordering.{CreateCatalogOrder, CatalogOrderItem, create_order}
use v_backend.Catalog.Sold.{sells, HasUnits, create_order-checked}
use v_backend.Catalog.Prices.{IsDue}
use v_backend.Catalog.Listing.{IsListed, IsCovered, get_store_products-IsListed}
use v_backend.Catalog.Access.{
  Crypto, Site, AuthResponse, verify_otp_or_throw, issue, set_customer_password,
  authenticate_customer, redeem_password_invite,
}
use v_backend.Catalog.Guesses.{try_codes, guesses_capped}
use v_backend.Catalog.Buyers.{has_customer}
use v_backend.Catalog.Passwords.{set_customer_password_roundtrip}
use v_backend.Catalog.Invites.{redeem_password_invite_once}
use v_backend.Catalog.Slug.{Platform, slugify_base, generate_unique_slug}
use v_backend.Catalog.FreeSlug.{first_free, generate_unique_slug_ends}

abbrev pub Memory : Type 0
Memory = Key → Option (ℕ × ℕ)

abbrev pub fresh : ℕ → Option (ℕ × ℕ) → Option ℕ
fresh now none = none
fresh now (some (value, expiry)) = if ltb now expiry then some value else none

pub fresh-expired :
    (now later : ℕ) (o : Option (ℕ × ℕ)) → now ≤ later → fresh now o ≡ none → fresh later o ≡ none
fresh-expired now later none after gone = refl
fresh-expired now later (some (value, expiry)) after gone = ground arith

-- The cache: a value with the time at which it expires.
abbrev pub memory : Redis
memory = record {
  State = Memory;
  get = λ now k s. fresh now (s k);
  set_with_expiry = λ now k value ttl s. λ j. if same_key k j then some (value, now + ttl) else s j;
  delete = λ now k s. λ j. if same_key k j then none else s j;
  get-set = λ now later k j value ttl s after. elim (Bool-cases (same_key k j)) [
    | inl same ↦ rw same refl
    | inr other ↦ rw other refl
  ];
  get-delete = λ now later k j s after. elim (Bool-cases (same_key k j)) [
    | inl same ↦ rw same refl
    | inr other ↦ rw other refl
  ];
  get-expired = λ now later k s after gone. fresh-expired now later (s k) after gone;
}

abbrev plain : Crypto
plain = record {
  hash_token = λ n. n + 1;
  hash = λ n. n + 7;
  verify = λ password hash. password + 7 == hash;
  sign_customer_token = λ customer store. customer * 1000 + store;
}

abbrev pub empty : Memory
empty k = none

guesses_capped_example :
    verify_otp_or_throw memory plain 30 4 123456 (
      try_codes memory plain 4
        ((1, 0) ∷ (2, 1) ∷ (3, 2) ∷ (4, 3) ∷ (5, 4) ∷ [])
        (issue memory plain 0 4 123456 empty))
    ≡ (
      try_codes memory plain 4
          ((1, 0) ∷ (2, 1) ∷ (3, 2) ∷ (4, 3) ∷ (5, 4) ∷ [])
          (issue memory plain 0 4 123456 empty),
      err unauthorized,
    )
guesses_capped_example =
    guesses_capped memory plain 4 0 123456 ((1, 0) ∷ (2, 1) ∷ (3, 2) ∷ (4, 3) ∷ (5, 4) ∷ []) empty
      (omega arith, (omega arith, (omega arith, (omega arith, (omega arith, tt)))))
      (refl, (refl, (refl, (refl, (refl, tt))))) (omega arith) 30 123456 (omega arith)

abbrev bakery : Shop
bakery = record {
  accounts = record { id = 9; store_slug = some 100 } ∷ [];
  products = record { id = 1; seller_id = 9; active = true; deleted_at = none } ∷ [];
  prices =
      record {
        product_id = 1;
        price = 250;
        price_type = sale;
        active = true;
        valid_from = none;
        created_at = 1;
      }
      ∷ [];
  promotions = [];
  stocks =
      record {
        seller_id = 9;
        product_id = 1;
        quantity = pos 10;
        reserved_quantity = pos 2;
        min_stock = pos 0;
        max_stock = pos 50;
      }
      ∷ [];
  customers =
      record {
        id = 4;
        seller_id = 9;
        email = some 77;
        phone = 55;
        document = none;
        password_hash = none;
      }
      ∷ [];
  orders = [];
  next_customer = 5;
}

-- A code was sent at time 0.
abbrev before : Site memory plain
before = record { shop = bakery; cache = issue memory plain 0 4 123456 empty; emails = [] }

abbrev after : Site memory plain
after = (set_customer_password memory plain 20 100 55 123456 8888 before).0

abbrev answer : AuthResponse
answer = record { token = 4009; customer_id = 4 }

set_customer_password_roundtrip_example :
    (store : Account) × (c : Customer) × (find_store_id_by_slug 100 before.shop ≡ some store)
    × (find_customer_by_email_or_phone 55 store.id before.shop ≡ some c)
    × (c.id ≡ 4)
    × (c.password_hash ≡ none)
    × (memory.get 20 (otp 4) before.cache ≡ some (plain.hash_token 123456))
    × (authenticate_customer memory plain 100 55 8888 after ≡ (after, ok answer))
    × (memory.get 60 (otp 4) after.cache ≡ none)
    × (set_customer_password memory plain 60 100 55 1 2 after ≡ (after, err bad_request))
unfolding set_customer_password find_row has_password issue same_key
set_customer_password_roundtrip_example =
    set_customer_password_roundtrip memory plain 20 100 55 123456 8888 before after answer 60 1 2
      (omega arith) refl refl

abbrev invited : Site memory plain
invited = record {
  shop = bakery;
  cache = λ k. if same_key (invite 501) k then some (4, 604800) else none;
  emails = [];
}

redeem_password_invite_once_example :
    (store : Account) × (c : Customer) × (thrown : HttpError) × (find_store_id_by_slug 100 bakery
      ≡ some store)
    × (memory.get 50 (invite 501) invited.cache ≡ some 4)
    × (find_customer_by_id 4 bakery ≡ some c)
    × (c.seller_id ≡ store.id)
    × ((redeem_password_invite memory plain 50 100 500 8888 invited).0.shop
        ≡ update_customer_password_hash 4 8895 bakery)
    × (redeem_password_invite memory plain 60 100 500 9999
          (redeem_password_invite memory plain 50 100 500 8888 invited).0
        ≡ ((redeem_password_invite memory plain 50 100 500 8888 invited).0, err thrown))
unfolding redeem_password_invite find_row same_key
redeem_password_invite_once_example =
    redeem_password_invite_once memory plain 50 100 500 8888 invited
      (redeem_password_invite memory plain 50 100 500 8888 invited).0 answer 60 100 9999
      (omega arith) refl

abbrev basket : CreateCatalogOrder
basket = record {
  items = record { product_id = 1; quantity = 3 } ∷ [];
  customer_id = none;
  customer =
      some (record { email = none; phone = 56; document = none; city = some 1; state = some 2 });
}

-- The shop with two promotions; the older one is charged.
abbrev offer : ℕ → ℕ → Promotion
offer price created_at = record {
  product_id = 1;
  promotional_price = price;
  start_date = 0;
  end_date = 100;
  status = active;
  created_at = created_at;
}

abbrev fair : Shop
fair = record bakery { promotions = offer 200 3 ∷ offer 230 2 ∷ [] }

abbrev bought : Order
bought = record {
  seller_id = 9;
  order_number = 700;
  customer_id = 5;
  status = pending;
  subtotal = 690;
  discount = 0;
  total = 690;
  items = record { product_id = 1; quantity = 3; unit_price = 230; discount = 0; total = 690 } ∷ [];
}

create_order-checked_example :
    (store : Account) × (price : ℕ → ℕ) × (find_store_id_by_slug 100 fair ≡ some store)
    × All
        (λ (it : CatalogOrderItem). sells store.id fair.products it.product_id ≡ true)
        basket.items
    × All
        (λ (it : CatalogOrderItem). HasUnits it.quantity (find_stock_by_product it.product_id fair))
        basket.items
    × All (λ (it : CatalogOrderItem). IsDue 5 it.product_id fair (price it.product_id)) basket.items
    × (bought.seller_id ≡ store.id)
    × (bought.total
        ≡ sum_by (λ (it : CatalogOrderItem). price it.product_id * it.quantity) basket.items)
    × (has_customer store.id bought.customer_id (create_order 5 700 100 basket fair).0 ≡ true)
    × ((create_order 5 700 100 basket fair).0.stocks ≡ fair.stocks)
unfolding create_order find_row where_rows includes distinct any_row v_backend.Base.◌-ℤ◌ sum_by
    sort_by insert_by
create_order-checked_example =
    create_order-checked 5 700 100 basket fair (create_order 5 700 100 basket fair).0 bought
      (tt, tt) refl

abbrev listed : ListedProduct
listed = record { id = 1; price = 200; original_price = some 250; available_stock = 8 }

get_store_products-IsListed_example :
    (store : Account) × (find_store_id_by_slug 100 fair ≡ some store)
    × All (IsListed 5 store.id fair) (listed ∷ [])
    × All (IsCovered 5 store.id fair (listed ∷ [])) fair.products
unfolding get_store_products find_row where_rows sort_by includes insert_by v_backend.Base.◌-ℤ◌
get_store_products-IsListed_example = get_store_products-IsListed 5 100 fair (listed ∷ []) refl

abbrev ascii : Platform
ascii = record { trim = λ t. t; lower_decomposed = λ t. t }

generate_unique_slug_ends_example :
    generate_unique_slug (λ slug. false) (99 + 0) ascii (some (b'a' ∷ b'p' ∷ b'p' ∷ [])) []
    ≡ some (first_free (λ slug. false) (slugify_base ascii (some (b'a' ∷ b'p' ∷ b'p' ∷ [])) []))
generate_unique_slug_ends_example =
    generate_unique_slug_ends (λ slug. false) 0 ascii (some (b'a' ∷ b'p' ∷ b'p' ∷ [])) []
