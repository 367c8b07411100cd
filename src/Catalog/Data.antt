-- ===== src/Catalog/Data.antt =====
-- The rows of prisma/schema.prisma that the catalog reads and writes, and the bodies of its requests.
-- Texts that are only compared (slugs, contacts, hashes, order numbers) are numbers.
use v_backend.Base.{ℕ, Bool, List, Option}
use v_backend.Db.Rows.{StoreStock}

pub record Account : Type 0 where
  pub id : ℕ
  pub store_slug : Option ℕ

pub record Product : Type 0 where
  pub id : ℕ
  pub seller_id : ℕ
  pub active : Bool
  pub deleted_at : Option ℕ

pub data PriceType : Type 0 where
  cost sale wholesale promotional : PriceType

pub record ProductPrice : Type 0 where
  pub product_id : ℕ
  pub price : ℕ
  pub price_type : PriceType
  pub active : Bool
  pub valid_from : Option ℕ
  pub created_at : ℕ

pub data PromotionStatus : Type 0 where
  active scheduled expired : PromotionStatus

pub record Promotion : Type 0 where
  pub product_id : ℕ
  pub promotional_price : ℕ
  pub start_date : ℕ
  pub end_date : ℕ
  pub status : PromotionStatus
  pub created_at : ℕ

pub record Customer : Type 0 where
  pub id : ℕ
  pub seller_id : ℕ
  pub email : Option ℕ
  pub phone : ℕ
  pub document : Option ℕ
  pub password_hash : Option ℕ

pub record OrderItem : Type 0 where
  pub product_id : ℕ
  pub quantity : ℕ
  pub unit_price : ℕ
  pub discount : ℕ
  pub total : ℕ

pub data OrderStatus : Type 0 where
  pending : OrderStatus

pub record Order : Type 0 where
  pub seller_id : ℕ
  pub order_number : ℕ
  pub customer_id : ℕ
  pub status : OrderStatus
  pub subtotal : ℕ
  pub discount : ℕ
  pub total : ℕ
  pub items : List OrderItem

pub record Shop : Type 0 where
  pub accounts : List Account
  pub products : List Product
  pub prices : List ProductPrice
  pub promotions : List Promotion
  pub stocks : List StoreStock
  pub customers : List Customer
  pub orders : List Order
  pub next_customer : ℕ
