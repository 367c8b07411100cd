-- ===== src/Db/Rows.antt =====
-- The rows of prisma/schema.prisma, with the columns that the modelled code reads or writes.
use v_backend.Base.{ℕ, Bool, Option, List, ℤ, String}

pub record Product : Type 0 where
  pub id : ℕ
  pub seller_id : ℕ
  pub name : String
  pub allow_oversell : Bool

-- Levels may fall below zero: products that allow overselling are sold past their stock.
pub record StoreStock : Type 0 where
  pub seller_id : ℕ
  pub product_id : ℕ
  pub quantity : ℤ
  pub reserved_quantity : ℤ
  pub min_stock : ℤ
  pub max_stock : ℤ

pub data OrderStatus : Type 0 where
  pending confirmed shipping delivered canceled : OrderStatus

pub record Order : Type 0 where
  pub id : ℕ
  pub seller_id : ℕ
  pub customer_id : ℕ
  pub order_number : List ℕ
  pub notes : Option (List ℕ)
  pub status : OrderStatus
  pub subtotal : ℤ
  pub discount : ℤ
  pub total : ℤ
  pub created_at : ℕ

pub record OrderItem : Type 0 where
  pub id : ℕ
  pub order_id : ℕ
  pub product_id : ℕ
  pub quantity : ℕ
  pub unit_price : ℕ
  pub discount : ℕ
  pub total : ℤ

pub data BackorderStatus : Type 0 where
  pending fulfilled canceled : BackorderStatus

pub record Backorder : Type 0 where
  pub id : ℕ
  pub seller_id : ℕ
  pub order_id : ℕ
  pub order_item_id : ℕ
  pub product_id : ℕ
  pub quantity : ℕ
  pub fulfilled_quantity : ℕ
  pub status : BackorderStatus
  pub created_at : ℕ
  pub fulfilled_at : Option ℕ

pub data MovementType : Type 0 where
  incoming outgoing : MovementType

pub data ReferenceType : Type 0 where
  purchase sale adjustment return transfer : ReferenceType

pub record StockMovement : Type 0 where
  pub movement_type : MovementType
  pub reference_type : ReferenceType
  pub reference_id : ℕ
  pub product_id : ℕ
  pub quantity : ℕ

pub data BillingStatus : Type 0 where
  pending partial paid overdue canceled : BillingStatus

pub data PaymentStatus : Type 0 where
  pending confirmed canceled : PaymentStatus

pub data PaymentMethod : Type 0 where
  cash credit_card debit_card pix : PaymentMethod

pub record Billing : Type 0 where
  pub id : ℕ
  pub order_id : ℕ
  pub billing_number : List ℕ
  pub status : BillingStatus
  pub total_amount : ℤ
  pub paid_amount : ℤ
  pub payment_method : PaymentMethod
  pub payment_status : PaymentStatus
  pub due_date : Option ℕ
  pub payment_date : Option ℕ
  pub notes : Option (List ℕ)

pub data BillingMode : Type 0 where
  per_sale weekly biweekly monthly custom : BillingMode

pub record Customer : Type 0 where
  pub id : ℕ
  pub seller_id : ℕ
  pub billing_mode : BillingMode
  pub billing_day : Option ℕ
