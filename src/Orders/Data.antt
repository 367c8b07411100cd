-- ===== src/Orders/Data.antt =====
-- The inputs of the orders module (dto/create-order.dto.ts after validation: quantities, prices and
-- discounts are whole and not negative) and the data that the service hands the repository.
use v_backend.Base.{ℕ, List, Option, ℤ, String}
use v_backend.Db.Rows.{BillingStatus, PaymentStatus, PaymentMethod}

pub record OrderItemInput : Type 0 where
  pub product_id : ℕ
  pub quantity : ℕ
  pub unit_price : ℕ
  pub discount : ℕ

pub record CreateOrderDto : Type 0 where
  pub customer_id : ℕ
  pub order_number : List ℕ
  pub notes : Option (List ℕ)
  pub items : List OrderItemInput

-- One of `CreateOrderData.items`.
pub record OrderLine : Type 0 where
  pub product_id : ℕ
  pub quantity : ℕ
  pub unit_price : ℕ
  pub discount : ℕ
  pub total : ℤ

pub record CreateOrderBillingData : Type 0 where
  pub billing_number : List ℕ
  pub total_amount : ℤ
  pub paid_amount : ℤ
  pub payment_method : PaymentMethod
  pub payment_status : PaymentStatus
  pub status : BillingStatus
  pub due_date : Option ℕ

pub record CreateOrderData : Type 0 where
  pub seller_id : ℕ
  pub customer_id : ℕ
  pub order_number : List ℕ
  pub notes : Option (List ℕ)
  pub subtotal : ℤ
  pub discount : ℤ
  pub total : ℤ
  pub items : List OrderLine
  pub billing : Option CreateOrderBillingData

pub record OversoldItem : Type 0 where
  pub product_id : ℕ
  pub product_name : String
  pub available : ℤ
  pub requested : ℕ

-- The notification that is queued for an oversold item; its texts are built from these fields.
pub record OversoldNotice : Type 0 where
  pub user_id : ℕ
  pub order_number : List ℕ
  pub item : OversoldItem
