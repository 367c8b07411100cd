-- ===== src/Db.antt =====
-- The tables of the sales side of prisma/schema.prisma, and the primitive writes on them. A table
-- is the list of its rows in order of insertion; a handler takes the state and returns the new one.
-- Ids of accounts and customers are opaque strings that the code only compares, so they are
-- numbers. A text is the list of its character codes. Times are milliseconds.
pub mod Tenant
pub mod Rows
pub mod Stock
use v_backend.Base.{
  ℕ, ◌+◌, Bool, ◌&&◌, List, [], ◌∷◌, ◌++◌, Option, Result, ok, err, unique_violation, ◌==◌,
  if◌then◌else◌, any_row, find_row, ℤ, text_eq,
}
use Rows.{Product, StoreStock, Order, OrderItem, Backorder, StockMovement, Billing, Customer}

pub record Db : Type 0 where
  pub products : List Product
  pub stocks : List StoreStock
  pub orders : List Order
  pub order_items : List OrderItem
  pub backorders : List Backorder
  pub movements : List StockMovement
  pub billings : List Billing
  pub customers : List Customer
  -- The sequences behind the autoincrement ids.
  pub next_order : ℕ
  pub next_item : ℕ
  pub next_backorder : ℕ
  pub next_billing : ℕ
