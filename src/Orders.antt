-- ===== src/Orders.antt =====
-- modules/orders: selling, adding a line, canceling and deleting, with the stock that these move.
pub mod Data
pub mod Service
pub mod Create
pub mod Lines
pub mod Change
pub mod Ledger
pub mod Oversell
pub mod Cancel
pub mod Tenancy
