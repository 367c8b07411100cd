-- ===== src/Billings.antt =====
-- The charges of orders.
pub mod Scheduler
pub mod Status
pub mod Records
pub mod Service
pub mod Consistency
pub mod Writes
pub mod Untouched
pub mod FromOrders
pub mod Reach
pub mod Payments
pub mod Sync
pub mod Scope
