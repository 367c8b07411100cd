-- ===== src/Stock.antt =====
-- modules/stock-movements: manual stock movements, and the allocation of what
-- arrives to the backorders.
pub mod Movements
pub mod Allocation
