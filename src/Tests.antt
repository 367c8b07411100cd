-- ===== src/Tests.antt =====
-- Concrete states, and the theorems of the development applied to them.
pub mod Sales
pub mod Depot
pub mod Charges
pub mod Dates
pub mod Members
pub mod Storefront
pub mod Logins
