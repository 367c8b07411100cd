-- ===== src/Catalog.antt =====
-- modules/catalog: the public pages of a store, for its customers.
pub mod Data
pub mod Customers
pub mod Products
pub mod Ordering
pub mod Buyers
pub mod Queried
pub mod Prices
pub mod Sold
pub mod Listing
pub mod Slug
pub mod FreeSlug
pub mod Access
pub mod Guesses
pub mod Passwords
pub mod Invites
