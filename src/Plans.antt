-- ===== src/Plans.antt =====
-- Plans, their limits, and the exceptions that an admin grants to an account.
pub mod Exceptions
pub mod Limits
pub mod Agreement
