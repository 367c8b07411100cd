-- ===== src/Subscriptions.antt =====
-- modules/subscriptions: the plans that accounts pay for, kept in step with the payment providers.
pub mod Store
pub mod Repository
pub mod Service
pub mod Webhooks
pub mod Events
pub mod Deliveries
pub mod Handled
pub mod Progress
pub mod Reconciled
pub mod Agreement
pub mod Settles
pub mod Reconcile
