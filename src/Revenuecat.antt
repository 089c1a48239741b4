-- ===== src/Revenuecat.antt =====
-- Subscriptions under RevenueCat's webhooks and its REST view (src/revenuecat).
pub mod Event
pub mod Handlers
pub mod Reconcile
pub mod Webhook
pub mod Rows
pub mod Delivery
pub mod Idempotence
pub mod Found
pub mod Tiers
pub mod Reports
