-- ===== src/Entitlements.antt =====
-- The entitlements of a subscription (src/entitlements).
pub mod Types
pub mod Config
pub mod Evaluate
pub mod Usage
pub mod Service
pub mod Status
pub mod Info
pub mod Guard
pub mod GuardProofs
pub mod UsageProofs
pub mod QuotaProofs
