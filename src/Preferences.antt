-- ===== src/Preferences.antt =====
-- The preferences of users for reminders (src/preferences): Schemas is notification-schemas.ts,
-- Service the methods of `PreferencesService` that read and write a user's row, Eligible its query
-- for the users whom a reminder is due to. Patching is about updates, Window and Unset about the
-- query.
pub mod Schemas
pub mod Service
pub mod Eligible
pub mod Window
pub mod Patching
