-- ===== src/PushNotifications.antt =====
-- src/push-notifications: Tokens is `registerToken` and `unregisterToken` of
-- `PushNotificationsService`, Sending its `sendToUser`, and Reminders is `ReminderSchedulerService`.
-- Spacing is about reminders, Unreminded about users who get none.
pub mod Tokens
pub mod Sending
pub mod Reminders
pub mod Spacing
pub mod Unreminded
