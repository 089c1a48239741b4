-- ===== src/Items.antt =====
-- Entries, wishes and messages: `EntriesService` (src/entries/entries.service.ts), `WishesService`
-- (src/wishes/wishes.service.ts) and `MessagesService` (src/messages/messages.service.ts). The three
-- services are one text but for the names of their tables, so Kinds holds what differs, Writes and
-- Reads the operations by the kind, and Services the operations of each service.
pub mod Kinds
pub mod Metadata
pub mod Grouping
pub mod Writes
pub mod Reads
pub mod Services
pub mod Merging
pub mod Batch
pub mod Listing
pub mod Agreement
pub mod Routes
pub mod Controllers
pub mod LockedRows
pub mod Levels
pub mod Returned
pub mod Silent
pub mod Quota
pub mod Editing
