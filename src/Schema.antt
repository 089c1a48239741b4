-- ===== src/Schema.antt =====
-- The tables of src/schema.ts: the columns that the modelled services read or write, the types of
-- their enumerated columns, the database as the record of its tables, and the row-level security
-- policies.
pub mod Enums
pub mod Rows
pub mod Policies
pub use Enums.*
pub use Rows.*
pub use Policies.*
