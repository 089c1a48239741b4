-- ===== src/Sharing.antt =====
-- Sharing a plan, across src/trusted-contacts, src/access-invitations, src/shared-plans,
-- src/plan-access and the policies of src/schema.ts.
pub mod Writes
pub mod Changes
pub mod Effects
pub mod Answers
pub mod Calls
pub mod Moves
pub mod Closed
pub mod Access
pub mod Owner
pub mod Creation
pub mod Acceptance
pub mod Forgery
