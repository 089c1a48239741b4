-- ===== src/Encryption.antt =====
-- End-to-end encryption (src/encryption/encryption.service.ts): user keys, encrypted copies of a
-- plan's data encryption key (DEK), and their escrow with the key management service.
pub mod Statements
pub mod Keys
pub mod Deks
pub mod Rotation
pub mod Escrow
pub mod Listing
pub mod Recovery
pub mod EscrowProofs
pub mod KeyProofs
pub mod Reuse
pub mod RotationProofs
pub mod RotationSuccess
pub mod Deactivation
