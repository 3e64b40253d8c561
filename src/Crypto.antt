-- ===== src/Crypto.antt =====
-- pkg/crypto: authenticated encryption under a caller's key, aliases and encryption of the service,
-- and the signatures of API calls.
pub mod Symmetric
pub mod Signature
pub mod Kms
pub mod Service
