-- ===== src/Core.antt =====
-- The crate keylix-core: public keys and their thumbprints.
pub mod Jwk
