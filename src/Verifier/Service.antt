-- ===== src/Verifier/Service.antt =====
-- The service of crates/keylix-verifier/src/main.rs.
pub mod Stream
pub mod Connection
pub mod Arguments
