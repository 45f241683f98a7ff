-- ===== src/Dpop.antt =====
-- The crate keylix-dpop: RFC 9449 proofs, their verification, and the state stores.
pub mod Errors
pub mod Ports
pub mod Request
pub mod Proof
pub mod State
