-- ===== src/Dpop/Proof.antt =====
-- crates/keylix-dpop/src/proof.rs: reading, building and verifying proofs.
pub mod Json
pub mod Parse
pub mod Policy
pub mod Binding
pub mod Verify
pub mod Build
