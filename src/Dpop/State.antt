-- ===== src/Dpop/State.antt =====
-- The reference state stores of crates/keylix-dpop/src/state.rs. A method runs under the store's
-- mutex, so it is one function of the state; a poisoned mutex, which needs a panic, is left out.
pub mod Table
pub mod Contract
pub mod Replay
pub mod Nonces
