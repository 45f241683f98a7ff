-- ===== src/Verifier.antt =====
-- The crate keylix-verifier: the reference host.
pub mod Failures
pub mod Application
pub mod Ipc
pub mod Directory
pub mod Replay
pub mod Service
