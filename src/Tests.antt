-- ===== src/Tests.antt =====
-- Runs of the operations at concrete values, and the theorems at concrete values where their
-- hypotheses hold.
mod State
mod Target
mod Keys
mod Proofs
mod Hosts
mod Frames
mod Proxies
mod Disk
mod Mcp
mod Service
