-- ===== src/Samples.antt =====
-- Concrete values for the tests: a platform with unpadded URL-safe base64, requests and proofs.
pub mod Base64
pub mod Disk
pub mod Tree
pub mod Connection
pub mod Host
pub mod Frames
