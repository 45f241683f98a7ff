-- ===== src/Oauth.antt =====
-- The crate keylix-oauth: tokens that are bound to a key, on the client and on the resource server.
pub mod Errors
pub mod Binding
pub mod Credential
pub mod Client
