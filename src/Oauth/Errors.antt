-- ===== src/Oauth/Errors.antt =====
-- The errors of keylix-oauth (crates/keylix-oauth/src/error.rs).
use keylix_community.Dpop.Errors.{DpopError}

pub data OauthDpopError : Type 0 where
  token_type_not_dpop token_identity_mismatch token_binding_missing : OauthDpopError
  token_binding_malformed token_binding_mismatch proof_not_access_token_bound : OauthDpopError
  token_inactive proof_key_continuity_mismatch nonce_context_mismatch : OauthDpopError
  nonce_state_unavailable nonce_retry_limit_exceeded invalid_credential : OauthDpopError
  dpop : DpopError → OauthDpopError
