-- ===== src/Verifier/Failures.antt =====
-- `FailureClass`, `map_dpop_error` and `map_oauth_error` of crates/keylix-verifier/src/lib.rs.
use keylix_community.Dpop.Errors.{
  DpopError, missing_proof, ambiguous_proof, malformed_proof, proof_too_large,
  unsupported_algorithm, unsupported_key, invalid_signature, proof_expired, proof_from_future,
  access_token_hash_missing, access_token_hash_mismatch, replay_detected, invalid_request_target,
  invalid_method, invalid_policy,
}
use keylix_community.Oauth.Errors.{
  OauthDpopError, token_binding_mismatch, proof_not_access_token_bound,
  proof_key_continuity_mismatch, dpop,
}

pub data FailureClass : Type 0 where
  unsupported_version malformed_request invalid_proof method_mismatch target_mismatch : FailureClass
  stale_proof future_proof nonce_required nonce_mismatch nonce_state_unavailable : FailureClass
  replay replay_store_unavailable token_hash_mismatch token_binding_missing : FailureClass
  token_binding_malformed confirmation_key_mismatch token_identity_mismatch : FailureClass
  clock_unavailable internal_failure : FailureClass

unfoldable pub map_dpop_error : DpopError → FailureClass
map_dpop_error missing_proof = invalid_proof
map_dpop_error ambiguous_proof = invalid_proof
map_dpop_error malformed_proof = invalid_proof
map_dpop_error proof_too_large = invalid_proof
map_dpop_error unsupported_algorithm = invalid_proof
map_dpop_error unsupported_key = invalid_proof
map_dpop_error invalid_signature = invalid_proof
map_dpop_error DpopError.method_mismatch = method_mismatch
map_dpop_error DpopError.target_mismatch = target_mismatch
map_dpop_error invalid_request_target = target_mismatch
map_dpop_error proof_expired = stale_proof
map_dpop_error proof_from_future = future_proof
map_dpop_error access_token_hash_missing = token_hash_mismatch
map_dpop_error access_token_hash_mismatch = token_hash_mismatch
map_dpop_error DpopError.nonce_required = nonce_required
map_dpop_error DpopError.nonce_mismatch = nonce_mismatch
map_dpop_error replay_detected = replay
map_dpop_error DpopError.replay_store_unavailable = replay_store_unavailable
map_dpop_error DpopError.clock_unavailable = clock_unavailable
map_dpop_error invalid_method = malformed_request
map_dpop_error invalid_policy = malformed_request
map_dpop_error _ = internal_failure

unfoldable pub map_oauth_error : OauthDpopError → FailureClass
unfolding map_dpop_error
map_oauth_error OauthDpopError.token_identity_mismatch = token_identity_mismatch
map_oauth_error OauthDpopError.token_binding_missing = token_binding_missing
map_oauth_error OauthDpopError.token_binding_malformed = token_binding_malformed
map_oauth_error token_binding_mismatch = confirmation_key_mismatch
map_oauth_error proof_key_continuity_mismatch = confirmation_key_mismatch
map_oauth_error proof_not_access_token_bound = token_hash_mismatch
map_oauth_error (dpop e) = map_dpop_error e
map_oauth_error _ = internal_failure
