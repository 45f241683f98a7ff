-- ===== src/Dpop/Errors.antt =====
-- The errors of the DPoP crate (crates/keylix-dpop/src/error.rs).
pub data DpopError : Type 0 where
  missing_proof ambiguous_proof malformed_proof proof_too_large unsupported_algorithm : DpopError
  unsupported_key invalid_signature method_mismatch target_mismatch proof_expired : DpopError
  proof_from_future access_token_hash_missing access_token_hash_mismatch nonce_required : DpopError
  nonce_mismatch replay_detected replay_store_unavailable signer_failure : DpopError
  clock_unavailable proof_id_unavailable invalid_request_target invalid_method : DpopError
  invalid_policy : DpopError

-- A failed capability of the host; it carries nothing.
pub data DpopPortError : Type 0 where
  port_error : DpopPortError
