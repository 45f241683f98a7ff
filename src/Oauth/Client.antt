-- ===== src/Oauth/Client.antt =====
-- `DpopRequiredClient` of crates/keylix-oauth/src/client.rs and `NonceRetryBudget` of
-- crates/keylix-oauth/src/retry.rs. What the clock and the proof-id generator return is an argument.
pub mod Laws
use keylix_community.Prelude.{
  ℕ, zero, suc, ◌-◌, ◌++◌, Bool, not, Option, none, some, Bytes, Result, ok, err, ◌>>=◌, ◌>>◌,
  fail_if, ok_or, map_err, ltb, codes, bytes_eq, eq_ignore_case, if◌then◌else◌, ◌==◌,
}
use keylix_community.Platform.{Platform}
use keylix_community.Core.Jwk.{JwkThumbprint, thumbprint}
use keylix_community.Dpop.Ports.{PortResult, Reading, ProofId, DpopNonce}
use keylix_community.Dpop.State.Nonces.{
  NonceNamespace, NonceContext, authorization_server, resource_server, same_namespace,
  ClientNonceStore,
}
use keylix_community.Dpop.Request.{DpopRequest, new_request, with_access_token, with_nonce_if}
use keylix_community.Dpop.Request.Uri.{EffectiveRequestTarget}
use keylix_community.Dpop.Proof.Build.{DpopSigner, DpopProof, build}
use keylix_community.Oauth.Credential.{validate_access_token, validate_refresh_token}
use keylix_community.Oauth.Errors.{
  OauthDpopError, nonce_context_mismatch, nonce_state_unavailable, token_type_not_dpop,
  proof_key_continuity_mismatch, nonce_retry_limit_exceeded, dpop,
}

-- An access or refresh token with the key that it is bound to.
pub record BoundAccessToken : Type 0 where
  pub value : Bytes
  pub proof_key : JwkThumbprint

pub record BoundRefreshToken : Type 0 where
  pub value : Bytes
  pub proof_key : JwkThumbprint

pub record BoundTokenSet : Type 0 where
  pub access_token : BoundAccessToken
  pub refresh_token : Option BoundRefreshToken

pub record ProtectedResourceAuthorization : Type 0 where
  pub authorization : Bytes
  pub proof : DpopProof

-- `NonceRetryBudget`.
pub record NonceRetryBudget : Type 0 where
  pub remaining : ℕ

abbrev pub single_retry : NonceRetryBudget
single_retry = record { remaining = 1 }

unfoldable pub can_retry : NonceRetryBudget → Bool
can_retry budget = ltb 0 budget.remaining

unfoldable pub consume : NonceRetryBudget → Result OauthDpopError NonceRetryBudget
consume budget =
    if budget.remaining == 0
    then err nonce_retry_limit_exceeded
    else ok (record { remaining = budget.remaining - 1 })

unfoldable pub require_namespace : NonceContext → NonceNamespace → Result OauthDpopError (Unit {0})
require_namespace context expected =
    fail_if (not (same_namespace context.namespace expected)) nonce_context_mismatch

unfoldable pub validate_optional_refresh : Option Bytes → Result OauthDpopError (Unit {0})
validate_optional_refresh none = ok tt
validate_optional_refresh (some value) = validate_refresh_token value

module _ (p : Platform) (signer : DpopSigner) where
  abbrev pub own_key : JwkThumbprint
  own_key = thumbprint p signer.public_jwk

  unfoldable pub require_key_continuity : JwkThumbprint → Result OauthDpopError (Unit {0})
  require_key_continuity expected =
      fail_if (not (bytes_eq own_key.bytes expected.bytes)) proof_key_continuity_mismatch

  abbrev pub bind_refresh : Option Bytes → Option BoundRefreshToken
  bind_refresh none = none
  bind_refresh (some value) = some (record { value = value; proof_key = own_key })

  unfoldable pub accept_token_response :
      Bytes → Bytes → Option Bytes → Result OauthDpopError BoundTokenSet
  accept_token_response token_type access_token refresh_token = do
    fail_if (not (eq_ignore_case token_type (codes "DPoP"))) token_type_not_dpop
    validate_access_token access_token
    validate_optional_refresh refresh_token
    ok (record {
      access_token = record { value = access_token; proof_key = own_key };
      refresh_token = bind_refresh refresh_token;
    })

  module _ {S : Type 0} (nonces : ClientNonceStore S) (clock : Reading)
      (generated : PortResult ProofId) where
    unfoldable pub token_request :
        NonceContext → EffectiveRequestTarget → S → Result OauthDpopError DpopProof
    token_request context token_endpoint s = do
      require_namespace context authorization_server
      nonce ← map_err (λ e. nonce_state_unavailable) (nonces.nonce_for context s)
      request ← map_err dpop (new_request (codes "POST") token_endpoint)
      map_err dpop (build p signer clock generated (with_nonce_if nonce request))

    unfoldable pub protected_resource :
        NonceContext
        → Bytes
        → EffectiveRequestTarget
        → BoundAccessToken
        → S
        → Result OauthDpopError ProtectedResourceAuthorization
    protected_resource context method target token s = do
      require_namespace context resource_server
      require_key_continuity token.proof_key
      nonce ← map_err (λ e. nonce_state_unavailable) (nonces.nonce_for context s)
      request ← map_err dpop (new_request method target)
      let bound = with_nonce_if nonce (with_access_token token.value request)
      proof ← map_err dpop (build p signer clock generated bound)
      ok (record { authorization = codes "DPoP " ++ token.value; proof = proof })

    unfoldable pub refresh_token_request :
        NonceContext
        → EffectiveRequestTarget
        → BoundRefreshToken
        → S
        → Result OauthDpopError DpopProof
    refresh_token_request context token_endpoint refresh_token s = do
      require_key_continuity refresh_token.proof_key
      token_request context token_endpoint s

module _ {S : Type 0} (nonces : ClientNonceStore S) where
  abbrev pub lift_state : PortResult (Unit {0}) × S → Result OauthDpopError (Unit {0}) × S
  lift_state (r, s) = (map_err (λ e. nonce_state_unavailable) r, s)

  -- The budget is taken before the nonce is recorded, and is gone even if the store refuses.
  abbrev pub record_with :
      NonceContext
      → DpopNonce
      → NonceRetryBudget
      → Result OauthDpopError NonceRetryBudget
      → S
      → Result OauthDpopError (Unit {0}) × NonceRetryBudget × S
  record_with context nonce budget (err e) s = (err e, budget, s)
  record_with context nonce budget (ok left) s =
      let (r, s') = lift_state (nonces.record_challenge context nonce s) in (r, left, s')

  unfoldable pub record_nonce_challenge :
      NonceContext
      → DpopNonce
      → NonceRetryBudget
      → S
      → Result OauthDpopError (Unit {0}) × NonceRetryBudget × S
  record_nonce_challenge context nonce budget s =
      record_with context nonce budget (consume budget) s

  unfoldable pub record_success_nonce :
      NonceContext → Option DpopNonce → S → Result OauthDpopError (Unit {0}) × S
  record_success_nonce context nonce s = lift_state (nonces.record_success context nonce s)
