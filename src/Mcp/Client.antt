-- ===== src/Mcp/Client.antt =====
-- `McpDpopClient` and the profile of crates/keylix-mcp/src/lib.rs. The signer, the readings of the
-- clock, the generated identifiers and the nonce store are arguments.
use keylix_community.Prelude.{
  Option, Bytes, Result, ok, err, ◌>>=◌, map_err, codes, bytes_eq, if◌then◌else◌,
}
use keylix_community.Platform.{Platform}
use keylix_community.Dpop.Ports.{PortResult, Reading, ProofId, DpopNonce}
use keylix_community.Dpop.Request.Uri.{EffectiveRequestTarget}
use keylix_community.Dpop.State.Nonces.{
  NonceContext, authorization_server, resource_server, new_context, ClientNonceStore,
}
use keylix_community.Dpop.Proof.Build.{DpopSigner, DpopProof}
use keylix_community.Oauth.Errors.{OauthDpopError, dpop}
use keylix_community.Oauth.Client.{
  BoundAccessToken, NonceRetryBudget, token_request, protected_resource, record_nonce_challenge,
  record_success_nonce,
}

abbrev pub sep_1932_draft_profile : Bytes
sep_1932_draft_profile = codes "sep-1932-draft"

pub data ProfileStatus : Type 0 where
  draft : ProfileStatus

pub record McpDpopProfileMetadata : Type 0 where
  pub profile : Bytes
  pub sep : Bytes
  pub status : ProfileStatus
  pub rmcp_version : Bytes
  pub mcp_spec_version : Bytes

abbrev pub profile_metadata : McpDpopProfileMetadata
profile_metadata = record {
  profile = sep_1932_draft_profile;
  sep = codes "SEP-1932";
  status = draft;
  rmcp_version = codes "3.0.1";
  mcp_spec_version = codes "2026-07-28";
}

pub data McpDpopError : Type 0 where
  unsupported_profile existing_authorization existing_dpop_header invalid_header_value :
      McpDpopError
  oauth : OauthDpopError → McpDpopError

unfoldable pub require_profile : Bytes → Result McpDpopError McpDpopProfileMetadata
require_profile profile =
    if bytes_eq profile sep_1932_draft_profile then ok profile_metadata else err unsupported_profile

-- The nonce scopes of a client.
pub record McpDpopClient : Type 0 where
  pub authorization_scope : NonceContext
  pub resource_scope : NonceContext

-- `McpDpopClient::new`.
unfoldable pub new : Bytes → Bytes → Result McpDpopError McpDpopClient
new authorization_server_id resource_server_id = do
  authorization ←
      map_err (λ e. oauth (dpop e)) (new_context authorization_server authorization_server_id)
  resource ← map_err (λ e. oauth (dpop e)) (new_context resource_server resource_server_id)
  ok (record { authorization_scope = authorization; resource_scope = resource })

-- `McpHttpAuthorization`.
pub record McpHttpAuthorization : Type 0 where
  pub authorization : Bytes
  pub proof : Bytes

module _ (p : Platform) (signer : DpopSigner) {N : Type 0} (nonces : ClientNonceStore N)
    (client : McpDpopClient) (clock : Reading) (generated : PortResult ProofId) where
  unfoldable pub token_endpoint_attempt : EffectiveRequestTarget → N → Result McpDpopError DpopProof
  token_endpoint_attempt token_endpoint n =
      map_err oauth
        (token_request p signer nonces clock generated client.authorization_scope token_endpoint n)

  unfoldable pub resource_attempt :
      Bytes
      → EffectiveRequestTarget
      → BoundAccessToken
      → N
      → Result McpDpopError McpHttpAuthorization
  resource_attempt method target access_token n = do
    made ← map_err oauth (
        protected_resource p signer nonces clock generated client.resource_scope method target
          access_token n)
    ok (record { authorization = made.authorization; proof = made.proof.text })

module _ {N : Type 0} (nonces : ClientNonceStore N) (client : McpDpopClient) where
  abbrev pub challenge_result :
      Result OauthDpopError (Unit {0}) × NonceRetryBudget × N
      → Result McpDpopError (Unit {0}) × NonceRetryBudget × N
  challenge_result (r, budget, n) = (map_err oauth r, budget, n)

  abbrev pub success_result :
      Result OauthDpopError (Unit {0}) × N → Result McpDpopError (Unit {0}) × N
  success_result (r, n) = (map_err oauth r, n)

  unfoldable pub record_authorization_server_nonce_challenge :
      DpopNonce → NonceRetryBudget → N → Result McpDpopError (Unit {0}) × NonceRetryBudget × N
  record_authorization_server_nonce_challenge nonce budget n =
      challenge_result (record_nonce_challenge nonces client.authorization_scope nonce budget n)

  unfoldable pub record_resource_server_nonce_challenge :
      DpopNonce → NonceRetryBudget → N → Result McpDpopError (Unit {0}) × NonceRetryBudget × N
  record_resource_server_nonce_challenge nonce budget n =
      challenge_result (record_nonce_challenge nonces client.resource_scope nonce budget n)

  unfoldable pub record_authorization_server_success_nonce :
      Option DpopNonce → N → Result McpDpopError (Unit {0}) × N
  record_authorization_server_success_nonce nonce n =
      success_result (record_success_nonce nonces client.authorization_scope nonce n)

  unfoldable pub record_resource_server_success_nonce :
      Option DpopNonce → N → Result McpDpopError (Unit {0}) × N
  record_resource_server_success_nonce nonce n =
      success_result (record_success_nonce nonces client.resource_scope nonce n)
