-- ===== src/Mcp/Server.antt =====
-- `McpDpopServer` of crates/keylix-mcp/src/server.rs: a proof is verified and bound to the token that the
-- host validated.
pub mod Laws
use keylix_community.Prelude.{List, Option, Bytes, Result, ok, err, ◌>>=◌, map_err}
use keylix_community.Platform.{Platform}
use keylix_community.Dpop.Errors.{DpopError}
use keylix_community.Dpop.Ports.{Reading, DpopNonce, ReplayStore}
use keylix_community.Dpop.Request.{DpopRequest, new_request, with_access_token, with_nonce_if}
use keylix_community.Dpop.Request.Uri.{EffectiveRequestTarget}
use keylix_community.Dpop.Proof.Parse.{UnverifiedDpopProof, parse_dpop_header_values}
use keylix_community.Dpop.Proof.Policy.{VerificationPolicy}
use keylix_community.Dpop.Proof.Verify.{VerifiedDpopProof}
use keylix_community.Dpop.Proof.Verify
use keylix_community.Oauth.Errors.{OauthDpopError}
use keylix_community.Oauth.Binding.{
  HostValidatedToken, VerifiedSenderBinding, compose_sender_binding,
}

pub record McpHttpRequest : Type 0 where
  pub method : Bytes
  pub target : EffectiveRequestTarget
  pub access_token : Bytes
  pub dpop_header_values : List Bytes
  pub nonce : Option DpopNonce

pub data McpDpopServerError : Type 0 where
  proof : DpopError → McpDpopServerError
  sender_binding : OauthDpopError → McpDpopServerError

module _ (p : Platform) where
  -- The proof and the request that it is verified against.
  unfoldable pub read_request :
      McpHttpRequest → Result DpopError (UnverifiedDpopProof × DpopRequest)
  read_request request = do
    parsed ← parse_dpop_header_values p request.dpop_header_values
    made ← new_request request.method request.target
    ok (parsed, with_nonce_if request.nonce (with_access_token request.access_token made))

  unfoldable pub bind_verified :
      McpHttpRequest
      → HostValidatedToken
      → Result DpopError VerifiedDpopProof
      → Result McpDpopServerError VerifiedSenderBinding
  bind_verified request validated (err e) = err (proof e)
  bind_verified request validated (ok verified) =
      map_err sender_binding (compose_sender_binding p verified request.access_token validated)

module _ (p : Platform) {S : Type 0} (store : ReplayStore S) (policy : VerificationPolicy) where
  unfoldable pub verify_read :
      Reading
      → Reading
      → McpHttpRequest
      → HostValidatedToken
      → Result DpopError (UnverifiedDpopProof × DpopRequest)
      → S
      → Result McpDpopServerError VerifiedSenderBinding × S
  verify_read clock store_clock request validated (err e) s = (err (proof e), s)
  verify_read clock store_clock request validated (ok (parsed, made)) s =
      let (verified, s') = Verify.verify p store policy clock store_clock parsed made s in
      (bind_verified p request validated verified, s')

  -- `McpDpopServer::verify`.
  unfoldable pub verify :
      Reading
      → Reading
      → McpHttpRequest
      → HostValidatedToken
      → S
      → Result McpDpopServerError VerifiedSenderBinding × S
  verify clock store_clock request validated s =
      verify_read clock store_clock request validated (read_request p request) s
