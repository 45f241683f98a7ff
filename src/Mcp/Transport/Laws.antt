-- ===== src/Mcp/Transport/Laws.antt =====
-- The decoration of a request (`decorate` of crates/keylix-mcp/src/lib.rs).
use keylix_community.Prelude.{
  ◌≡◌, ◌≢◌, sym, ◌∙◌, ap, Bool, false, ◌||◌, Option, none, some, Bytes, ok, arith, map_err,
  map_err-ok, ok_or, ok_or-ok, >>=-eq-ok, >>-eq-ok, fail_if,
}
use keylix_community.Platform.{Platform}
use keylix_community.Dpop.Proof.Build.{DpopSigner}
use keylix_community.Dpop.Request.Uri.{EffectiveRequestTarget, parse_target}
use keylix_community.Dpop.State.Nonces.{ClientNonceStore}
use keylix_community.Dpop.State.Table.{get, get-insert, contains_key}
use keylix_community.Oauth.Client.{
  BoundAccessToken, ProtectedResourceAuthorization, protected_resource,
}
use keylix_community.Oauth.Client.Laws.{IsAuthorized, protected_resource_sound}
use keylix_community.Oauth.Errors.{dpop}
use keylix_community.Mcp.Client.{
  oauth, existing_authorization, existing_dpop_header, invalid_header_value, McpDpopClient,
  McpHttpAuthorization, resource_attempt,
}
use keylix_community.Mcp.Transport.{
  dpop_header, authorization_header, header_name, Headers, Attempt, into_rmcp_parts, decorate,
}

module _ (p : Platform) (signer : DpopSigner) {N V : Type 0} (nonces : ClientNonceStore N)
    (from_str : Bytes → Option V) (client : McpDpopClient) (access_token : BoundAccessToken) where
  -- Header fields that hold the host's own, none of them a credential, and a proof built for the
  -- method and the target of the request under the resource server's nonce.
  pub record IsDecorated (attempt : Attempt N) (method uri : Bytes) (given : Headers V)
      (auth_header : Option Bytes) (headers : Headers V) : Type 0 where
    pub no_authorization : get authorization_header given ≡ none
    pub no_proof : get dpop_header given ≡ none
    pub target : EffectiveRequestTarget
    pub parsed : parse_target p uri ≡ ok target
    pub made : ProtectedResourceAuthorization
    pub authorized :
        IsAuthorized p signer nonces attempt.clock attempt.generated client.resource_scope method
          target access_token attempt.state made
    pub authorization : auth_header ≡ some made.authorization
    pub value : V
    pub represented : from_str made.proof.text ≡ some value
    pub proof_header : get dpop_header headers ≡ some value
    pub others : (name : Bytes) → name ≢ dpop_header → get name headers ≡ get name given

  resource_attempt_sound :
      (attempt : Attempt N) (method : Bytes) (target : EffectiveRequestTarget)
      (made : McpHttpAuthorization)
      → resource_attempt p signer nonces client attempt.clock attempt.generated method target
          access_token attempt.state
        ≡ ok made
      → (result : ProtectedResourceAuthorization) × IsAuthorized p signer nonces attempt.clock
          attempt.generated client.resource_scope method target access_token attempt.state result
        × (made ≡ record { authorization = result.authorization; proof = result.proof.text })
  unfolding resource_attempt
  resource_attempt_sound attempt method target made h =
      let (result, built, shape) =
        >>=-eq-ok
          (map_err oauth (
            protected_resource p signer nonces attempt.clock attempt.generated client.resource_scope
              method target access_token attempt.state))
          _ h in
      (
        result,
        protected_resource_sound p signer nonces attempt.clock attempt.generated
            client.resource_scope method target access_token attempt.state result
            (map_err-ok oauth
              (protected_resource p signer nonces attempt.clock attempt.generated
                client.resource_scope method target access_token attempt.state)
              built),
        ground (arith, shape),
      )

  -- Header fields are decorated only if the host gave no credential of its own; then the request's
  -- authorization is that of a fresh proof for its method and target, which stands in the one DPoP
  -- field, and every other field is the host's.
  pub decorate_sound :
      (attempt : Attempt N) (method uri : Bytes) (present : Bool) (given : Headers V)
      (auth_header : Option Bytes) (headers : Headers V)
      → decorate p signer nonces from_str client access_token attempt method uri present given
        ≡ ok (auth_header, headers)
      → (present ≡ false) × IsDecorated attempt method uri given auth_header headers
  unfolding decorate into_rmcp_parts
  decorate_sound attempt method uri present given auth_header headers h =
      let (free, h1) =
        >>-eq-ok
          (fail_if (present || contains_key authorization_header given) existing_authorization) _
          h in
      let (unproved, h2) =
        >>-eq-ok (fail_if (contains_key dpop_header given) existing_dpop_header) _ h1 in
      let (target, parsed, h3) =
        >>=-eq-ok (map_err (λ e. oauth (dpop e)) (parse_target p uri)) _ h2 in
      let (made, attempted, h4) =
        >>=-eq-ok
          (resource_attempt p signer nonces client attempt.clock attempt.generated method target
            access_token attempt.state)
          _ h3 in
      let (value, represented, h5) =
        >>=-eq-ok (ok_or (from_str made.proof) invalid_header_value) _ h4 in
      let (result, authorized, shape) =
        resource_attempt_sound attempt method target made attempted in
      (
        ground (arith, free),
        record {
          no_authorization = ground (arith, free);
          no_proof = ground (arith, unproved);
          target = target;
          parsed = map_err-ok (λ e. oauth (dpop e)) (parse_target p uri) parsed;
          made = result;
          authorized = authorized;
          authorization = ground (arith, h5, shape);
          value = value;
          represented =
              ap from_str (sym (ap (λ (a : McpHttpAuthorization). a.proof) shape))
              ∙ ok_or-ok invalid_header_value (from_str made.proof) represented;
          proof_header = ground (arith, h5, get-insert dpop_header dpop_header value given);
          others = λ name ne. ground (
            arith,
            h5,
            get-insert dpop_header name value given,
            header_name.same_iff dpop_header name,
            ne,
          );
        },
      )
