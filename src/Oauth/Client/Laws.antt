-- ===== src/Oauth/Client/Laws.antt =====
-- What the client emits, and how often it lets a server challenge it.
use keylix_community.Prelude.{
  ℕ, zero, suc, ◌++◌, ◌≡◌, refl, sym, subst, ◌∙◌, true, List, [], ◌∷◌, Option, none, some, Bytes,
  Result, ok, err, >>=-eq-ok, >>-eq-ok, map_err, map_err-ok, arith, all, codes, take, bytes_eq_iff,
  bytes_eq_refl,
}
use keylix_community.Platform.{Platform}
use keylix_community.Core.Jwk.{JwkThumbprint}
use keylix_community.Dpop.Ports.{PortResult, Reading, ProofId, DpopNonce}
use keylix_community.Dpop.State.Nonces.{
  NonceNamespace, NonceContext, resource_server, ClientNonceStore,
}
use keylix_community.Dpop.Request.{
  DpopRequest, new_request, validate_method, with_access_token, with_nonce_if,
}
use keylix_community.Dpop.Request.Uri.{EffectiveRequestTarget}
use keylix_community.Dpop.Proof.Build.{DpopSigner, build}
use keylix_community.Oauth.Credential.{
  validate_access_token, validate_access_token_visible, is_printable, is_visible,
}
use keylix_community.Oauth.Errors.{
  OauthDpopError, nonce_state_unavailable, nonce_retry_limit_exceeded, dpop,
}
use keylix_community.Oauth.Client.{
  BoundAccessToken, BoundTokenSet, ProtectedResourceAuthorization, NonceRetryBudget, consume,
  require_namespace, own_key, require_key_continuity, accept_token_response, protected_resource,
  record_with, record_nonce_challenge,
}

namespace_sound :
    (context : NonceContext) (expected : NonceNamespace)
    → require_namespace context expected ≡ ok tt
    → context.namespace ≡ expected
unfolding require_namespace
namespace_sound context expected h = ground arith

module _ (p : Platform) (signer : DpopSigner) where
  key_sound : (k : JwkThumbprint) → require_key_continuity p signer k ≡ ok tt → k ≡ own_key p signer
  unfolding require_key_continuity
  key_sound k h = ground (arith, bytes_eq_iff (own_key p signer).bytes k.bytes)

  -- The request that the proof of a protected-resource call is built for.
  abbrev pub resource_request :
      Bytes → EffectiveRequestTarget → BoundAccessToken → Option DpopNonce → DpopRequest
  resource_request method target token nonce = record {
    method = method;
    target = target;
    access_token = some token.value;
    nonce = nonce;
  }

  request-eq :
      (method : Bytes) (target : EffectiveRequestTarget) (token : BoundAccessToken)
      (nonce : Option DpopNonce) (request : DpopRequest)
      → new_request method target ≡ ok request
      → (validate_method method ≡ ok tt)
        × (with_nonce_if nonce (with_access_token token.value request)
            ≡ resource_request method target token nonce)
  unfolding new_request with_nonce_if with_access_token
  request-eq method target token none request h =
      let (valid, same) = >>-eq-ok (validate_method method) _ h in (valid, ground (arith, same))
  request-eq method target token (some n) request h =
      let (valid, same) = >>-eq-ok (validate_method method) _ h in (valid, ground (arith, same))

  -- What a successful protected-resource call is: the context is a resource server's, the token is
  -- bound to the signer's own key, and the proof is for this method, target and token, under the
  -- nonce that the store holds for the context.
  pub record IsAuthorized {S : Type 0} (nonces : ClientNonceStore S) (clock : Reading)
      (generated : PortResult ProofId) (context : NonceContext) (method : Bytes)
      (target : EffectiveRequestTarget) (token : BoundAccessToken) (s : S)
      (result : ProtectedResourceAuthorization) : Type 0 where
    pub namespace : context.namespace ≡ resource_server
    pub own : token.proof_key ≡ own_key p signer
    pub authorization : result.authorization ≡ codes "DPoP " ++ token.value
    pub nonce : Option DpopNonce
    pub current : nonces.nonce_for context s ≡ ok nonce
    pub valid : validate_method method ≡ ok tt
    pub built :
        build p signer clock generated (resource_request method target token nonce)
        ≡ ok result.proof

  pub protected_resource_sound :
      {S : Type 0} (nonces : ClientNonceStore S) (clock : Reading) (generated : PortResult ProofId)
      (context : NonceContext) (method : Bytes) (target : EffectiveRequestTarget)
      (token : BoundAccessToken) (s : S) (result : ProtectedResourceAuthorization)
      → protected_resource p signer nonces clock generated context method target token s ≡ ok result
      → IsAuthorized nonces clock generated context method target token s result
  unfolding protected_resource
  protected_resource_sound nonces clock generated context method target token s result h =
      let (space, h1) = >>-eq-ok (require_namespace context resource_server) _ h in
      let (own, h2) = >>-eq-ok (require_key_continuity p signer token.proof_key) _ h1 in
      let (nonce, current, h3) =
        >>=-eq-ok (map_err (λ e. nonce_state_unavailable) (nonces.nonce_for context s)) _ h2 in
      let (request, made, h4) = >>=-eq-ok (map_err dpop (new_request method target)) _ h3 in
      let (valid, shape) =
        request-eq method target token nonce request
          (map_err-ok dpop (new_request method target) made) in
      let (proof, built, h5) =
        >>=-eq-ok
          (map_err dpop (
            build p signer clock generated
              (with_nonce_if nonce (with_access_token token.value request))))
          _ h4 in
      record {
        namespace = namespace_sound context resource_server space;
        own = key_sound token.proof_key own;
        authorization = ground (arith, h5);
        nonce = nonce;
        current = map_err-ok _ (nonces.nonce_for context s) current;
        valid = valid;
        built = rw (← shape) (map_err-ok dpop _ built ∙ ground (arith, h5));
      }

visible_printable : (s : Bytes) → all is_visible s ≡ true → all is_printable s ≡ true
visible_printable [] h = refl
visible_printable (b ∷ s) h = ground (arith, visible_printable s)

module _ (p : Platform) (signer : DpopSigner) where
  -- A token that was accepted from a token response is bound to the signer's key, and the
  -- Authorization header made of it is printable ASCII: no response can inject a header line.
  pub accepted_token_usable :
      (token_type access_token : Bytes) (refresh_token : Option Bytes) (tokens : BoundTokenSet)
      → accept_token_response p signer token_type access_token refresh_token ≡ ok tokens
      → (require_key_continuity p signer tokens.access_token.proof_key ≡ ok tt)
        × (all is_printable (codes "DPoP " ++ tokens.access_token.value) ≡ true)
  unfolding accept_token_response require_key_continuity
  accepted_token_usable token_type access_token refresh_token tokens h =
      let valid : validate_access_token access_token ≡ ok tt = ground arith in
      let same : tokens.access_token
          ≡ record { value = access_token; proof_key = own_key p signer } =
        ground arith in
      (
        ground (arith, same, bytes_eq_refl (own_key p signer).bytes),
        ground (
          arith,
          same,
          visible_printable access_token (validate_access_token_visible access_token valid),
        ),
      )

consume-suc :
    (left : ℕ) → consume (record { remaining = suc left }) ≡ ok (record { remaining = left })
unfolding consume
consume-suc left = ground arith

consume-zero : consume (record { remaining = 0 }) ≡ err nonce_retry_limit_exceeded
unfolding consume
consume-zero = refl

module _ {S : Type 0} (nonces : ClientNonceStore S) where
  -- The client's state through a sequence of nonce challenges in one logical operation.
  abbrev pub challenged :
      List (NonceContext × DpopNonce) → NonceRetryBudget → S → NonceRetryBudget × S
  challenged [] budget s = (budget, s)
  challenged ((c, n) ∷ rest) budget s =
      let (r, budget', s') = record_nonce_challenge nonces c n budget s in
      challenged rest budget' s'

  -- The store after a sequence of challenges that all reach it.
  abbrev pub recorded : List (NonceContext × DpopNonce) → S → S
  recorded [] s = s
  recorded ((c, n) ∷ rest) s = recorded rest (nonces.record_challenge c n s).1

  challenged-take_remaining :
      (challenges : List (NonceContext × DpopNonce)) (left : ℕ) (s : S)
      → (challenged challenges (record { remaining = left }) s).1
        ≡ recorded (take left challenges) s
  unfolding record_nonce_challenge
  challenged-take_remaining [] zero s = refl
  challenged-take_remaining [] (suc left) s = refl
  challenged-take_remaining ((c, n) ∷ rest) zero s =
      subst
        (λ (taken : Result OauthDpopError NonceRetryBudget).
          let (r, budget', s') = record_with nonces c n (record { remaining = 0 }) taken s in
          (challenged rest budget' s').1 ≡ s)
        (sym consume-zero) (challenged-take_remaining rest zero s)
  challenged-take_remaining ((c, n) ∷ rest) (suc left) s =
      subst
        (λ (taken : Result OauthDpopError NonceRetryBudget).
          let (r, budget', s') = record_with nonces c n (record { remaining = suc left }) taken s in
          (challenged rest budget' s').1
          ≡ recorded (take left rest) (nonces.record_challenge c n s).1)
        (sym (consume-suc left))
        (challenged-take_remaining rest left (nonces.record_challenge c n s).1)

  -- Of all the challenges of one operation only as many as the budget holds reach the nonce store;
  -- with a single-retry budget that is the first one.
  pub challenged-take :
      (challenges : List (NonceContext × DpopNonce)) (budget : NonceRetryBudget) (s : S)
      → (challenged challenges budget s).1 ≡ recorded (take budget.remaining challenges) s
  challenged-take challenges budget s = challenged-take_remaining challenges budget.remaining s
