-- ===== src/Verifier/Application.antt =====
-- `VerifierApplication` of crates/keylix-verifier/src/lib.rs: one request of the local protocol, from
-- its fields to the result. The state is that of the nonce store and of the replay store.
pub mod Laws
use keylix_community.Prelude.{
  ℕ, Bool, true, false, ◌||◌, not, List, [], ◌∷◌, Option, none, some, Bytes, Result, ok, err,
  if◌then◌else◌, ◌==◌, is_empty, ℤ, map_err,
}
use keylix_community.Platform.{Platform}
use keylix_community.Core.Jwk.{to_base64url}
use keylix_community.Dpop.Errors.{DpopError}
use keylix_community.Dpop.Ports.{PortResult, Reading, DpopNonce, ReplayStore, ServerNonceStore}
use keylix_community.Dpop.State.Nonces.{NonceContext}
use keylix_community.Dpop.Request.{DpopRequest, new_request, with_access_token, with_nonce_if}
use keylix_community.Dpop.Request.Uri.{EffectiveRequestTarget, parse_target}
use keylix_community.Dpop.Proof.Parse.{UnverifiedDpopProof, parse_dpop_header_values}
use keylix_community.Dpop.Proof.Policy.{VerificationPolicy}
use keylix_community.Dpop.Proof.Verify.{VerifiedDpopProof}
use keylix_community.Dpop.Proof.Verify
use keylix_community.Oauth.Errors.{OauthDpopError}
use keylix_community.Oauth.Binding.{
  VerifiedSenderBinding, from_equivalent_host_validator, compose_sender_binding,
}
use keylix_community.Verifier.Failures.{
  FailureClass, unsupported_version, malformed_request, nonce_required, nonce_mismatch,
  nonce_state_unavailable, map_dpop_error, map_oauth_error,
}

abbrev pub verifier_protocol_version : ℕ
verifier_protocol_version = 1

pub record VerifierRequest : Type 0 where
  pub version : ℕ
  pub method : Bytes
  pub target : Bytes
  pub access_token : Bytes
  pub dpop_proof : Bytes
  pub confirmation_jkt : Option Bytes

pub record VerifiedBinding : Type 0 where
  pub key_thumbprint : Bytes
  pub proof_issued_at_unix : ℤ
  pub nonce_enforced : Bool
  pub replay_checked : Bool

pub data VerifierResult : Type 0 where
  verified : ℕ → VerifiedBinding → VerifierResult
  rejected_with : ℕ → FailureClass → Option Bytes → VerifierResult

abbrev pub rejected : FailureClass → VerifierResult
rejected failure = rejected_with verifier_protocol_version failure none

abbrev pub rejected_with_nonce : FailureClass → Option Bytes → VerifierResult
rejected_with_nonce failure nonce = rejected_with verifier_protocol_version failure nonce

pub data NoncePolicy : Type 0 where
  optional : NoncePolicy
  required : NonceContext → NoncePolicy

-- What the host's capabilities return during one request.
pub record Environment : Type 0 where
  pub clock : Reading
  pub store_clock : Reading
  pub generated : PortResult DpopNonce

abbrev pub is_nonce_failure : FailureClass → Bool
is_nonce_failure nonce_required = true
is_nonce_failure nonce_mismatch = true
is_nonce_failure _ = false

-- The challenge goes along with a nonce failure alone.
abbrev pub challenge_for : FailureClass → Option DpopNonce → Option Bytes
challenge_for failure none = none
challenge_for failure (some nonce) = if is_nonce_failure failure then some nonce.value else none

-- The request that the proof is verified against.
unfoldable pub dpop_request :
    VerifierRequest → EffectiveRequestTarget → Option DpopNonce → Result DpopError DpopRequest
dpop_request request target nonce = elim (new_request request.method target) [
  | err e ↦ err e
  | ok made ↦ ok (with_nonce_if nonce (with_access_token request.access_token made))
]

module _ (p : Platform) where
  -- From the verified proof to the result.
  unfoldable pub bind_sender :
      VerifierRequest → VerifiedDpopProof → Result OauthDpopError VerifiedSenderBinding
  bind_sender request proof =
      elim (from_equivalent_host_validator p request.access_token request.confirmation_jkt) [
        | err e ↦ err e
        | ok validated ↦ compose_sender_binding p proof request.access_token validated
      ]

  abbrev pub binding_result : Result OauthDpopError VerifiedSenderBinding → VerifierResult
  binding_result (err e) = rejected (map_oauth_error e)
  binding_result (ok binding) = verified verifier_protocol_version (record {
    key_thumbprint = to_base64url p binding.key_thumbprint;
    proof_issued_at_unix = binding.proof_issued_at_unix;
    nonce_enforced = binding.nonce_enforced;
    replay_checked = binding.replay_checked;
  })

  abbrev pub verification_result :
      VerifierRequest → Option DpopNonce → Result DpopError VerifiedDpopProof → VerifierResult
  verification_result request wanted (err e) =
      let failure = map_dpop_error e in rejected_with_nonce failure (challenge_for failure wanted)
  verification_result request wanted (ok proof) = binding_result (bind_sender request proof)

module _ {N : Type 0} (nonces : ServerNonceStore N NonceContext) where
  abbrev pub issued : PortResult DpopNonce × N → Result FailureClass (Option DpopNonce) × N
  issued (ok nonce, s) = (ok (some nonce), s)
  issued (err e, s) = (err nonce_state_unavailable, s)

  abbrev pub expect :
      NonceContext
      → PortResult DpopNonce
      → N
      → PortResult (Option DpopNonce)
      → Result FailureClass (Option DpopNonce) × N
  expect context generated s (ok (some nonce)) = (ok (some nonce), s)
  expect context generated s (ok none) = issued (nonces.issue_nonce generated context s)
  expect context generated s (err e) = (err nonce_state_unavailable, s)

  unfoldable pub required_nonce :
      NoncePolicy → PortResult DpopNonce → N → Result FailureClass (Option DpopNonce) × N
  required_nonce optional generated s = (ok none, s)
  required_nonce (required context) generated s =
      expect context generated s (nonces.expected_nonce context s)

module _ (p : Platform) {N S : Type 0} (nonces : ServerNonceStore N NonceContext)
    (store : ReplayStore S) (nonce_policy : NoncePolicy) (policy : VerificationPolicy) where
  -- From the nonce on: the request, the proof, its verification and the binding.
  unfoldable pub verify_with_nonce :
      Environment
      → VerifierRequest
      → EffectiveRequestTarget
      → Option DpopNonce
      → S
      → VerifierResult × S
  verify_with_nonce env request target nonce s = elim (dpop_request request target nonce) [
    | err e ↦ (rejected (map_dpop_error e), s)
    | ok made ↦ elim (parse_dpop_header_values p (request.dpop_proof ∷ [])) [
      | err e ↦ (rejected (map_dpop_error e), s)
      | ok proof ↦
          let (r, s') = Verify.verify p store policy env.clock env.store_clock proof made s in
          (verification_result p request nonce r, s')
    ]
  ]

  abbrev pub after_nonce :
      Environment
      → VerifierRequest
      → EffectiveRequestTarget
      → Result FailureClass (Option DpopNonce) × N
      → S
      → VerifierResult × N × S
  after_nonce env request target (err failure, n) s = (rejected failure, n, s)
  after_nonce env request target (ok nonce, n) s =
      let (r, s') = verify_with_nonce env request target nonce s in (r, n, s')

  -- `VerifierApplication::verify`.
  unfoldable pub verify : Environment → VerifierRequest → N → S → VerifierResult × N × S
  verify env request n s =
      if not (request.version == verifier_protocol_version)
      then (rejected unsupported_version, n, s)
      else if is_empty request.access_token || is_empty request.dpop_proof
      then (rejected malformed_request, n, s)
      else elim (parse_target p request.target) [
        | err e ↦ (rejected (map_dpop_error e), n, s)
        | ok target ↦
            after_nonce env request target (required_nonce nonces nonce_policy env.generated n) s
      ]
