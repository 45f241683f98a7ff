-- ===== src/Verifier/Application/Laws.antt =====
-- What the host's answers mean.
use keylix_community.Prelude.{
  ℕ, ◌≡◌, ap, subst, Bool, true, false, inl, inr, [], ◌∷◌, Option, none, some, Bytes, ok, arith,
  Result-cases,
}
use keylix_community.Platform.{Platform}
use keylix_community.Core.Jwk.{JwkThumbprint, to_base64url}
use keylix_community.Dpop.Ports.{PortResult, DpopNonce, ReplayStore, ServerNonceStore}
use keylix_community.Dpop.State.Nonces.{NonceContext}
use keylix_community.Dpop.Request.{
  DpopRequest, new_request, validate_method, with_nonce, with_nonce_if, with_access_token,
}
use keylix_community.Dpop.Request.Uri.{EffectiveRequestTarget, parse_target}
use keylix_community.Dpop.Proof.Parse.{UnverifiedDpopProof, parse_dpop_header_values}
use keylix_community.Dpop.Proof.Policy.{VerificationPolicy}
use keylix_community.Dpop.Proof.Verify
use keylix_community.Dpop.Proof.Verify.{VerifiedDpopProof, is_present}
use keylix_community.Dpop.Proof.Verify.Laws.{verify_iff}
use keylix_community.Oauth.Binding.{
  HostValidatedToken, VerifiedSenderBinding, parse_confirmation, parse_jkt, new,
  from_equivalent_host_validator,
}
use keylix_community.Oauth.Binding.Laws.{compose_sender_binding_iff, parse_jkt_sound}
use keylix_community.Verifier.Application.{
  verifier_protocol_version, VerifierRequest, VerifiedBinding, verified, NoncePolicy, optional,
  required, Environment, dpop_request, bind_sender, required_nonce, verify_with_nonce, verify,
}

-- Whether the host demands a nonce.
abbrev pub requires_nonce : NoncePolicy → Bool
requires_nonce optional = false
requires_nonce (required context) = true

module _ (p : Platform) where
  confirmed_text :
      (token : Bytes) (jkt : Option Bytes) (validated : HostValidatedToken) (c : Bytes)
      → from_equivalent_host_validator p token jkt ≡ ok validated
      → validated.confirmation ≡ some c
      → jkt ≡ some (p.base64_encode c)
  unfolding from_equivalent_host_validator new parse_confirmation
  confirmed_text token none validated c h e = ground arith
  confirmed_text token (some text) validated c h e = elim (Result-cases (parse_jkt p text)) [
    | inr (x, bad) ↦ absurd (ground (arith, bad))
    | inl (bytes, good) ↦
        let (same, _) = parse_jkt_sound p text bytes good in
        let confirmation : bytes ≡ c = ground (arith, good) in cc (same, confirmation)
  ]

  bind_sender_sound :
      (request : VerifierRequest) (proof : VerifiedDpopProof) (binding : VerifiedSenderBinding)
      → bind_sender p request proof ≡ ok binding
      → (request.confirmation_jkt ≡ some (p.base64_encode proof.key_thumbprint.bytes))
        × (proof.access_token_hash_verified ≡ true)
        × (binding.key_thumbprint ≡ proof.key_thumbprint)
        × (binding.proof_issued_at_unix ≡ proof.issued_at_unix)
        × (binding.nonce_enforced ≡ proof.nonce_enforced)
        × (binding.replay_checked ≡ proof.replay_checked)
  unfolding bind_sender
  bind_sender_sound request proof binding h =
      elim (Result-cases
        (from_equivalent_host_validator p request.access_token request.confirmation_jkt)) [
          | inr (x, bad) ↦ absurd (ground (arith, bad))
          | inl (validated, good) ↦
              let (b, same) =
                (compose_sender_binding_iff p proof request.access_token validated binding).0
                  (ground (arith, good)) in
              (
                confirmed_text request.access_token request.confirmation_jkt validated
                    proof.key_thumbprint.bytes good b.confirmed,
                b.proof_bound,
                ground (arith, same),
                ground (arith, same),
                ground (arith, same),
                ground (arith, same),
              )
        ]

-- The HTTP request that a host asks about, as a proof is checked against it.
abbrev pub asked_of : VerifierRequest → EffectiveRequestTarget → Option DpopNonce → DpopRequest
asked_of request target wanted = record {
  method = request.method;
  target = target;
  access_token = some request.access_token;
  nonce = wanted;
}

dpop_request_sound :
    (request : VerifierRequest) (target : EffectiveRequestTarget) (wanted : Option DpopNonce)
    (made : DpopRequest)
    → dpop_request request target wanted ≡ ok made
    → (validate_method request.method ≡ ok tt) × (made ≡ asked_of request target wanted)
unfolding dpop_request new_request with_nonce_if with_nonce with_access_token
dpop_request_sound request target none made h =
    elim (Result-cases (validate_method request.method)) [
      | inr (x, bad) ↦ absurd (ground (arith, bad))
      | inl (u, good) ↦ (good, ground (arith, good))
    ]
dpop_request_sound request target (some n) made h =
    elim (Result-cases (validate_method request.method)) [
      | inr (x, bad) ↦ absurd (ground (arith, bad))
      | inl (u, good) ↦ (good, ground (arith, good))
    ]

module _ {N : Type 0} (nonces : ServerNonceStore N NonceContext) where
  required_nonce_present :
      (policy : NoncePolicy) (generated : PortResult DpopNonce) (n : N) (wanted : Option DpopNonce)
      → (required_nonce nonces policy generated n).0 ≡ ok wanted
      → is_present wanted ≡ requires_nonce policy
  unfolding required_nonce
  required_nonce_present optional generated n wanted h = ground arith
  required_nonce_present (required context) generated n wanted h = ground arith

module _ (p : Platform) {N S : Type 0} (nonces : ServerNonceStore N NonceContext)
    (store : ReplayStore S) (nonce_policy : NoncePolicy) (policy : VerificationPolicy) where
  -- What an answer `verified` rests on.
  pub record IsVerified (env : Environment) (request : VerifierRequest) (n : N) (s : S)
      (binding : VerifiedBinding) : Type 0 where
    pub supported : request.version ≡ verifier_protocol_version
    pub target : EffectiveRequestTarget
    pub parsed_target : parse_target p request.target ≡ ok target
    pub proof : UnverifiedDpopProof
    pub parsed : parse_dpop_header_values p (request.dpop_proof ∷ []) ≡ ok proof
    pub wanted : Option DpopNonce
    pub nonce_state : (required_nonce nonces nonce_policy env.generated n).0 ≡ ok wanted
    pub verified_proof : VerifiedDpopProof
    pub valid_method : validate_method request.method ≡ ok tt
    pub accepted :
        (Verify.verify p store policy env.clock env.store_clock proof
          (asked_of request target wanted)
          s).0
        ≡ ok verified_proof
    pub confirmed : request.confirmation_jkt ≡ some binding.key_thumbprint
    pub thumbprint_text : binding.key_thumbprint ≡ to_base64url p verified_proof.key_thumbprint
    pub issued_at : binding.proof_issued_at_unix ≡ proof.claims.iat
    pub enforced : binding.nonce_enforced ≡ requires_nonce nonce_policy
    pub checked : binding.replay_checked ≡ true

  -- The chain behind a verified answer, from the nonce on.
  record HasStages (env : Environment) (request : VerifierRequest) (target : EffectiveRequestTarget)
      (wanted : Option DpopNonce) (s : S) (binding : VerifiedBinding) : Type 0 where
    pub made : DpopRequest
    pub asked : dpop_request request target wanted ≡ ok made
    pub proof : UnverifiedDpopProof
    pub parsed : parse_dpop_header_values p (request.dpop_proof ∷ []) ≡ ok proof
    pub verified_proof : VerifiedDpopProof
    pub accepted :
        (Verify.verify p store policy env.clock env.store_clock proof made s).0 ≡ ok verified_proof
    pub sender : VerifiedSenderBinding
    pub bound : bind_sender p request verified_proof ≡ ok sender
    pub reported : binding ≡ record {
      key_thumbprint = to_base64url p sender.key_thumbprint;
      proof_issued_at_unix = sender.proof_issued_at_unix;
      nonce_enforced = sender.nonce_enforced;
      replay_checked = sender.replay_checked;
    }

  with_nonce_stages :
      (env : Environment) (request : VerifierRequest) (target : EffectiveRequestTarget)
      (wanted : Option DpopNonce) (s : S) (version : ℕ) (binding : VerifiedBinding)
      → (verify_with_nonce p nonces store nonce_policy policy env request target wanted s).0
        ≡ verified version binding
      → HasStages env request target wanted s binding
  unfolding verify_with_nonce
  with_nonce_stages env request target wanted s version binding h =
      elim (Result-cases (dpop_request request target wanted)) [
        | inr (x, bad) ↦ absurd (ground (arith, bad))
        | inl (made, asked) ↦
            elim (Result-cases (parse_dpop_header_values p (request.dpop_proof ∷ []))) [
              | inr (x, bad) ↦ absurd (ground (arith, bad, asked))
              | inl (proof, parsed) ↦
                  elim (Result-cases
                    (Verify.verify p store policy env.clock env.store_clock proof made s).0) [
                      | inr (x, bad) ↦ absurd (ground (arith, bad, asked, parsed))
                      | inl (v, accepted) ↦ elim (Result-cases (bind_sender p request v)) [
                        | inr (x, bad) ↦ absurd (ground (arith, bad, asked, parsed, accepted))
                        | inl (sender, bound) ↦ record {
                          made = made;
                          asked = asked;
                          proof = proof;
                          parsed = parsed;
                          verified_proof = v;
                          accepted = accepted;
                          sender = sender;
                          bound = bound;
                          reported = ground (arith, bound, asked, parsed, accepted);
                        }
                      ]
                    ]
            ]
      ]

  -- Each stage before the nonce returned, too.
  early_stages :
      (env : Environment) (request : VerifierRequest) (n : N) (s : S) (version : ℕ)
      (binding : VerifiedBinding)
      → (verify p nonces store nonce_policy policy env request n s).0 ≡ verified version binding
      → (request.version ≡ verifier_protocol_version)
        × (target : EffectiveRequestTarget) × (parse_target p request.target ≡ ok target)
        × (wanted : Option DpopNonce) × ((required_nonce nonces nonce_policy env.generated n).0
            ≡ ok wanted)
        × HasStages env request target wanted s binding
  unfolding verify
  early_stages env request n s version binding h =
      elim (Result-cases (parse_target p request.target)) [
        | inr (x, bad) ↦ absurd (ground (arith, bad))
        | inl (target, parsed) ↦
            elim (Result-cases (required_nonce nonces nonce_policy env.generated n).0) [
              | inr (x, bad) ↦ absurd (ground (arith, bad, parsed))
              | inl (wanted, nonce_state) ↦ (
                ground (arith, parsed, nonce_state),
                target,
                parsed,
                wanted,
                nonce_state,
                with_nonce_stages env request target wanted s version binding
                    (ground (arith, parsed, nonce_state)),
              )
            ]
      ]

  -- A request is answered `verified` only if its version is supported, its target and its single
  -- proof parse, its method is valid, the proof was accepted for exactly that method, that target and
  -- the request's token under the nonce that the policy demands, and the key that the host's token confirms is the proof's key. The
  -- answer names that key, reports the proof's issue time, and is truthful about nonce and replay.
  pub verified_sound :
      (env : Environment) (request : VerifierRequest) (n : N) (s : S) (version : ℕ)
      (binding : VerifiedBinding)
      → (verify p nonces store nonce_policy policy env request n s).0 ≡ verified version binding
      → IsVerified env request n s binding
  unfolding to_base64url
  verified_sound env request n s version binding h =
      let (supported, target, parsed_target, wanted, nonce_state, k) =
        early_stages env request n s version binding h in
      let (confirmed, _, key, issued_at, enforced, checked) =
        bind_sender_sound p request k.verified_proof k.sender k.bound in
      let (_, _, _, facts) =
        (verify_iff p store policy env.clock env.store_clock k.proof k.made s k.verified_proof).0
          k.accepted in
      let (valid, same) = dpop_request_sound request target wanted k.made k.asked in
      let present : is_present wanted ≡ requires_nonce nonce_policy =
        required_nonce_present nonces nonce_policy env.generated n wanted nonce_state in
      record {
        supported = supported;
        target = target;
        parsed_target = parsed_target;
        proof = k.proof;
        parsed = k.parsed;
        wanted = wanted;
        nonce_state = nonce_state;
        verified_proof = k.verified_proof;
        valid_method = valid;
        accepted =
            subst
              (λ (m : DpopRequest).
                (Verify.verify p store policy env.clock env.store_clock k.proof m s).0
                ≡ ok k.verified_proof)
              same k.accepted;
        confirmed =
            ground (
              arith,
              confirmed,
              k.reported,
              ap (λ (t : JwkThumbprint). p.base64_encode t.bytes) key,
            );
        thumbprint_text = ground (arith, k.reported, key);
        issued_at = ground (arith, k.reported, issued_at, facts);
        enforced =
            ground
              (arith, k.reported, enforced, facts, ap (λ (m : DpopRequest). m.nonce) same, present);
        checked = ground (arith, k.reported, checked, facts);
      }
