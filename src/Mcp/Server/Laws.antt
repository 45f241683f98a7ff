-- ===== src/Mcp/Server/Laws.antt =====
-- The answers of `McpDpopServer::verify` (crates/keylix-mcp/src/server.rs).
use keylix_community.Prelude.{
  ◌≡◌, ◌↔◌, refl, ◌∙◌, ap, subst, Option, none, some, Bytes, ok, arith, map_err-ok, >>=-eq-ok,
  Result-cases, inl, inr,
}
use keylix_community.Platform.{Platform}
use keylix_community.Dpop.Ports.{Reading, DpopNonce, ReplayStore, fresh}
use keylix_community.Dpop.Request.{
  DpopRequest, new_request, with_access_token, with_nonce, with_nonce_if, validate_method,
}
use keylix_community.Dpop.Request.Uri.{EffectiveRequestTarget}
use keylix_community.Dpop.Proof.Parse.{UnverifiedDpopProof, parse_dpop_header_values}
use keylix_community.Dpop.Proof.Policy.{VerificationPolicy}
use keylix_community.Dpop.Proof.Verify.{Checked, VerifiedDpopProof}
use keylix_community.Dpop.Proof.Verify as verifier
use keylix_community.Dpop.Proof.Verify.Laws.{IsAcceptable, verified, verify_iff}
use keylix_community.Oauth.Binding.{
  HostValidatedToken, VerifiedSenderBinding, compose_sender_binding,
}
use keylix_community.Oauth.Binding.Laws.{IsBoundSender, binding_of, compose_sender_binding_iff}
use keylix_community.Mcp.Server.{
  McpHttpRequest, sender_binding, read_request, bind_verified, verify_read, verify,
}

-- The request of the HTTP message, with its token and the nonce that the host demands.
abbrev pub made_of : McpHttpRequest → DpopRequest
made_of request = record {
  method = request.method;
  target = request.target;
  access_token = some request.access_token;
  nonce = request.nonce;
}

made_with :
    (method token : Bytes) (target : EffectiveRequestTarget) (nonce : Option DpopNonce)
    → with_nonce_if nonce (
        with_access_token token
          (record { method = method; target = target; access_token = none; nonce = none }))
      ≡ record { method = method; target = target; access_token = some token; nonce = nonce }
unfolding with_nonce_if with_nonce with_access_token
made_with method token target none = refl
made_with method token target (some n) = refl

module _ (p : Platform) {S : Type 0} (store : ReplayStore S) (policy : VerificationPolicy) where
  -- What a binding rests on.
  pub record IsBoundRequest (clock store_clock : Reading) (request : McpHttpRequest)
      (validated : HostValidatedToken) (s : S) (binding : VerifiedSenderBinding) : Type 0 where
    pub parsed : UnverifiedDpopProof
    pub one_proof : parse_dpop_header_values p request.dpop_header_values ≡ ok parsed
    pub valid_method : validate_method request.method ≡ ok tt
    pub checked : Checked
    pub acceptable : IsAcceptable p policy clock parsed (made_of request) checked
    pub new :
        (store.check_and_record store_clock checked.replay_key checked.expires_at_unix s).0
        ≡ ok fresh
    pub sender :
        IsBoundSender p (verified p store parsed (made_of request)) request.access_token validated
    pub reported : binding ≡ binding_of p (verified p store parsed (made_of request)) validated

  read_request_sound :
      (request : McpHttpRequest) (parsed : UnverifiedDpopProof) (made : DpopRequest)
      → read_request p request ≡ ok (parsed, made)
      → (parse_dpop_header_values p request.dpop_header_values ≡ ok parsed)
        × (validate_method request.method ≡ ok tt)
        × (made ≡ made_of request)
  unfolding read_request new_request
  read_request_sound request parsed made h =
      let (parsed', one, h1) =
        >>=-eq-ok (parse_dpop_header_values p request.dpop_header_values) _ h in
      let (u, valid) : (u : Unit {0}) × (validate_method request.method ≡ ok u) =
        ground (arith, h1) in
      let same = made_with request.method request.access_token request.target request.nonce in
      (ground (arith, one, h1, valid), valid, ground (arith, h1, valid, same))

  read_request_complete :
      (request : McpHttpRequest) (parsed : UnverifiedDpopProof)
      → parse_dpop_header_values p request.dpop_header_values ≡ ok parsed
      → validate_method request.method ≡ ok tt
      → read_request p request ≡ ok (parsed, made_of request)
  unfolding read_request new_request
  read_request_complete request parsed one valid =
      rw (one, valid, made_with request.method request.access_token request.target request.nonce)
        refl

  module _ (clock store_clock : Reading) (request : McpHttpRequest) (validated : HostValidatedToken)
      (s : S) (binding : VerifiedSenderBinding) where
    bound_request :
        (parsed : UnverifiedDpopProof) (made : DpopRequest) (facts : VerifiedDpopProof)
        → parse_dpop_header_values p request.dpop_header_values ≡ ok parsed
        → validate_method request.method ≡ ok tt
        → made ≡ made_of request
        → (verifier.verify p store policy clock store_clock parsed made s).0 ≡ ok facts
        → compose_sender_binding p facts request.access_token validated ≡ ok binding
        → IsBoundRequest clock store_clock request validated s binding
    bound_request parsed made facts one valid same accepted bound =
        let on_request =
          subst
            (λ (m : DpopRequest).
              (verifier.verify p store policy clock store_clock parsed m s).0 ≡ ok facts)
            same accepted in
        let (checked, acceptable, new, shape) =
          (verify_iff p store policy clock store_clock parsed (made_of request) s facts).0
            on_request in
        let (sender, reported) =
          (compose_sender_binding_iff p facts request.access_token validated binding).0 bound in
        record {
          parsed = parsed;
          one_proof = one;
          valid_method = valid;
          checked = checked;
          acceptable = acceptable;
          new = new;
          sender = subst (λ v. IsBoundSender p v request.access_token validated) shape sender;
          reported = reported ∙ ap (λ v. binding_of p v validated) shape;
        }

    sound :
        (verify p store policy clock store_clock request validated s).0 ≡ ok binding
        → IsBoundRequest clock store_clock request validated s binding
    unfolding verify verify_read bind_verified
    sound h = elim (Result-cases (read_request p request)) [
      | inr (e, failed) ↦ absurd (ground (arith, failed, h))
      | inl ((parsed, made), read) ↦
          let (one, valid, same) = read_request_sound request parsed made read in
          elim (Result-cases (verifier.verify p store policy clock store_clock parsed made s).0) [
            | inr (e, failed) ↦ absurd (ground (arith, failed, read, h))
            | inl (facts, accepted) ↦
                let bound : compose_sender_binding p facts request.access_token validated
                    ≡ ok binding =
                  map_err-ok sender_binding
                    (compose_sender_binding p facts request.access_token validated)
                    (ground (arith, read, accepted, h)) in
                bound_request parsed made facts one valid same accepted bound
          ]
    ]

    complete :
        IsBoundRequest clock store_clock request validated s binding
        → (verify p store policy clock store_clock request validated s).0 ≡ ok binding
    unfolding verify verify_read bind_verified
    complete b =
        let read = read_request_complete request b.parsed b.one_proof b.valid_method in
        let accepted =
          (verify_iff p store policy clock store_clock b.parsed (made_of request) s
              (verified p store b.parsed (made_of request))).1
            (b.checked, b.acceptable, b.new, refl) in
        let bound =
          (compose_sender_binding_iff p (verified p store b.parsed (made_of request))
              request.access_token validated binding).1
            (b.sender, b.reported) in
        ground (arith, read, accepted, bound)

  -- A sender binding is the answer exactly if the header values are a single proof that parses and is
  -- acceptable for the request's method, target, token and demanded nonce, the replay store finds its
  -- key fresh, and the proof's key is the one that the host's token, the very token presented, confirms.
  -- It reports the proof's own facts.
  pub verify_bound_iff :
      (clock store_clock : Reading) (request : McpHttpRequest) (validated : HostValidatedToken)
      (s : S) (binding : VerifiedSenderBinding)
      → ((verify p store policy clock store_clock request validated s).0 ≡ ok binding)
        ↔ IsBoundRequest clock store_clock request validated s binding
  verify_bound_iff clock store_clock request validated s binding = (
    sound clock store_clock request validated s binding,
    complete clock store_clock request validated s binding,
  )
