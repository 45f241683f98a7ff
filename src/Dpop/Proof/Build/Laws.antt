-- ===== src/Dpop/Proof/Build/Laws.antt =====
-- What a built proof is.
use keylix_community.Prelude.{
  ◌++◌, ◌≡◌, refl, ap, none, inl, inr, some, Bytes, ok, >>=-eq-ok, >>-eq-ok, map_err, map_err-ok,
  ok_or-ok, fail_if, arith, length, codes, ℤ, ◌<ℤ◌, pos, Result-cases, ok_or, leb_ℤ,
}
use keylix_community.Wire.{Json, obj, string, end, member, ClaimsWire}
use keylix_community.Platform.{Platform}
use keylix_community.Core.Jwk.{PublicP256Jwk}
use keylix_community.Dpop.Errors.{clock_unavailable, proof_id_unavailable, signer_failure}
use keylix_community.Dpop.Ports.{PortResult, Reading, ProofId, DpopNonce}
use keylix_community.Dpop.Request.{DpopRequest}
use keylix_community.Dpop.Proof.Binding.{access_token_hash, verify_es256_signature}
use keylix_community.Dpop.Proof.Build.{
  DpopSigner, DpopProof, map_option, serialize_jwk, header_of, claims_of, sign_checked, build,
}

module _ (p : Platform) where
  -- The claims name the request: its method and target, its token by its SHA-256, and its nonce; and the
  -- identifier and the time that were drawn for it.
  pub record IsClaimsOf (request : DpopRequest) (issued_at : ℤ) (proof_id : ProofId)
      (claims : ClaimsWire) : Type 0 where
    pub identified : claims.jti ≡ proof_id.value
    pub to_method : claims.htm ≡ request.method
    pub to_target : claims.htu ≡ request.target.text
    pub timed : claims.iat ≡ issued_at
    pub to_token :
        (token : Bytes)
        → request.access_token ≡ some token
        → claims.ath ≡ some (p.base64_encode (p.sha256 token))
    pub to_no_token : request.access_token ≡ none → claims.ath ≡ none
    pub to_nonce : (n : DpopNonce) → request.nonce ≡ some n → claims.nonce ≡ some n.value
    pub to_no_nonce : request.nonce ≡ none → claims.nonce ≡ none

  claims_of-IsClaimsOf :
      (request : DpopRequest) (issued_at : ℤ) (proof_id : ProofId)
      → IsClaimsOf request issued_at proof_id (claims_of p request issued_at proof_id)
  unfolding access_token_hash
  claims_of-IsClaimsOf request issued_at proof_id = record {
    identified = refl;
    to_method = refl;
    to_target = refl;
    timed = refl;
    to_token = λ token h. ap (map_option (access_token_hash p)) h;
    to_no_token = λ h. ap (map_option (access_token_hash p)) h;
    to_nonce = λ n h. ap (map_option (λ (n : DpopNonce). n.value)) h;
    to_no_nonce = λ h. ap (map_option (λ (n : DpopNonce). n.value)) h;
  }

  -- A public P-256 key and no other member.
  abbrev pub public_key : PublicP256Jwk → Json
  public_key jwk = obj (
      member (codes "kty") (string (codes "EC")) (
        member (codes "crv") (string (codes "P-256")) (
          member (codes "x") (string (p.base64_encode jwk.x_bytes))
            (member (codes "y") (string (p.base64_encode jwk.y_bytes)) end))))

module _ (p : Platform) (signer : DpopSigner) where
  -- A proof of the compact form, whose parts are a DPoP header with the signer's public key and claims
  -- about the request, under a signature that the verifier's own check accepts.
  pub record IsBuilt (clock : Reading) (generated : PortResult ProofId) (request : DpopRequest)
      (proof : DpopProof) : Type 0 where
    pub issued_at : ℤ
    pub read : clock ≡ ok issued_at
    pub after_epoch : pos 0 <ℤ issued_at
    pub proof_id : ProofId
    pub drawn : generated ≡ ok proof_id
    pub header_json : Bytes
    pub header :
        p.write_header (record {
          typ = codes "dpop+jwt";
          alg = codes "ES256";
          jwk = public_key p signer.public_jwk;
        })
        ≡ some header_json
    pub claims : ClaimsWire
    pub about_request : IsClaimsOf p request issued_at proof_id claims
    pub claims_json : Bytes
    pub payload : p.write_claims claims ≡ some claims_json
    pub signature : Bytes
    pub sized : length signature ≡ 64
    pub accepted :
        verify_es256_signature p signer.public_jwk
          (p.base64_encode header_json ++ (codes "." ++ p.base64_encode claims_json))
          signature
        ≡ ok tt
    pub compact :
        proof.text
        ≡ (p.base64_encode header_json ++ (codes "." ++ p.base64_encode claims_json))
          ++ (codes "." ++ p.base64_encode signature)

  sign_checked_sound :
      (text signature : Bytes)
      → sign_checked p signer text ≡ ok signature
      → (length signature ≡ 64)
        × (verify_es256_signature p signer.public_jwk text signature ≡ ok tt)
  unfolding sign_checked
  sign_checked_sound text signature h = elim (Result-cases (signer.sign text)) [
    | inr (x, bad) ↦ absurd (ground (arith, bad))
    | inl (made, good) ↦
        elim (Result-cases (verify_es256_signature p signer.public_jwk text made)) [
          | inr (x, bad) ↦ absurd (ground (arith, good, bad))
          | inl (u, accepted) ↦ (ground (arith, good, accepted), ground (arith, good, accepted))
        ]
  ]

  -- What `build` returns, whatever the signer does, is the compact form of a DPoP header that holds the
  -- signer's public key alone, and of claims that name the request's method, target, token hash and
  -- nonce, the identifier that was drawn and the positive time of the clock, with a signature of 64 bytes
  -- that the verification accepts under that key.
  pub build_sound :
      (clock : Reading) (generated : PortResult ProofId) (request : DpopRequest) (proof : DpopProof)
      → build p signer clock generated request ≡ ok proof
      → IsBuilt clock generated request proof
  unfolding build serialize_jwk
  build_sound clock generated request proof h =
      let (issued_at, read, h1) = >>=-eq-ok (map_err (λ e. clock_unavailable) clock) _ h in
      let (late, h2) = >>-eq-ok (fail_if (leb_ℤ issued_at (pos 0)) clock_unavailable) _ h1 in
      let (proof_id, drawn, h3) = >>=-eq-ok (map_err (λ e. proof_id_unavailable) generated) _ h2 in
      let (header_json, header, h4) =
        >>=-eq-ok (ok_or (p.write_header (header_of p signer)) signer_failure) _ h3 in
      let (claims_json, claims, h5) =
        >>=-eq-ok (ok_or (p.write_claims (claims_of p request issued_at proof_id)) signer_failure) _
          h4 in
      let (signature, signed, h6) =
        >>=-eq-ok
          (sign_checked p signer
            (p.base64_encode header_json ++ (codes "." ++ p.base64_encode claims_json)))
          _ h5 in
      let (sized, accepted) = sign_checked_sound _ signature signed in
      record {
        issued_at = issued_at;
        read = map_err-ok _ clock read;
        after_epoch = ground (arith, late);
        proof_id = proof_id;
        drawn = map_err-ok _ generated drawn;
        header_json = header_json;
        header = ok_or-ok signer_failure _ header;
        claims = claims_of p request issued_at proof_id;
        about_request = claims_of-IsClaimsOf p request issued_at proof_id;
        claims_json = claims_json;
        payload = ok_or-ok signer_failure _ claims;
        signature = signature;
        sized = sized;
        accepted = accepted;
        compact = ground (arith, h6);
      }
