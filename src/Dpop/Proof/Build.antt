-- ===== src/Dpop/Proof/Build.antt =====
-- `DpopProofBuilder::build` of crates/keylix-dpop/src/proof.rs, with what the clock, the generator of
-- proof identifiers and the signer return at this call.
pub mod Laws
use keylix_community.Prelude.{
  ℕ, ◌++◌, not, Option, none, some, Bytes, Result, ok, err, ◌>>=◌, ◌>>◌, fail_if, ok_or, map_err,
  ◌==◌, length, codes, leb_ℤ, pos, ℤ,
}
use keylix_community.Wire.{Json, obj, string, end, member, HeaderWire, ClaimsWire}
use keylix_community.Platform.{Platform}
use keylix_community.Core.Jwk.{PublicP256Jwk}
use keylix_community.Dpop.Errors.{
  DpopError, clock_unavailable, proof_id_unavailable, signer_failure,
}
use keylix_community.Dpop.Ports.{PortResult, Reading, ProofId, DpopNonce}
use keylix_community.Dpop.Request.{DpopRequest}
use keylix_community.Dpop.Proof.Binding.{
  es256_signature_bytes, access_token_hash, verify_es256_signature,
}

-- `trait DpopSigner`: the public key, and what `sign` returns for a text.
pub record DpopSigner : Type 0 where
  pub public_jwk : PublicP256Jwk
  pub sign : Bytes → PortResult Bytes

-- `DpopProof`.
pub record DpopProof : Type 0 where
  pub text : Bytes

abbrev pub map_option {ℓ κ} : {A : Type ℓ} {B : Type κ} → (A → B) → Option A → Option B
map_option f none = none
map_option f (some a) = some (f a)

module _ (p : Platform) where
  -- `Serialize for PublicP256Jwk` (crates/keylix-core/src/jwk.rs).
  unfoldable pub serialize_jwk : PublicP256Jwk → Json
  serialize_jwk jwk = obj (
      member (codes "kty") (string (codes "EC")) (
        member (codes "crv") (string (codes "P-256")) (
          member (codes "x") (string (p.base64_encode jwk.x_bytes))
            (member (codes "y") (string (p.base64_encode jwk.y_bytes)) end))))

  -- The members of the header and of the payload.
  abbrev pub header_of : DpopSigner → HeaderWire
  header_of signer = record {
    typ = codes "dpop+jwt";
    alg = codes "ES256";
    jwk = serialize_jwk signer.public_jwk;
  }

  abbrev pub claims_of : DpopRequest → ℤ → ProofId → ClaimsWire
  claims_of request issued_at proof_id = record {
    jti = proof_id.value;
    htm = request.method;
    htu = request.target.text;
    iat = issued_at;
    ath = map_option (access_token_hash p) request.access_token;
    nonce = map_option (λ (n : DpopNonce). n.value) request.nonce;
  }

  -- Signs the text, and checks the signature before it is used.
  unfoldable pub sign_checked : DpopSigner → Bytes → Result DpopError Bytes
  sign_checked signer signing_input = do
    signature ← map_err (λ e. signer_failure) (signer.sign signing_input)
    fail_if (not (length signature == es256_signature_bytes)) signer_failure
    map_err (λ e. signer_failure)
        (verify_es256_signature p signer.public_jwk signing_input signature)
    ok signature

  unfoldable pub build :
      DpopSigner → Reading → PortResult ProofId → DpopRequest → Result DpopError DpopProof
  build signer clock generated request = do
    issued_at ← map_err (λ e. clock_unavailable) clock
    fail_if (leb_ℤ issued_at (pos 0)) clock_unavailable
    proof_id ← map_err (λ e. proof_id_unavailable) generated
    header_json ← ok_or (p.write_header (header_of signer)) signer_failure
    claims_json ← ok_or (p.write_claims (claims_of request issued_at proof_id)) signer_failure
    let signing_input = p.base64_encode header_json ++ (codes "." ++ p.base64_encode claims_json)
    signature ← sign_checked signer signing_input
    ok (record { text = signing_input ++ (codes "." ++ p.base64_encode signature) })
