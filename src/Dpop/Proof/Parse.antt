-- ===== src/Dpop/Proof/Parse.antt =====
-- `UnverifiedDpopProof::parse`, `parse_dpop_header_values`, `validate_claim_shape` and
-- `decode_segment` of crates/keylix-dpop/src/proof.rs.
use keylix_community.Prelude.{
  ℕ, ◌*◌, Bool, false, ◌||◌, not, List, [], ◌∷◌, Option, none, some, Bytes, Result, ok, err, ◌>>=◌,
  ◌>>◌, fail_if, ok_or, map_err, ltb, ◌==◌, if◌then◌else◌, length, is_empty, contains, leb_ℤ, pos,
}
use keylix_community.Wire.{HeaderWire, ClaimsWire}
use keylix_community.Platform.{Platform}
use keylix_community.Core.Jwk.{PublicP256Jwk, from_json}
use keylix_community.Dpop.Errors.{
  DpopError, malformed_proof, proof_too_large, unsupported_key, missing_proof, ambiguous_proof,
}
use keylix_community.Dpop.Proof.Json.{reject_duplicate_json_members}

abbrev pub max_proof_bytes : ℕ
max_proof_bytes = 8192

abbrev pub max_header_bytes : ℕ
max_header_bytes = 2048

abbrev pub max_payload_bytes : ℕ
max_payload_bytes = 4096

abbrev pub max_signature_bytes : ℕ
max_signature_bytes = 128

abbrev pub max_jti_bytes : ℕ
max_jti_bytes = 256

abbrev pub max_htm_bytes : ℕ
max_htm_bytes = 64

abbrev pub max_htu_bytes : ℕ
max_htu_bytes = 2048

abbrev pub max_nonce_bytes : ℕ
max_nonce_bytes = 1024

abbrev pub sha256_base64url_bytes : ℕ
sha256_base64url_bytes = 43

-- `str::split` on one character: always at least one part.
unfoldable pub split : ℕ → Bytes → List Bytes
split c [] = [] ∷ []
split c (b ∷ s) =
    let rest = split c s in
    if b == c then [] ∷ rest else elim rest [ [] ↦ (b ∷ []) ∷ [] | part ∷ more ↦ (b ∷ part) ∷ more ]

pub record UnverifiedDpopProof : Type 0 where
  pub encoded_header : Bytes
  pub encoded_payload : Bytes
  pub signature : Bytes
  pub header : HeaderWire
  pub claims : ClaimsWire
  pub public_jwk : PublicP256Jwk

-- `is_some_and`.
abbrev pub is_some_and : (Bytes → Bool) → Option Bytes → Bool
is_some_and test none = false
is_some_and test (some value) = test value

abbrev pub has_bad_length : ℕ → Bytes → Bool
has_bad_length limit value = is_empty value || ltb limit (length value)

unfoldable pub validate_claim_shape : ClaimsWire → Result DpopError (Unit {0})
validate_claim_shape claims =
    fail_if
      (has_bad_length max_jti_bytes claims.jti
        || (has_bad_length max_htm_bytes claims.htm
            || (has_bad_length max_htu_bytes claims.htu
                || (leb_ℤ claims.iat (pos 0)
                    || (is_some_and (λ value. not (length value == sha256_base64url_bytes))
                          claims.ath
                        || is_some_and (has_bad_length max_nonce_bytes) claims.nonce)))))
      malformed_proof

-- The three parts of a compact JWS, none of them empty.
unfoldable pub three_parts : List Bytes → Result DpopError (Bytes × Bytes × Bytes)
three_parts (header ∷ payload ∷ signature ∷ []) =
    if is_empty header || (is_empty payload || is_empty signature)
    then err malformed_proof
    else ok (header, payload, signature)
three_parts _ = err malformed_proof

module _ (p : Platform) where
  unfoldable pub decode_segment : Bytes → ℕ → Result DpopError Bytes
  decode_segment encoded max_decoded_bytes = do
    fail_if (contains b'=' encoded || ltb (max_decoded_bytes * 2) (length encoded)) malformed_proof
    decoded ← ok_or (p.base64_decode encoded) malformed_proof
    fail_if (ltb max_decoded_bytes (length decoded)) proof_too_large
    ok decoded

  unfoldable pub parse : Bytes → Result DpopError UnverifiedDpopProof
  parse input = do
    fail_if (is_empty input) malformed_proof
    fail_if (ltb max_proof_bytes (length input)) proof_too_large
    parts ← three_parts (split b'.' input)
    header_bytes ← decode_segment parts.0 max_header_bytes
    payload_bytes ← decode_segment parts.1 max_payload_bytes
    signature ← decode_segment parts.2 max_signature_bytes
    reject_duplicate_json_members p header_bytes
    reject_duplicate_json_members p payload_bytes
    header ← ok_or (p.read_header header_bytes) malformed_proof
    claims ← ok_or (p.read_claims payload_bytes) malformed_proof
    validate_claim_shape claims
    jwk_json ← ok_or (p.write_json header.jwk) malformed_proof
    public_jwk ← map_err (λ e. unsupported_key) (from_json p jwk_json)
    ok (record {
      encoded_header = parts.0;
      encoded_payload = parts.1;
      signature = signature;
      header = header;
      claims = claims;
      public_jwk = public_jwk;
    })

  unfoldable pub parse_dpop_header_values : List Bytes → Result DpopError UnverifiedDpopProof
  parse_dpop_header_values [] = err missing_proof
  parse_dpop_header_values (value ∷ []) =
      if contains b',' value then err ambiguous_proof else parse value
  parse_dpop_header_values (a ∷ b ∷ rest) = err ambiguous_proof
