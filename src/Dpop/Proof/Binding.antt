-- ===== src/Dpop/Proof/Binding.antt =====
-- `access_token_hash`, `verify_es256_signature` and `derive_replay_key` of
-- crates/keylix-dpop/src/proof.rs.
pub mod Laws
use keylix_community.Prelude.{
  ℕ, zero, suc, ◌+◌, ◌-◌, ◌/◌, ◌%◌, ◌^◌, Bool, not, List, [], ◌∷◌, ◌++◌, Bytes, Result, ok, err,
  ◌>>=◌, ◌>>◌, fail_if, ltb, ◌==◌, if◌then◌else◌, length,
}
use keylix_community.Platform.{Platform}
use keylix_community.Core.Jwk.{PublicP256Jwk, JwkThumbprint, point}
use keylix_community.Dpop.Errors.{DpopError, invalid_signature, unsupported_key, malformed_proof}
use keylix_community.Dpop.Ports.{ReplayKey}
use keylix_community.Dpop.Request.Uri.{EffectiveRequestTarget}

abbrev pub es256_signature_bytes : ℕ
es256_signature_bytes = 64

unfoldable pub access_token_hash : Platform → Bytes → Bytes
access_token_hash p access_token = p.base64_encode (p.sha256 access_token)

unfoldable pub verify_es256_signature :
    Platform → PublicP256Jwk → Bytes → Bytes → Result DpopError (Unit {0})
verify_es256_signature p jwk signing_input signature = do
  fail_if (not (length signature == es256_signature_bytes)) invalid_signature
  let public_key = point jwk.x_bytes jwk.y_bytes
  fail_if (not (p.accepts_point public_key)) unsupported_key
  fail_if (not (p.verify_sig public_key signing_input signature)) invalid_signature

-- `to_be_bytes` of a number in `size` bytes.
unfoldable pub be_bytes : ℕ → ℕ → Bytes
be_bytes zero n = []
be_bytes (suc size) n = be_bytes size (n / 256) ++ (n % 256) ∷ []

-- Each part behind its length as a `u64`.
unfoldable pub length_prefixed : List Bytes → Result DpopError Bytes
length_prefixed [] = ok []
length_prefixed (part ∷ parts) = do
  fail_if (ltb (2 ^ 64 - 1) (length part)) malformed_proof
  rest ← length_prefixed parts
  ok (be_bytes 8 (length part) ++ (part ++ rest))

abbrev pub replay_parts : JwkThumbprint → Bytes → EffectiveRequestTarget → Bytes → List Bytes
replay_parts thumbprint method target jti = thumbprint.bytes ∷ method ∷ target.text ∷ jti ∷ []

unfoldable pub derive_replay_key :
    Platform → JwkThumbprint → Bytes → EffectiveRequestTarget → Bytes → Result DpopError ReplayKey
derive_replay_key p thumbprint method target jti = do
  material ← length_prefixed (replay_parts thumbprint method target jti)
  ok (record { bytes = p.sha256 material })
