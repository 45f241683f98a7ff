-- ===== src/Dpop/Proof/Verify.antt =====
-- `DpopVerifier::verify` and `VerifiedDpopProof` of crates/keylix-dpop/src/proof.rs. What comes before
-- the replay store is `check_proof`, a chain without effects; only the store is changed.
pub mod Laws
pub mod Once
use keylix_community.Prelude.{
  ℕ, ◌++◌, Bool, true, false, not, Option, none, some, Bytes, Result, ok, err, ◌>>=◌, ◌>>◌, fail_if,
  ok_or, map_err, ◌==◌, length, codes, bytes_eq, ℤ, checked_add,
}
use keylix_community.Platform.{Platform}
use keylix_community.Core.Jwk.{JwkThumbprint, thumbprint}
use keylix_community.Dpop.Errors.{
  DpopError, malformed_proof, unsupported_algorithm, invalid_signature, method_mismatch,
  target_mismatch, clock_unavailable, access_token_hash_missing, access_token_hash_mismatch,
  invalid_policy, replay_store_unavailable, replay_detected,
}
use keylix_community.Dpop.Ports.{
  Reading, ReplayKey, ReplayStatus, fresh, replay, ReplayStore, PortResult,
}
use keylix_community.Dpop.Request.{DpopRequest}
use keylix_community.Dpop.Request.Uri.{parse_target}
use keylix_community.Dpop.Proof.Parse.{UnverifiedDpopProof}
use keylix_community.Dpop.Proof.Policy.{VerificationPolicy, verify_freshness, verify_nonce}
use keylix_community.Dpop.Proof.Binding.{
  es256_signature_bytes, access_token_hash, verify_es256_signature, derive_replay_key,
}

pub record VerifiedDpopProof : Type 0 where
  pub key_thumbprint : JwkThumbprint
  pub issued_at_unix : ℤ
  pub nonce_enforced : Bool
  pub replay_checked : Bool
  pub access_token_hash_verified : Bool

-- What the checks hand to the replay store.
pub record Checked : Type 0 where
  pub key_thumbprint : JwkThumbprint
  pub replay_key : ReplayKey
  pub expires_at_unix : ℤ
  pub access_token_hash_verified : Bool

abbrev pub is_present {ℓ} : {A : Type ℓ} → Option A → Bool
is_present none = false
is_present (some a) = true

-- The text that the signature is over.
abbrev pub signing_input : UnverifiedDpopProof → Bytes
signing_input proof = proof.encoded_header ++ (codes "." ++ proof.encoded_payload)

module _ (p : Platform) where
  -- The match on `request.access_token()`.
  unfoldable pub verify_access_token : Option Bytes → Option Bytes → Result DpopError Bool
  verify_access_token ath none = ok false
  verify_access_token none (some token) = err access_token_hash_missing
  verify_access_token (some presented) (some token) = do
    fail_if (not (bytes_eq presented (access_token_hash p token))) access_token_hash_mismatch
    ok true

  -- Algorithm, type and signature.
  unfoldable pub check_signature : UnverifiedDpopProof → Result DpopError (Unit {0})
  check_signature proof = do
    fail_if (not (bytes_eq proof.header.typ (codes "dpop+jwt"))) malformed_proof
    fail_if (not (bytes_eq proof.header.alg (codes "ES256"))) unsupported_algorithm
    fail_if (not (length proof.signature == es256_signature_bytes)) invalid_signature
    verify_es256_signature p proof.public_jwk (signing_input proof) proof.signature

  -- Method and target.
  unfoldable pub check_request : UnverifiedDpopProof → DpopRequest → Result DpopError (Unit {0})
  check_request proof request = do
    fail_if (not (bytes_eq proof.claims.htm request.method)) method_mismatch
    proof_target ← map_err (λ e. target_mismatch) (parse_target p proof.claims.htu)
    fail_if (not (bytes_eq proof_target.text request.target.text)) target_mismatch

  -- The replay key and the expiry of an accepted proof.
  unfoldable pub prepare :
      VerificationPolicy → UnverifiedDpopProof → DpopRequest → Bool → Result DpopError Checked
  prepare policy proof request access_token_hash_verified = do
    let key_thumbprint = thumbprint p proof.public_jwk
    key ← derive_replay_key p key_thumbprint request.method request.target proof.claims.jti
    expires ← ok_or (checked_add proof.claims.iat policy.max_proof_age_seconds) invalid_policy
    ok (record {
      key_thumbprint = key_thumbprint;
      replay_key = key;
      expires_at_unix = expires;
      access_token_hash_verified = access_token_hash_verified;
    })

  -- `verify` up to the call of the replay store, with the reading of the verifier's clock.
  unfoldable pub check_proof :
      VerificationPolicy → Reading → UnverifiedDpopProof → DpopRequest → Result DpopError Checked
  check_proof policy clock proof request = do
    check_signature proof
    check_request proof request
    now ← map_err (λ e. clock_unavailable) clock
    verify_freshness proof.claims.iat now policy
    verify_nonce proof.claims.nonce request.nonce
    access_token_hash_verified ← verify_access_token proof.claims.ath request.access_token
    prepare policy proof request access_token_hash_verified

-- The answer of the replay store, and the verified proof on a fresh key.
unfoldable pub conclude :
    UnverifiedDpopProof
    → DpopRequest
    → Checked
    → PortResult ReplayStatus
    → Result DpopError VerifiedDpopProof
conclude proof request checked (err e) = err replay_store_unavailable
conclude proof request checked (ok replay) = err replay_detected
conclude proof request checked (ok fresh) = ok (record {
  key_thumbprint = checked.key_thumbprint;
  issued_at_unix = proof.claims.iat;
  nonce_enforced = is_present request.nonce;
  replay_checked = true;
  access_token_hash_verified = checked.access_token_hash_verified;
})

module _ (p : Platform) {S : Type 0} (store : ReplayStore S) where
  -- The call of the replay store, if the checks passed.
  unfoldable pub record_use :
      UnverifiedDpopProof
      → DpopRequest
      → Reading
      → Result DpopError Checked
      → S
      → Result DpopError VerifiedDpopProof × S
  record_use proof request store_clock (err e) s = (err e, s)
  record_use proof request store_clock (ok checked) s =
      let (answer, s') =
        store.check_and_record store_clock checked.replay_key checked.expires_at_unix s in
      (conclude proof request checked answer, s')

  -- `DpopVerifier::verify`, with the readings of the verifier's clock and of the store's clock.
  unfoldable pub verify :
      VerificationPolicy
      → Reading
      → Reading
      → UnverifiedDpopProof
      → DpopRequest
      → S
      → Result DpopError VerifiedDpopProof × S
  unfolding record_use conclude
  verify policy clock store_clock proof request s =
      record_use proof request store_clock (check_proof p policy clock proof request) s
