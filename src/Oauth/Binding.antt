-- ===== src/Oauth/Binding.antt =====
-- crates/keylix-oauth/src/binding.rs: a verified proof and a token that the host validated become a
-- sender binding.
pub mod Laws
use keylix_community.Prelude.{
  ℕ, Bool, true, false, ◌||◌, not, Option, none, some, Bytes, Result, ok, err, ◌>>=◌, ◌>>◌, fail_if,
  ok_or, if◌then◌else◌, ◌==◌, length, contains, bytes_eq, ℤ,
}
use keylix_community.Platform.{Platform}
use keylix_community.Core.Jwk.{JwkThumbprint}
use keylix_community.Dpop.Proof.Verify.{VerifiedDpopProof}
use keylix_community.Oauth.Errors.{
  OauthDpopError, token_inactive, token_binding_malformed, proof_not_access_token_bound,
  token_identity_mismatch, token_binding_missing, token_binding_mismatch,
}

abbrev pub sha256_bytes : ℕ
sha256_bytes = 32

abbrev pub sha256_base64url_bytes : ℕ
sha256_base64url_bytes = 43

pub record TokenFingerprint : Type 0 where
  pub bytes : Bytes

pub data TokenValidationSource : Type 0 where
  validated_jwt authenticated_introspection equivalent_host_validator : TokenValidationSource

pub record HostValidatedToken : Type 0 where
  pub fingerprint : TokenFingerprint
  pub confirmation : Option Bytes
  pub source : TokenValidationSource

pub record VerifiedSenderBinding : Type 0 where
  pub key_thumbprint : JwkThumbprint
  pub source : TokenValidationSource
  pub proof_issued_at_unix : ℤ
  pub nonce_enforced : Bool
  pub replay_checked : Bool

module _ (p : Platform) where
  unfoldable pub from_token_bytes : Bytes → TokenFingerprint
  from_token_bytes token = record { bytes = p.sha256 token }

  unfoldable pub parse_jkt : Bytes → Result OauthDpopError Bytes
  parse_jkt value = do
    fail_if (not (length value == sha256_base64url_bytes) || contains b'=' value)
        token_binding_malformed
    decoded ← ok_or (p.base64_decode value) token_binding_malformed
    fail_if (not (length decoded == sha256_bytes)) token_binding_malformed
    fail_if (not (bytes_eq (p.base64_encode decoded) value)) token_binding_malformed
    ok decoded

  -- `confirmation_jkt.map(parse_jkt).transpose()`.
  unfoldable pub parse_confirmation : Option Bytes → Result OauthDpopError (Option Bytes)
  parse_confirmation none = ok none
  parse_confirmation (some jkt) = do bytes ← parse_jkt jkt; ok (some bytes)

  -- `HostValidatedToken::new`.
  unfoldable pub new :
      Bytes → Option Bytes → TokenValidationSource → Result OauthDpopError HostValidatedToken
  new exact_token confirmation_jkt source = do
    confirmation ← parse_confirmation confirmation_jkt
    ok (record {
      fingerprint = from_token_bytes exact_token;
      confirmation = confirmation;
      source = source;
    })

  unfoldable pub from_host_validated_jwt :
      Bytes → Option Bytes → Result OauthDpopError HostValidatedToken
  from_host_validated_jwt exact_token jkt = new exact_token jkt validated_jwt

  unfoldable pub from_host_authenticated_introspection :
      Bytes → Bool → Option Bytes → Result OauthDpopError HostValidatedToken
  from_host_authenticated_introspection exact_token active jkt =
      if not active then err token_inactive else new exact_token jkt authenticated_introspection

  unfoldable pub from_equivalent_host_validator :
      Bytes → Option Bytes → Result OauthDpopError HostValidatedToken
  from_equivalent_host_validator exact_token jkt = new exact_token jkt equivalent_host_validator

  unfoldable pub compose_sender_binding :
      VerifiedDpopProof → Bytes → HostValidatedToken → Result OauthDpopError VerifiedSenderBinding
  unfolding from_token_bytes
  compose_sender_binding proof exact_presented_token validated = do
    fail_if (not proof.access_token_hash_verified) proof_not_access_token_bound
    let presented = from_token_bytes exact_presented_token
    fail_if (not (bytes_eq presented.bytes validated.fingerprint.bytes)) token_identity_mismatch
    confirmation ← ok_or validated.confirmation token_binding_missing
    fail_if (not (bytes_eq proof.key_thumbprint.bytes confirmation)) token_binding_mismatch
    ok (record {
      key_thumbprint = proof.key_thumbprint;
      source = validated.source;
      proof_issued_at_unix = proof.issued_at_unix;
      nonce_enforced = proof.nonce_enforced;
      replay_checked = proof.replay_checked;
    })
