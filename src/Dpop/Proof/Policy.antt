-- ===== src/Dpop/Proof/Policy.antt =====
-- `VerificationPolicy`, `verify_freshness` and `verify_nonce` of crates/keylix-dpop/src/proof.rs.
-- The differences are taken in `i128`, which two `i64` values cannot overflow, so they are those of ℤ.
pub mod Laws
use keylix_community.Prelude.{
  ℕ, ◌^◌, Bool, Option, none, some, Bytes, Result, ok, err, ◌>>=◌, ◌>>◌, fail_if, ok_or, leb,
  if◌then◌else◌, ◌-◌, ℤ, pos, ◌-ℤ◌, ltb_ℤ, leb_ℤ, bytes_eq, not,
}
use keylix_community.Dpop.Errors.{
  DpopError, invalid_policy, malformed_proof, proof_expired, proof_from_future, nonce_required,
  nonce_mismatch,
}
use keylix_community.Dpop.Ports.{DpopNonce}

pub record VerificationPolicy : Type 0 where
  pub max_proof_age_seconds : ℤ
  pub allowed_future_skew_seconds : ℤ

-- `i64::try_from` of a `u64`.
unfoldable pub to_i64 : ℕ → Result DpopError ℤ
to_i64 n = if leb n (2 ^ 63 - 1) then ok (pos n) else err invalid_policy

-- `VerificationPolicy::new`.
unfoldable pub new : ℕ → ℕ → Result DpopError VerificationPolicy
unfolding to_i64
new max_age skew = do
  age ← to_i64 max_age
  future ← to_i64 skew
  ok (record { max_proof_age_seconds = age; allowed_future_skew_seconds = future })

-- `VerificationPolicy::default`.
abbrev pub default_policy : VerificationPolicy
default_policy = record { max_proof_age_seconds = pos 300; allowed_future_skew_seconds = pos 300 }

unfoldable pub verify_freshness : ℤ → ℤ → VerificationPolicy → Result DpopError (Unit {0})
verify_freshness issued_at now policy = do
  fail_if (leb_ℤ issued_at (pos 0)) malformed_proof
  fail_if (ltb_ℤ policy.max_proof_age_seconds (now -ℤ issued_at)) proof_expired
  fail_if (ltb_ℤ policy.allowed_future_skew_seconds (issued_at -ℤ now)) proof_from_future

unfoldable pub verify_nonce : Option Bytes → Option DpopNonce → Result DpopError (Unit {0})
verify_nonce presented none = ok tt
verify_nonce none (some required) = err nonce_required
verify_nonce (some presented) (some required) =
    fail_if (not (bytes_eq presented required.value)) nonce_mismatch
