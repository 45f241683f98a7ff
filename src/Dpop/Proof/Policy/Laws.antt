-- ===== src/Dpop/Proof/Policy/Laws.antt =====
-- The window in which a proof is fresh, and what the nonce check admits.
use keylix_community.Prelude.{
  ◌≡◌, ◌↔◌, refl, Option, none, some, Bytes, ok, ℤ, pos, ◌+ℤ◌, ◌≤ℤ◌, ◌<ℤ◌, arith, bytes_eq_iff,
  +ℤ_parts, -ℤ_parts,
}
use keylix_community.Dpop.Ports.{DpopNonce}
use keylix_community.Dpop.Proof.Policy.{VerificationPolicy, verify_freshness, verify_nonce}

-- The window of a proof that was issued at `iat`, both ends included.
pub record IsTimely (iat now : ℤ) (policy : VerificationPolicy) : Type 0 where
  pub positive : pos 0 <ℤ iat
  pub not_expired : now ≤ℤ iat +ℤ policy.max_proof_age_seconds
  pub not_early : iat ≤ℤ now +ℤ policy.allowed_future_skew_seconds

-- A proof is fresh exactly in its window, for any policy.
pub verify_freshness_iff :
    (iat now : ℤ) (policy : VerificationPolicy)
    → (verify_freshness iat now policy ≡ ok tt) ↔ IsTimely iat now policy
unfolding verify_freshness
verify_freshness_iff iat now policy = (
  λ h. ground (
    arith,
    -ℤ_parts now iat,
    -ℤ_parts iat now,
    +ℤ_parts iat policy.max_proof_age_seconds,
    +ℤ_parts now policy.allowed_future_skew_seconds,
  ),
  λ (t : IsTimely iat now policy). ground (
    arith,
    -ℤ_parts now iat,
    -ℤ_parts iat now,
    +ℤ_parts iat policy.max_proof_age_seconds,
    +ℤ_parts now policy.allowed_future_skew_seconds,
  ),
)

-- The nonce check passes exactly when no nonce is required, or the presented one is the required one.
pub verify_nonce_iff :
    (presented : Option Bytes) (required : Option DpopNonce)
    → (verify_nonce presented required ≡ ok tt)
      ↔ ((n : DpopNonce) → required ≡ some n → presented ≡ some n.value)
unfolding verify_nonce
verify_nonce_iff presented none = (λ h n e. cc, λ h. refl)
verify_nonce_iff none (some r) = (λ h n e. cc, λ h. absurd (ground (arith, h r refl)))
verify_nonce_iff (some a) (some r) = (
  λ h n e. ground (arith, bytes_eq_iff a r.value),
  λ h. ground (arith, bytes_eq_iff a r.value, h r refl),
)
