-- ===== src/Dpop/Ports.antt =====
-- The value types and capabilities of crates/keylix-dpop/src/ports.rs. A clock is read by the
-- caller: each operation that reads one takes the reading, an error where the clock fails.
use keylix_community.Prelude.{
  ℕ, Bytes, Option, Result, ok, err, ℤ, ltb, length, is_empty, ◌||◌, if◌then◌else◌,
}
use keylix_community.Dpop.Errors.{DpopError, DpopPortError, proof_id_unavailable, malformed_proof}

abbrev pub max_proof_id_bytes : ℕ
max_proof_id_bytes = 256

abbrev pub max_nonce_bytes : ℕ
max_nonce_bytes = 1024

abbrev pub PortResult : Type 0 → Type 0
PortResult A = Result DpopPortError A

-- What `Clock::unix_seconds` returned at one call.
abbrev pub Reading : Type 0
Reading = PortResult ℤ

-- The opaque proof identifier, nonce and replay key.
pub record ProofId : Type 0 where
  pub value : Bytes

pub record DpopNonce : Type 0 where
  pub value : Bytes

pub record ReplayKey : Type 0 where
  pub bytes : Bytes

pub data ReplayStatus : Type 0 where
  fresh replay : ReplayStatus

-- `ProofId::new`.
unfoldable pub new_proof_id : Bytes → Result DpopError ProofId
new_proof_id value =
    if is_empty value || ltb max_proof_id_bytes (length value)
    then err proof_id_unavailable
    else ok (record { value = value })

-- `DpopNonce::new`.
unfoldable pub new_nonce : Bytes → Result DpopError DpopNonce
new_nonce value =
    if is_empty value || ltb max_nonce_bytes (length value)
    then err malformed_proof
    else ok (record { value = value })

-- `trait ReplayStore`, over the store's state. The reading is of the store's own clock.
pub record ReplayStore (S : Type 0) : Type 0 where
  pub check_and_record : Reading → ReplayKey → ℤ → S → PortResult ReplayStatus × S

-- `trait ServerNonceStore`, over the store's state. The text is what the store's generator returns
-- if it is asked for a nonce.
pub record ServerNonceStore (S C : Type 0) : Type 0 where
  pub expected_nonce : C → S → PortResult (Option DpopNonce)
  pub issue_nonce : PortResult DpopNonce → C → S → PortResult DpopNonce × S
