-- ===== src/Dpop/Proof/Verify/Laws.antt =====
-- Which proofs the verifier accepts, and what a refused one leaves behind.
use keylix_community.Prelude.{
  ◌≡◌, ◌≢◌, ◌↔◌, refl, ap, ◌∙◌, Bool, true, inl, inr, Option, none, some, Bytes, ok, err, arith,
  length, codes, bytes_eq_iff, bytes_eq_refl, ℤ, checked_add, >>=-eq-ok, >>-eq-ok, map_err,
  Result-cases, Option-cases,
}
use keylix_community.Platform.{Platform}
use keylix_community.Core.Jwk.{point, thumbprint}
use keylix_community.Dpop.Errors.{
  DpopError, clock_unavailable, replay_detected, replay_store_unavailable,
}
use keylix_community.Dpop.Ports.{
  DpopNonce, Reading, ReplayStore, ReplayStatus, PortResult, fresh, replay,
}
use keylix_community.Dpop.Request.{DpopRequest}
use keylix_community.Dpop.Request.Uri.{EffectiveRequestTarget, parse_target}
use keylix_community.Dpop.Proof.Parse.{UnverifiedDpopProof}
use keylix_community.Dpop.Proof.Policy.{VerificationPolicy, verify_freshness, verify_nonce}
use keylix_community.Dpop.Proof.Policy.Laws.{IsTimely, verify_freshness_iff, verify_nonce_iff}
use keylix_community.Dpop.Proof.Binding.{
  access_token_hash, verify_es256_signature, derive_replay_key,
}
use keylix_community.Dpop.Proof.Verify.{
  VerifiedDpopProof, Checked, is_present, signing_input, verify_access_token, check_signature,
  check_request, prepare, check_proof, conclude, verify,
}

module _ (p : Platform) where
  -- The signature is a P-256 signature of the key in the header over the text that was presented.
  pub record IsSigned (proof : UnverifiedDpopProof) : Type 0 where
    pub typ : proof.header.typ ≡ codes "dpop+jwt"
    pub alg : proof.header.alg ≡ codes "ES256"
    pub sized : length proof.signature ≡ 64
    pub on_curve : p.accepts_point (point proof.public_jwk.x_bytes proof.public_jwk.y_bytes) ≡ true
    pub verified :
        p.verify_sig
          (point proof.public_jwk.x_bytes proof.public_jwk.y_bytes)
          (signing_input proof)
          proof.signature
        ≡ true

  -- The claims name this request and this access token, and the required nonce.
  pub record IsBoundTo (proof : UnverifiedDpopProof) (request : DpopRequest) : Type 0 where
    pub method : proof.claims.htm ≡ request.method
    pub target : parse_target p proof.claims.htu ≡ ok request.target
    pub nonce : (n : DpopNonce) → request.nonce ≡ some n → proof.claims.nonce ≡ some n.value
    pub token :
        (t : Bytes)
        → request.access_token ≡ some t
        → proof.claims.ath ≡ some (access_token_hash p t)

  check_signature_iff :
      (proof : UnverifiedDpopProof) → (check_signature p proof ≡ ok tt) ↔ IsSigned proof
  unfolding check_signature verify_es256_signature
  check_signature_iff proof = (
    λ h. ground (
      arith,
      bytes_eq_iff proof.header.typ (codes "dpop+jwt"),
      bytes_eq_iff proof.header.alg (codes "ES256"),
    ),
    λ (k : IsSigned proof). ground (
      arith,
      bytes_eq_iff proof.header.typ (codes "dpop+jwt"),
      bytes_eq_iff proof.header.alg (codes "ES256"),
    ),
  )

  target-eq : (a b : EffectiveRequestTarget) → a.text ≡ b.text → a ≡ b
  target-eq a b h = ground arith

  check_request_sound :
      (proof : UnverifiedDpopProof) (request : DpopRequest)
      → check_request p proof request ≡ ok tt
      → (proof.claims.htm ≡ request.method) × (parse_target p proof.claims.htu ≡ ok request.target)
  unfolding check_request
  check_request_sound proof request h = elim (Result-cases (parse_target p proof.claims.htu)) [
    | inr (x, e) ↦ absurd (ground (arith, e))
    | inl (t, e) ↦ (
      ground (arith, e, bytes_eq_iff proof.claims.htm request.method),
      e
          ∙ ap ok (
              target-eq t request.target
                ((bytes_eq_iff t.text request.target.text).0 (ground (arith, e)))),
    )
  ]

  check_request_complete :
      (proof : UnverifiedDpopProof) (request : DpopRequest)
      → proof.claims.htm ≡ request.method
      → parse_target p proof.claims.htu ≡ ok request.target
      → check_request p proof request ≡ ok tt
  unfolding check_request
  check_request_complete proof request m t = ground (
    arith,
    (bytes_eq_iff proof.claims.htm request.method).1 m,
    t,
    bytes_eq_refl request.target.text,
  )

  verify_access_token_sound :
      (ath token : Option Bytes) (b : Bool)
      → verify_access_token p ath token ≡ ok b
      → (b ≡ is_present token) × ((t : Bytes) → token ≡ some t → ath ≡ some (access_token_hash p t))
  unfolding verify_access_token
  verify_access_token_sound ath none b h = (ground arith, λ t e. cc)
  verify_access_token_sound none (some u) b h = (cc, λ t e. cc)
  verify_access_token_sound (some a) (some u) b h =
      (ground arith, λ t e. ground (arith, bytes_eq_iff a (access_token_hash p u)))

  verify_access_token_complete :
      (ath token : Option Bytes)
      → ((t : Bytes) → token ≡ some t → ath ≡ some (access_token_hash p t))
      → verify_access_token p ath token ≡ ok (is_present token)
  unfolding verify_access_token
  verify_access_token_complete ath none h = refl
  verify_access_token_complete ath (some u) h =
      rw (h u refl) (rw (bytes_eq_refl (access_token_hash p u)) refl)

  -- The replay key and the expiry that go with a proof and a request.
  pub record IsPrepared (policy : VerificationPolicy) (proof : UnverifiedDpopProof)
      (request : DpopRequest) (flag : Bool) (checked : Checked) : Type 0 where
    pub print : checked.key_thumbprint ≡ thumbprint p proof.public_jwk
    pub key :
        derive_replay_key p
          (thumbprint p proof.public_jwk)
          request.method
          request.target
          proof.claims.jti
        ≡ ok checked.replay_key
    pub expiry :
        checked_add proof.claims.iat policy.max_proof_age_seconds ≡ some checked.expires_at_unix
    pub flagged : checked.access_token_hash_verified ≡ flag

  prepare_iff :
      (policy : VerificationPolicy) (proof : UnverifiedDpopProof) (request : DpopRequest)
      (flag : Bool) (checked : Checked)
      → (prepare p policy proof request flag ≡ ok checked)
        ↔ IsPrepared policy proof request flag checked
  unfolding prepare
  prepare_iff policy proof request flag checked =
      (sound, λ (c : IsPrepared _ _ _ _ _). ground arith)
    where
      sound :
          prepare p policy proof request flag ≡ ok checked
          → IsPrepared policy proof request flag checked
      sound h =
          elim (Result-cases (
            derive_replay_key p (thumbprint p proof.public_jwk) request.method request.target
              proof.claims.jti)) [
                | inr (x, e) ↦ absurd (ground (arith, e))
                | inl (k, e) ↦
                    elim (Option-cases
                      (checked_add proof.claims.iat policy.max_proof_age_seconds)) [
                        | inl n ↦ absurd (ground (arith, e, n))
                        | inr (t, n) ↦ ground (arith, e, n)
                      ]
              ]

  -- All that the checks before the replay store ask for, without their order.
  pub record IsAcceptable (policy : VerificationPolicy) (clock : Reading)
      (proof : UnverifiedDpopProof) (request : DpopRequest) (checked : Checked) : Type 0 where
    pub signed : IsSigned proof
    pub bound : IsBoundTo proof request
    pub now : ℤ
    pub read : clock ≡ ok now
    pub timely : IsTimely proof.claims.iat now policy
    pub prepared : IsPrepared policy proof request (is_present request.access_token) checked

  read_ok :
      (clock : Reading) (now : ℤ) → map_err (λ e. clock_unavailable) clock ≡ ok now → clock ≡ ok now
  read_ok (ok t) now h = cc
  read_ok (err e) now h = cc

  pub check_proof_sound :
      (policy : VerificationPolicy) (clock : Reading) (proof : UnverifiedDpopProof)
      (request : DpopRequest) (checked : Checked)
      → check_proof p policy clock proof request ≡ ok checked
      → IsAcceptable policy clock proof request checked
  unfolding check_proof
  check_proof_sound policy clock proof request checked h =
      let (signed, h1) = >>-eq-ok (check_signature p proof) _ h in
      let (named, h2) = >>-eq-ok (check_request p proof request) _ h1 in
      let (now, read, h3) = >>=-eq-ok (map_err (λ e. clock_unavailable) clock) _ h2 in
      let (timely, h4) = >>-eq-ok (verify_freshness proof.claims.iat now policy) _ h3 in
      let (nonced, h5) = >>-eq-ok (verify_nonce proof.claims.nonce request.nonce) _ h4 in
      let (flag, hashed, h6) =
        >>=-eq-ok (verify_access_token p proof.claims.ath request.access_token) _ h5 in
      let (method, target) = check_request_sound proof request named in
      let (set, token) =
        verify_access_token_sound proof.claims.ath request.access_token flag hashed in
      record {
        signed = (check_signature_iff proof).0 signed;
        bound = record {
          method = method;
          target = target;
          nonce = (verify_nonce_iff proof.claims.nonce request.nonce).0 nonced;
          token = token;
        };
        now = now;
        read = read_ok clock now read;
        timely = (verify_freshness_iff proof.claims.iat now policy).0 timely;
        prepared = (prepare_iff policy proof request _ checked).0 (rw (← set) h6);
      }

  pub check_proof_complete :
      (policy : VerificationPolicy) (clock : Reading) (proof : UnverifiedDpopProof)
      (request : DpopRequest) (checked : Checked)
      → IsAcceptable policy clock proof request checked
      → check_proof p policy clock proof request ≡ ok checked
  unfolding check_proof
  check_proof_complete policy clock proof request checked a =
      rw
        (
          (check_signature_iff proof).1 a.signed,
          check_request_complete proof request a.bound.method a.bound.target,
          a.read,
          (verify_freshness_iff proof.claims.iat a.now policy).1 a.timely,
          (verify_nonce_iff proof.claims.nonce request.nonce).1 a.bound.nonce,
          verify_access_token_complete proof.claims.ath request.access_token a.bound.token,
          (prepare_iff policy proof request (is_present request.access_token) checked).1 a.prepared,
        )
        refl

module _ (p : Platform) {S : Type 0} (store : ReplayStore S) where
  -- The value that is returned for an accepted proof.
  abbrev pub verified : UnverifiedDpopProof → DpopRequest → VerifiedDpopProof
  verified proof request = record {
    key_thumbprint = thumbprint p proof.public_jwk;
    issued_at_unix = proof.claims.iat;
    nonce_enforced = is_present request.nonce;
    replay_checked = true;
    access_token_hash_verified = is_present request.access_token;
  }

  -- The verifier accepts exactly the proofs that are signed, bound to this request, timely, and new
  -- to the replay store; what it returns is read off the proof and the request.
  pub verify_iff :
      (policy : VerificationPolicy) (clock store_clock : Reading) (proof : UnverifiedDpopProof)
      (request : DpopRequest) (s : S) (v : VerifiedDpopProof)
      → ((verify p store policy clock store_clock proof request s).0 ≡ ok v) ↔ (
          (checked : Checked) × IsAcceptable p policy clock proof request checked
          × ((store.check_and_record store_clock checked.replay_key checked.expires_at_unix s).0
              ≡ ok fresh)
          × (v ≡ verified proof request))
  unfolding verify
  verify_iff policy clock store_clock proof request s v = (sound, complete)
    where
      sound :
          (verify p store policy clock store_clock proof request s).0 ≡ ok v
          → (checked : Checked) × IsAcceptable p policy clock proof request checked
            × ((store.check_and_record store_clock checked.replay_key checked.expires_at_unix s).0
                ≡ ok fresh)
            × (v ≡ verified proof request)
      sound h = elim (Result-cases (check_proof p policy clock proof request)) [
        | inr (x, e) ↦ absurd (ground (arith, e))
        | inl (checked, e) ↦
            let a = check_proof_sound p policy clock proof request checked e in
            (checked, a, ground (arith, e), ground (arith, e, a.prepared.print, a.prepared.flagged))
      ]

      complete :
          (checked : Checked) × IsAcceptable p policy clock proof request checked
            × ((store.check_and_record store_clock checked.replay_key checked.expires_at_unix s).0
                ≡ ok fresh)
            × (v ≡ verified proof request)
          → (verify p store policy clock store_clock proof request s).0 ≡ ok v
      complete (checked, a, new, same) = ground (
        arith,
        check_proof_complete p policy clock proof request checked a,
        a.prepared.print,
        a.prepared.flagged,
        new,
        same,
      )

  -- Unless the replay store itself refused, a refused proof leaves the store as it was: a forged,
  -- stale or misdirected proof cannot fill it or use up an identifier.
  pub refused_leaves_store :
      (policy : VerificationPolicy) (clock store_clock : Reading) (proof : UnverifiedDpopProof)
      (request : DpopRequest) (s : S) (e : DpopError)
      → (verify p store policy clock store_clock proof request s).0 ≡ err e
      → e ≢ replay_detected
      → e ≢ replay_store_unavailable
      → (verify p store policy clock store_clock proof request s).1 ≡ s
  unfolding verify
  refused_leaves_store policy clock store_clock proof request s e h not_replay not_down =
      elim (Result-cases (check_proof p policy clock proof request)) [
        | inr (x, refused) ↦ ground (arith, refused)
        | inl (checked, passed) ↦ absurd (
            store_error checked
              (store.check_and_record store_clock checked.replay_key checked.expires_at_unix s).0
              (ground (arith, passed)))
      ]
    where
      store_error :
          (checked : Checked) (answer : PortResult ReplayStatus)
          → conclude proof request checked answer ≡ err e
          → ⊥
      store_error k (ok fresh) c = cc
      store_error k (ok replay) c = not_replay (ground arith)
      store_error k (err x) c = not_down (ground arith)
