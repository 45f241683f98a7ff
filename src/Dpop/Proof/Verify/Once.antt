-- ===== src/Dpop/Proof/Verify/Once.antt =====
-- No proof is accepted twice, over any replay store that keeps its contract.
use keylix_community.Prelude.{
  ◌≡◌, ◌≢◌, ap, inl, inr, List, [], ◌∷◌, Result, ok, err, ℤ, arith, Result-cases, pos_part,
  neg_part,
}
use keylix_community.Platform.{Platform}
use keylix_community.Dpop.Errors.{DpopError}
use keylix_community.Dpop.Ports.{Reading, ReplayKey, ReplayStore}
use keylix_community.Dpop.Request.{DpopRequest}
use keylix_community.Dpop.State.Contract.{
  ReplayContract, NotBefore, later, Guarded, step-Guarded, refused_while-Guarded,
}
use keylix_community.Dpop.Proof.Parse.{UnverifiedDpopProof}
use keylix_community.Dpop.Proof.Policy.{VerificationPolicy}
use keylix_community.Dpop.Proof.Verify.{VerifiedDpopProof, Checked, check_proof, record_use, verify}
use keylix_community.Dpop.Proof.Verify.Laws.{IsAcceptable, check_proof_complete, verify_iff}

-- One call of a verifier: what it is given, and what the two clocks read.
pub record Attempt : Type 0 where
  pub clock : Reading
  pub store_clock : Reading
  pub proof : UnverifiedDpopProof
  pub request : DpopRequest

-- The store's clock does not go back.
abbrev pub Ordered : ℤ → List Attempt → Type 0
Ordered t [] = Unit
Ordered t (a ∷ rest) = NotBefore t a.store_clock × Ordered (later t a.store_clock) rest

abbrev pub latest : ℤ → List Attempt → ℤ
latest t [] = t
latest t (a ∷ rest) = latest (later t a.store_clock) rest

module _ (p : Platform) {S : Type 0} (store : ReplayStore S) (policy : VerificationPolicy) where
  abbrev pub attempt : Attempt → S → Result DpopError VerifiedDpopProof × S
  attempt a s = verify p store policy a.clock a.store_clock a.proof a.request s

  -- The state after a sequence of calls of one verifier.
  abbrev pub run : List Attempt → S → S
  run [] s = s
  run (a ∷ rest) s = run rest (attempt a s).1

-- A proof is bound to one method and one target, so its replay key and expiry are the same at every
-- request that accepts it.
same_key :
    (p : Platform) (policy : VerificationPolicy) (a b : Attempt) (c d : Checked)
    → a.proof ≡ b.proof
    → IsAcceptable p policy a.clock a.proof a.request c
    → IsAcceptable p policy b.clock b.proof b.request d
    → (c.replay_key ≡ d.replay_key) × (c.expires_at_unix ≡ d.expires_at_unix)
same_key p policy a b c d same x y = (
  cc (
    same, x.bound.method, y.bound.method, x.bound.target, y.bound.target, x.prepared.key,
    y.prepared.key,
  ),
  cc (same, x.prepared.expiry, y.prepared.expiry),
)

module _ (p : Platform) {S : Type 0} {store : ReplayStore S} {Valid : S → Type 0}
    {Holds : S → ReplayKey → ℤ → Type 0} (laws : ReplayContract store Valid Holds)
    (policy : VerificationPolicy) where
  attempt-Valid : (a : Attempt) (s : S) → Valid s → Valid (attempt p store policy a s).1
  unfolding verify
  attempt-Valid a s v = elim (Result-cases (check_proof p policy a.clock a.proof a.request)) [
    | inr (x, e) ↦ rw (e, record_use) v
    | inl (c, e) ↦
        rw (e, record_use) (laws.keeps_valid a.store_clock c.replay_key c.expires_at_unix s v)
  ]

  run-Valid : (calls : List Attempt) (s : S) → Valid s → Valid (run p store policy calls s)
  run-Valid [] s v = v
  run-Valid (a ∷ rest) s v = run-Valid rest _ (attempt-Valid a s v)

  later-Guarded :
      (Held : Type 0) (t : ℤ) (r : Reading) (e : ℤ)
      → NotBefore t r
      → Guarded Held t e
      → Guarded Held (later t r) e
  later-Guarded Held t r e o (inl h) = inl h
  later-Guarded Held t (ok now) e o (inr h) = inr (omega arith)
  later-Guarded Held t (err x) e o (inr h) = inr h

  attempt-Guarded :
      (a : Attempt) (s : S) (t : ℤ) (k : ReplayKey) (e : ℤ)
      → Valid s
      → NotBefore t a.store_clock
      → Guarded (Holds s k e) t e
      → Guarded (Holds (attempt p store policy a s).1 k e) (later t a.store_clock) e
  unfolding verify
  attempt-Guarded a s t k e v o g =
      elim (Result-cases (check_proof p policy a.clock a.proof a.request)) [
        | inr (x, c) ↦ rw (c, record_use) (later-Guarded (Holds s k e) t a.store_clock e o g)
        | inl (c, passed) ↦
            rw (passed, record_use)
              (step-Guarded laws a.store_clock c.replay_key c.expires_at_unix s t k e v o g)
      ]

  run-Guarded :
      (calls : List Attempt) (s : S) (t : ℤ) (k : ReplayKey) (e : ℤ)
      → Valid s
      → Ordered t calls
      → Guarded (Holds s k e) t e
      → Guarded (Holds (run p store policy calls s) k e) (latest t calls) e
  run-Guarded [] s t k e v o g = g
  run-Guarded (a ∷ rest) s t k e v o g =
      run-Guarded rest _ (later t a.store_clock) k e (attempt-Valid a s v) o.1
        (attempt-Guarded a s t k e v o.0 g)

  -- What an accepted call leaves: its key is held, and the store's clock was read in time.
  accepted-Holds :
      (a : Attempt) (s : S) (v : VerifiedDpopProof)
      → Valid s
      → (attempt p store policy a s).0 ≡ ok v
      → (c : Checked) × IsAcceptable p policy a.clock a.proof a.request c
        × Holds (attempt p store policy a s).1 c.replay_key c.expires_at_unix
  unfolding verify
  accepted-Holds a s v valid h =
      let (c, acceptable, new, _) =
        (verify_iff p store policy a.clock a.store_clock a.proof a.request s v).0 h in
      (
        c,
        acceptable,
        rw (check_proof_complete p policy a.clock a.proof a.request c acceptable, record_use)
            (laws.records a.store_clock c.replay_key c.expires_at_unix s valid new),
      )

  -- A proof that the verifier accepted, over a valid store that keeps the replay contract, is not
  -- accepted by a later call under the same policy: for no request, however many other proofs are
  -- verified in between, as long as the store's clock does not go back.
  pub accepted_once :
      (a b : Attempt) (s : S) (v w : VerifiedDpopProof) (t : ℤ) (calls : List Attempt)
      → Valid s
      → a.store_clock ≡ ok t
      → (attempt p store policy a s).0 ≡ ok v
      → Ordered t calls
      → NotBefore (latest t calls) b.store_clock
      → a.proof ≡ b.proof
      → (attempt p store policy b (run p store policy calls (attempt p store policy a s).1)).0
        ≢ ok w
  accepted_once a b s v w t calls valid read first o last same again =
      let after : S = (attempt p store policy a s).1 in
      let now : S = run p store policy calls after in
      let (c, x, held) = accepted-Holds a s v valid first in
      let (d, y, new, _) =
        (verify_iff p store policy b.clock b.store_clock b.proof b.request now w).0 again in
      let (key, expiry) = same_key p policy a b c d same x y in
      let after_valid : Valid after = attempt-Valid a s valid in
      refused_while-Guarded laws b.store_clock c.replay_key c.expires_at_unix d.expires_at_unix now
        (latest t calls) (run-Valid calls after after_valid)
        (omega (arith, ap pos_part expiry, ap neg_part expiry)) last
        (run-Guarded calls after t c.replay_key c.expires_at_unix after_valid o (inl held))
        (rw key new)
