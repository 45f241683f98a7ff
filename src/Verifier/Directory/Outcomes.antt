-- ===== src/Verifier/Directory/Outcomes.antt =====
-- What a run of fallible code guarantees: a condition on the state before it, one on the value and the
-- state if it returned, and one on the state if it failed.
use keylix_community.Prelude.{◌≡◌, refl, true, false, Bool, Result, ok, err}
use keylix_community.Dpop.Errors.{DpopPortError}
use keylix_community.Verifier.Directory.{IoError, Io, M, ◌>>=◌, fail_when, lift, lifted, after}

abbrev pub Outcome : {S A E : Type 0} → (A → S → Type 0) → (S → Type 0) → Result E A × S → Type 0
Outcome Q F (ok a, s) = Q a s
Outcome Q F (err e, s) = F s

abbrev pub Runs : {S A : Type 0} → (S → Type 0) → M S A → (A → S → Type 0) → (S → Type 0) → Type 0
Runs {S} P m Q F = (s : S) → P s → Outcome Q F (m s)

module _ {S A B : Type 0} (Q : A → S → Type 0) (R : B → S → Type 0) (F : S → Type 0) (k : A → M S B)
    (rest : (a : A) → Runs (Q a) (k a) R F) where
  after-Outcome : (r : Result DpopPortError A × S) → Outcome Q F r → Outcome R F (after k r)
  after-Outcome (ok a, s) h = rest a s h
  after-Outcome (err e, s) h = h

  pub bind-Runs : (P : S → Type 0) (m : M S A) → Runs P m Q F → Runs P (m >>= k) R F
  bind-Runs P m first s h = after-Outcome (m s) (first s h)

module _ {S A : Type 0} (Q : A → S → Type 0) (F : S → Type 0) where
  lifted-Outcome :
      (r : Result IoError A × S)
      → ((a : A) → r.0 ≡ ok a → Q a r.1)
      → ((e : IoError) → r.0 ≡ err e → F r.1)
      → Outcome Q F (lifted r)
  lifted-Outcome (ok a, s) h k = h a refl
  lifted-Outcome (err e, s) h k = k e refl

  pub lift-Runs :
      (P : S → Type 0) (op : Io S A)
      → ((s : S) → P s → (a : A) → (op s).0 ≡ ok a → Q a (op s).1)
      → ((s : S) → P s → (e : IoError) → (op s).0 ≡ err e → F (op s).1)
      → Runs P (lift op) Q F
  lift-Runs P op h k s p = lifted-Outcome (op s) (h s p) (k s p)

module _ {S : Type 0} (P : S → Type 0) (F : S → Type 0) where
  pub fail_when-Runs :
      (test : Bool)
      → ((s : S) → P s → F s)
      → Runs P (fail_when test) (λ u s. P s × (test ≡ false)) F
  fail_when-Runs true h s p = h s p
  fail_when-Runs false h s p = (p, refl)
