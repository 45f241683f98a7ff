-- ===== src/Verifier/Directory/Safe.antt =====
-- Code over the file system that keeps a condition on its state at every step, also where it fails.
use keylix_community.Prelude.{◌≡◌, refl, Bool, true, false, Result, ok, err, arith, if◌then◌else◌}
use keylix_community.Dpop.Errors.{DpopPortError}
use keylix_community.Verifier.Directory.{
  Io, M, ◌>>=◌, ◌>>◌, return, fail_when, observe, observed, lift,
}
use keylix_community.Verifier.Directory.Outcomes.{
  Outcome, Runs, bind-Runs, lift-Runs, fail_when-Runs,
}

abbrev pub Any : {A : Type 0} → A → Type 0
Any a = Unit {0}

module _ {S : Type 0} (P : S → Type 0) where
  -- Code that keeps a condition, whether it fails or not, with a fact on what it returns.
  abbrev pub Safe : {A : Type 0} → M S A → (A → Type 0) → Type 0
  Safe m Q = Runs P m (λ a s. P s × Q a) P

  pub safe_bind :
      {A B : Type 0} (Q : A → Type 0) (R : B → Type 0) (m : M S A) (k : A → M S B)
      → Safe m Q
      → ((a : A) → Q a → Safe (k a) R)
      → Safe (m >>= k) R
  safe_bind Q R m k first rest =
      bind-Runs (λ a s. P s × Q a) (λ b s. P s × R b) P k (λ a s p. rest a p.1 s p.0) P m first

  pub safe_lift :
      {A : Type 0} (Q : A → Type 0) (op : Io S A)
      → ((s : S) → P s → P (op s).1)
      → ((s : S) → P s → (a : A) → (op s).0 ≡ ok a → Q a)
      → Safe (lift op) Q
  safe_lift Q op keeps fact =
      lift-Runs (λ a s. P s × Q a) P P op (λ s p a h. (keeps s p, fact s p a h))
        (λ s p e h. keeps s p)

  weaken-Outcome :
      {A E : Type 0} (Q R : A → Type 0)
      → ((a : A) → Q a → R a)
      → (r : Result E A × S) → Outcome (λ a s. P s × Q a) P r
      → Outcome (λ a s. P s × R a) P r
  weaken-Outcome Q R h (ok a, s) (p, q) = (p, h a q)
  weaken-Outcome Q R h (err e, s) p = p

  -- A step whose value tells nothing.
  pub safe_step :
      {A B : Type 0} (R : B → Type 0) (op : Io S A) (k : A → M S B)
      → ((s : S) → P s → P (op s).1)
      → ((a : A) → Safe (k a) R)
      → Safe (lift op >>= k) R
  safe_step R op k keeps rest =
      safe_bind Any R (lift op) k (safe_lift Any op keeps (λ s p a h. tt)) (λ a u. rest a)

  pub safe_guard :
      {B : Type 0} (R : B → Type 0) (test : Bool) (k : M S B)
      → (test ≡ false → Safe k R)
      → Safe (fail_when test >> k) R
  safe_guard R test k rest =
      safe_bind (λ u. test ≡ false) R (fail_when test) (λ u. k) (fail_when-Runs P P test (λ s p. p))
        (λ u h. rest h)

  pub safe_return : {A : Type 0} (Q : A → Type 0) (a : A) → Q a → Safe (return a) Q
  safe_return Q a q s p = (p, q)

  observed-Safe :
      {A E : Type 0} (Q : Result E A → Type 0) (r : Result E A × S)
      → P r.1
      → Q r.0
      → Outcome (λ a s. P s × Q a) P (observed r)
  observed-Safe Q (r, s) p q = (p, q)

  pub safe_observe :
      {A E : Type 0} (Q : Result E A → Type 0) (op : S → Result E A × S)
      → ((s : S) → P s → P (op s).1 × Q (op s).0)
      → Safe (observe op) Q
  safe_observe Q op keeps s p = observed-Safe Q (op s) (keeps s p).0 (keeps s p).1

  Outcome-Safe :
      {A : Type 0} (Q : A → Type 0) (r : Result DpopPortError A × S)
      → Outcome (λ a s. P s × Q a) P r
      → Outcome (λ a s. P s × ((b : A) → a ≡ ok b → Q b)) P (observed r)
  Outcome-Safe Q (ok a, s) (p, q) = (p, λ b same. ground (arith, same, q))
  Outcome-Safe Q (err e, s) p = (p, λ b same. ground (arith, same))

  -- Code that is observed instead of ending the caller.
  pub safe_outcome :
      {A : Type 0} (Q : A → Type 0) (m : M S A)
      → Safe m Q
      → Safe (observe m) (λ r. (b : A) → r ≡ ok b → Q b)
  safe_outcome Q m safe s p = Outcome-Safe Q (m s) (safe s p)

  pub safe_weaken :
      {A : Type 0} (Q R : A → Type 0) (m : M S A) → ((a : A) → Q a → R a) → Safe m Q → Safe m R
  safe_weaken Q R m h safe s p = weaken-Outcome Q R h (m s) (safe s p)

  pub guard-Safe : (test : Bool) → Safe (fail_when test) Any
  guard-Safe test =
      safe_weaken (λ u. test ≡ false) Any (fail_when test) (λ u h. tt)
        (fail_when-Runs P P test (λ s p. p))

  pub if-Safe :
      {A : Type 0} (Q : A → Type 0) (test : Bool) (m k : M S A)
      → (test ≡ true → Safe m Q)
      → (test ≡ false → Safe k Q)
      → Safe (λ s. (if test then m else k) s) Q
  if-Safe Q true m k first second = first refl
  if-Safe Q false m k first second = second refl

  outcome-state :
      {A : Type 0} (Q : A → Type 0) (r : Result DpopPortError A × S)
      → Outcome (λ a s. P s × Q a) P r
      → P r.1
  outcome-state Q (ok a, s) h = h.0
  outcome-state Q (err e, s) h = h

  pub safe_state : {A : Type 0} (Q : A → Type 0) (m : M S A) → Safe m Q → (s : S) → P s → P (m s).1
  safe_state Q m safe s p = outcome-state Q (m s) (safe s p)

  outcome-value :
      {A : Type 0} (Q : A → Type 0) (r : Result DpopPortError A × S) (a : A)
      → Outcome (λ a s. P s × Q a) P r
      → r.0 ≡ ok a
      → Q a
  outcome-value Q (ok a, s) b h same = ground (arith, h.1, same)
  outcome-value Q (err e, s) b h same = ground (arith, same)

  pub safe_value :
      {A : Type 0} (Q : A → Type 0) (m : M S A)
      → Safe m Q
      → (s : S) → P s
      → (a : A) → (m s).0 ≡ ok a
      → Q a
  safe_value Q m safe s p a = outcome-value Q (m s) a (safe s p)
