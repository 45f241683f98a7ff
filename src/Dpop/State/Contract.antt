-- ===== src/Dpop/State/Contract.antt =====
-- What a `ReplayStore` promises (`trait ReplayStore` of crates/keylix-dpop/src/ports.rs): a key that
-- was recorded is refused until its expiry has passed. The laws are stated for any store, and the
-- verifier's theorems use no more than these laws.
use keylix_community.Prelude.{◌≡◌, ◌≢◌, ◌⊎◌, inl, inr, List, [], ◌∷◌, ok, err, ℤ, ◌≤ℤ◌, ◌<ℤ◌, arith}
use keylix_community.Dpop.Ports.{Reading, ReplayKey, ReplayStore, fresh}

-- The clock has not passed the expiry, as far as the reading tells.
abbrev pub NotAfter : Reading → ℤ → Type 0
NotAfter (ok now) expiry = now ≤ℤ expiry
NotAfter (err e) expiry = Unit

-- The clock did not go back behind `t`.
abbrev pub NotBefore : ℤ → Reading → Type 0
NotBefore t (ok now) = t ≤ℤ now
NotBefore t (err e) = Unit

abbrev pub later : ℤ → Reading → ℤ
later t (ok now) = now
later t (err e) = t

pub record ReplayContract {S : Type 0} (store : ReplayStore S) (Valid : S → Type 0)
    (Holds : S → ReplayKey → ℤ → Type 0) : Type 0 where
  pub keeps_valid :
      (r : Reading) (k : ReplayKey) (e : ℤ) (s : S)
      → Valid s
      → Valid (store.check_and_record r k e s).1
  pub records :
      (r : Reading) (k : ReplayKey) (e : ℤ) (s : S)
      → Valid s
      → (store.check_and_record r k e s).0 ≡ ok fresh
      → Holds (store.check_and_record r k e s).1 k e
  pub remembers :
      (r : Reading) (k : ReplayKey) (e : ℤ) (s : S) (j : ReplayKey) (f : ℤ)
      → Valid s
      → Holds s j f
      → NotAfter r f
      → Holds (store.check_and_record r k e s).1 j f
  pub refuses :
      (r : Reading) (k : ReplayKey) (e : ℤ) (s : S) (f : ℤ)
      → Valid s
      → Holds s k f
      → NotAfter r f
      → (store.check_and_record r k e s).0 ≢ ok fresh
  pub in_time :
      (r : Reading) (k : ReplayKey) (e : ℤ) (s : S)
      → (store.check_and_record r k e s).0 ≡ ok fresh
      → (now : ℤ) × (r ≡ ok now) × (now ≤ℤ e)

-- One call of the store, and what it is given.
pub record Call : Type 0 where
  pub reading : Reading
  pub key : ReplayKey
  pub expiry : ℤ

abbrev pub Ordered : ℤ → List Call → Type 0
Ordered t [] = Unit
Ordered t (c ∷ cs) = NotBefore t c.reading × Ordered (later t c.reading) cs

abbrev pub latest : ℤ → List Call → ℤ
latest t [] = t
latest t (c ∷ cs) = latest (later t c.reading) cs

module _ {S : Type 0} (store : ReplayStore S) where
  abbrev pub run : List Call → S → S
  run [] s = s
  run (c ∷ cs) s = run cs (store.check_and_record c.reading c.key c.expiry s).1

-- A record is kept, or its expiry has passed for good.
abbrev pub Guarded : Type 0 → ℤ → ℤ → Type 0
Guarded Held t e = Held ⊎ (e <ℤ t)

le_or_lt : (a b : ℤ) → (a ≤ℤ b) ⊎ (b <ℤ a)
le_or_lt a b = omega arith

module _ {S : Type 0} {store : ReplayStore S} {Valid : S → Type 0}
    {Holds : S → ReplayKey → ℤ → Type 0} (laws : ReplayContract store Valid Holds) where
  pub step-Guarded :
      (r : Reading) (j : ReplayKey) (f : ℤ) (s : S) (t : ℤ) (k : ReplayKey) (e : ℤ)
      → Valid s
      → NotBefore t r
      → Guarded (Holds s k e) t e
      → Guarded (Holds (store.check_and_record r j f s).1 k e) (later t r) e
  step-Guarded (err x) j f s t k e v o (inl h) = inl (laws.remembers (err x) j f s k e v h tt)
  step-Guarded (err x) j f s t k e v o (inr p) = inr p
  step-Guarded (ok now) j f s t k e v o (inl h) = elim (le_or_lt now e) [
    | inl p ↦ inl (laws.remembers (ok now) j f s k e v h p)
    | inr p ↦ inr p
  ]
  step-Guarded (ok now) j f s t k e v o (inr p) = inr (omega arith)

  run-Valid : (calls : List Call) (s : S) → Valid s → Valid (run store calls s)
  run-Valid [] s v = v
  run-Valid (c ∷ cs) s v = run-Valid cs _ (laws.keeps_valid c.reading c.key c.expiry s v)

  run-Guarded :
      (calls : List Call) (s : S) (t : ℤ) (k : ReplayKey) (e : ℤ)
      → Valid s
      → Ordered t calls
      → Guarded (Holds s k e) t e
      → Guarded (Holds (run store calls s) k e) (latest t calls) e
  run-Guarded [] s t k e v o g = g
  run-Guarded (c ∷ cs) s t k e v o g =
      run-Guarded cs _ (later t c.reading) k e (laws.keeps_valid c.reading c.key c.expiry s v) o.1
        (step-Guarded c.reading c.key c.expiry s t k e v o.0 g)

  pub refused_while-Guarded :
      (r : Reading) (k : ReplayKey) (e e' : ℤ) (s : S) (t : ℤ)
      → Valid s
      → e' ≤ℤ e
      → NotBefore t r
      → Guarded (Holds s k e) t e
      → (store.check_and_record r k e' s).0 ≢ ok fresh
  refused_while-Guarded (err x) k e e' s t v q o (inl h) accepted =
      laws.refuses (err x) k e' s e v h tt accepted
  refused_while-Guarded (ok now) k e e' s t v q o (inl h) accepted =
      let (u, same, p) = laws.in_time (ok now) k e' s accepted in
      laws.refuses (ok now) k e' s e v h (ground (arith, same, p, q)) accepted
  refused_while-Guarded r k e e' s t v q o (inr p) accepted =
      let (u, same, p') = laws.in_time r k e' s accepted in ground (arith, same, p', q)

  -- A key that a valid store accepted is not accepted again, with the same expiry or an earlier one,
  -- whatever calls come between, as long as the store's clock does not go back.
  pub recorded_once :
      (t : ℤ) (k : ReplayKey) (e e' : ℤ) (s : S) (calls : List Call) (r : Reading)
      → Valid s
      → (store.check_and_record (ok t) k e s).0 ≡ ok fresh
      → Ordered t calls
      → NotBefore (latest t calls) r
      → e' ≤ℤ e
      → (store.check_and_record r k e' (run store calls (store.check_and_record (ok t) k e s).1)).0
        ≢ ok fresh
  recorded_once t k e e' s calls r v accepted o last q =
      let after : S = (store.check_and_record (ok t) k e s).1 in
      let held : Holds after k e = laws.records (ok t) k e s v accepted in
      let valid : Valid after = laws.keeps_valid (ok t) k e s v in
      refused_while-Guarded r k e e' _ (latest t calls) (run-Valid calls after valid) q last
        (run-Guarded calls after t k e valid o (inl held))
