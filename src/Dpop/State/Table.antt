-- ===== src/Dpop/State/Table.antt =====
-- The `HashMap` of the stores as an association list with the operations that they use.
use keylix_community.Prelude.{
  ◌+◌, ◌≤◌, ◌≡◌, refl, Bool, true, false, List, [], ◌∷◌, Option, none, some, arith, length,
  if◌then◌else◌, ◌↔◌, retain,
}

-- `Eq` and `Hash` of a key: a Boolean test that decides equality.
pub record Key {ℓ} (K : Type ℓ) : Type ℓ where
  pub same : K → K → Bool
  pub same_iff : (a b : K) → (same a b ≡ true) ↔ (a ≡ b)

abbrev pub keep_if {ℓ} : {V : Type ℓ} → (V → Bool) → Option V → Option V
keep_if p none = none
keep_if p (some v) = if p v then some v else none

module _ {K V : Type 0} ⦃e : Key K⦄ where
  abbrev pub get : K → List (K × V) → Option V
  get k [] = none
  get k ((j, v) ∷ m) = if e.same j k then some v else get k m

  abbrev pub contains_key : K → List (K × V) → Bool
  contains_key k m = elim (get k m) [ none ↦ false | some v ↦ true ]

  abbrev pub insert : K → V → List (K × V) → List (K × V)
  insert k v [] = (k, v) ∷ []
  insert k v ((j, w) ∷ m) = if e.same j k then (k, v) ∷ m else (j, w) ∷ insert k v m

  abbrev pub remove : K → List (K × V) → List (K × V)
  remove k [] = []
  remove k ((j, w) ∷ m) = if e.same j k then m else (j, w) ∷ remove k m

  -- No key stands twice.
  abbrev pub HasDistinctKeys : List (K × V) → Type 0
  HasDistinctKeys [] = Unit {0}
  HasDistinctKeys ((j, v) ∷ m) = (get j m ≡ none) × HasDistinctKeys m

  pub get-insert :
      (k j : K) (v : V) (m : List (K × V))
      → get j (insert k v m) ≡ (if e.same k j then some v else get j m)
  get-insert k j v [] = refl
  get-insert k j v ((i, w) ∷ m) =
      ground (arith, e.same_iff k j, e.same_iff i k, e.same_iff i j, get-insert k j v m)

  pub length-insert :
      (k : K) (v : V) (m : List (K × V))
      → length (insert k v m) ≡ (if contains_key k m then length m else length m + 1)
  length-insert k v [] = ground arith
  length-insert k v ((i, w) ∷ m) = ground (arith, length-insert k v m)

  pub insert-HasDistinctKeys :
      (k : K) (v : V) (m : List (K × V)) → HasDistinctKeys m → HasDistinctKeys (insert k v m)
  insert-HasDistinctKeys k v [] d = (refl, tt)
  insert-HasDistinctKeys k v ((i, w) ∷ m) d =
      ground (
        arith,
        e.same_iff k i,
        e.same_iff i k,
        get-insert k i v m,
        insert-HasDistinctKeys k v m d.1,
      )

  pub get-remove :
      (k j : K) (m : List (K × V))
      → HasDistinctKeys m
      → get j (remove k m) ≡ (if e.same k j then none else get j m)
  get-remove k j [] d = ground arith
  get-remove k j ((i, w) ∷ m) d =
      ground (arith, e.same_iff k j, e.same_iff i k, e.same_iff i j, get-remove k j m d.1)

  pub length-remove-le : (k : K) (m : List (K × V)) → length (remove k m) ≤ length m
  length-remove-le k [] = omega arith
  length-remove-le k ((i, w) ∷ m) = ground (arith, length-remove-le k m)

  get-remove-none : (k j : K) (m : List (K × V)) → get j m ≡ none → get j (remove k m) ≡ none
  get-remove-none k j [] h = refl
  get-remove-none k j ((i, w) ∷ m) h = ground (arith, get-remove-none k j m)

  pub remove-HasDistinctKeys :
      (k : K) (m : List (K × V)) → HasDistinctKeys m → HasDistinctKeys (remove k m)
  remove-HasDistinctKeys k [] d = tt
  remove-HasDistinctKeys k ((i, w) ∷ m) d =
      ground (arith, get-remove-none k i m, remove-HasDistinctKeys k m d.1)

  -- `HashMap::retain` by a test on the value.
  pub get-retain-none :
      (p : V → Bool) (j : K) (m : List (K × V))
      → get j m ≡ none
      → get j (retain (λ (kv : K × V). p kv.1) m) ≡ none
  get-retain-none p j [] h = refl
  get-retain-none p j ((i, w) ∷ m) h = ground (arith, get-retain-none p j m)

  pub get-retain :
      (p : V → Bool) (j : K) (m : List (K × V))
      → HasDistinctKeys m
      → get j (retain (λ (kv : K × V). p kv.1) m) ≡ keep_if p (get j m)
  get-retain p j [] d = refl
  get-retain p j ((i, w) ∷ m) d =
      ground (arith, e.same_iff i j, get-retain-none p j m, get-retain p j m d.1)

  pub retain-HasDistinctKeys :
      (p : V → Bool) (m : List (K × V))
      → HasDistinctKeys m
      → HasDistinctKeys (retain (λ (kv : K × V). p kv.1) m)
  retain-HasDistinctKeys p [] d = tt
  retain-HasDistinctKeys p ((i, w) ∷ m) d =
      ground (arith, get-retain-none p i m, retain-HasDistinctKeys p m d.1)
