-- ===== src/Dpop/Proof/Json.antt =====
-- `reject_duplicate_json_members` of crates/keylix-dpop/src/proof.rs: the visitor `UniqueJsonVisitor`
-- over the document that serde_json reads.
pub mod Laws
use keylix_community.Prelude.{
  ◌≡◌, ◌↔◌, refl, Bool, true, false, ◌&&◌, List, [], ◌∷◌, Option, none, some, Bytes, Result, ok,
  err, bytes_eq, bytes_eq_iff, arith, if◌then◌else◌, ◌≢◌,
}
use keylix_community.Wire.{
  Json, Items, Members, null, bool, number, string, arr, obj, nil, cons, end, member,
}
use keylix_community.Platform.{Platform}
use keylix_community.Dpop.Errors.{DpopError, malformed_proof}

-- Membership in the set of the keys seen.
abbrev pub is_seen : Bytes → List Bytes → Bool
is_seen k [] = false
is_seen k (j ∷ seen) = if bytes_eq j k then true else is_seen k seen

unfoldable mutual
  -- Whether the visitor accepts a value.
  pub accepts : Json → Bool
  accepts null = true
  accepts (bool b) = true
  accepts (number n) = true
  accepts (string s) = true
  accepts (arr xs) = accepts_items xs
  accepts (obj ms) = accepts_members ms []

  pub accepts_items : Items → Bool
  accepts_items nil = true
  accepts_items (cons x xs) = accepts x && accepts_items xs

  pub accepts_members : Members → List Bytes → Bool
  accepts_members end seen = true
  accepts_members (member k v ms) seen =
      if is_seen k seen then false else accepts v && accepts_members ms (k ∷ seen)

unfoldable pub reject_duplicate_json_members : Platform → Bytes → Result DpopError (Unit {0})
reject_duplicate_json_members p input = elim (p.read_json input) [
  | none ↦ err malformed_proof
  | some document ↦ if accepts document then ok tt else err malformed_proof
]

-- The specification: in every object of the document the member names are pairwise different.
abbrev pub IsFresh : Bytes → Members → Type 0
IsFresh k end = Unit
IsFresh k (member j v ms) = (k ≢ j) × IsFresh k ms

mutual
  pub HasUniqueNames : Json → Type 0
  HasUniqueNames (arr xs) = HaveUniqueNames xs
  HasUniqueNames (obj ms) = AreUnique ms
  HasUniqueNames _ = Unit

  pub HaveUniqueNames : Items → Type 0
  HaveUniqueNames nil = Unit
  HaveUniqueNames (cons x xs) = HasUniqueNames x × HaveUniqueNames xs

  pub AreUnique : Members → Type 0
  AreUnique end = Unit
  AreUnique (member k v ms) = IsFresh k ms × HasUniqueNames v × AreUnique ms
