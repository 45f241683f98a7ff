-- ===== src/Dpop/Proof/Json/Laws.antt =====
-- The visitor accepts exactly the documents without duplicate names.
use keylix_community.Prelude.{
  ◌≡◌, ◌↔◌, refl, Bool, true, false, List, [], ◌∷◌, Bytes, bytes_eq_iff, arith, &&-true, ◌&&◌,
  if◌then◌else◌, inl, inr, some, ok, Option-cases,
}
use keylix_community.Wire.{
  Json, Items, Members, null, bool, number, string, arr, obj, nil, cons, end, member,
}
use keylix_community.Platform.{Platform}
use keylix_community.Dpop.Proof.Json.{
  is_seen, accepts, accepts_items, accepts_members, IsFresh, HasUniqueNames, HaveUniqueNames,
  AreUnique, reject_duplicate_json_members,
}

-- None of the names was seen.
abbrev AreUnseen : Members → List Bytes → Type 0
AreUnseen end seen = Unit
AreUnseen (member k v ms) seen = (is_seen k seen ≡ false) × AreUnseen ms seen

AreUnseen-tail :
    (k : Bytes) (ms : Members) (seen : List Bytes)
    → AreUnseen ms (k ∷ seen)
    → AreUnseen ms seen × IsFresh k ms
AreUnseen-tail k end seen h = (tt, tt)
AreUnseen-tail k (member j v ms) seen h =
    let (rest, fresh) = AreUnseen-tail k ms seen h.1 in
    ((ground (arith, bytes_eq_iff k j), rest), (λ e. ground (arith, bytes_eq_iff k j), fresh))

AreUnseen-cons :
    (k : Bytes) (ms : Members) (seen : List Bytes)
    → AreUnseen ms seen
    → IsFresh k ms
    → AreUnseen ms (k ∷ seen)
AreUnseen-cons k end seen h f = tt
AreUnseen-cons k (member j v ms) seen h f =
    (ground (arith, bytes_eq_iff k j, f.0), AreUnseen-cons k ms seen h.1 f.1)

AreUnseen-nil : (ms : Members) → AreUnseen ms []
AreUnseen-nil end = tt
AreUnseen-nil (member k v ms) = (refl, AreUnseen-nil ms)

if_false_else : (t r : Bool) → (if t then false else r) ≡ true → (t ≡ false) × (r ≡ true)
if_false_else t r h = ground arith

&&-intro : (a b : Bool) → a ≡ true → b ≡ true → (a && b) ≡ true
&&-intro a b h k = ground arith

mutual
  unfolding accepts HasUniqueNames

  accepts_sound : (j : Json) → accepts j ≡ true → HasUniqueNames j
  accepts_sound null h = tt
  accepts_sound (bool b) h = tt
  accepts_sound (number n) h = tt
  accepts_sound (string s) h = tt
  accepts_sound (arr xs) h = accepts_items_sound xs h
  accepts_sound (obj ms) h = (accepts_members_sound ms [] h).1

  accepts_items_sound : (xs : Items) → accepts_items xs ≡ true → HaveUniqueNames xs
  accepts_items_sound nil h = tt
  accepts_items_sound (cons x xs) h =
      let (a, b) = &&-true _ _ h in (accepts_sound x a, accepts_items_sound xs b)

  accepts_members_sound :
      (ms : Members) (seen : List Bytes)
      → accepts_members ms seen ≡ true
      → AreUnseen ms seen × AreUnique ms
  accepts_members_sound end seen h = (tt, tt)
  accepts_members_sound (member k v ms) seen h =
      let (unseen, rest) = if_false_else _ _ h in
      let (value, more) = &&-true _ _ rest in
      let (below, unique) = accepts_members_sound ms (k ∷ seen) more in
      let (others, fresh) = AreUnseen-tail k ms seen below in
      ((unseen, others), (fresh, accepts_sound v value, unique))

mutual
  unfolding accepts HasUniqueNames

  accepts_complete : (j : Json) → HasUniqueNames j → accepts j ≡ true
  accepts_complete null h = refl
  accepts_complete (bool b) h = refl
  accepts_complete (number n) h = refl
  accepts_complete (string s) h = refl
  accepts_complete (arr xs) h = accepts_items_complete xs h
  accepts_complete (obj ms) h = accepts_members_complete ms [] (AreUnseen-nil ms) h

  accepts_items_complete : (xs : Items) → HaveUniqueNames xs → accepts_items xs ≡ true
  accepts_items_complete nil h = refl
  accepts_items_complete (cons x xs) h =
      &&-intro _ _ (accepts_complete x h.0) (accepts_items_complete xs h.1)

  accepts_members_complete :
      (ms : Members) (seen : List Bytes)
      → AreUnseen ms seen
      → AreUnique ms
      → accepts_members ms seen ≡ true
  accepts_members_complete end seen u h = refl
  accepts_members_complete (member k v ms) seen u h = rw u.0 (
      &&-intro _ _ (accepts_complete v h.1)
        (accepts_members_complete ms (k ∷ seen) (AreUnseen-cons k ms seen u.1 h.0) h.2))

-- The check passes exactly on well-formed JSON in which no object, at any depth, has two members of
-- one name.
pub reject_duplicate_json_members_iff :
    (p : Platform) (input : Bytes)
    → (reject_duplicate_json_members p input ≡ ok tt)
      ↔ ((j : Json) × (p.read_json input ≡ some j) × HasUniqueNames j)
unfolding reject_duplicate_json_members
reject_duplicate_json_members_iff p input = (passed, unique)
  where
    passed :
        reject_duplicate_json_members p input ≡ ok tt
        → (j : Json) × (p.read_json input ≡ some j) × HasUniqueNames j
    passed h = elim (Option-cases (p.read_json input)) [
      | inl e ↦ absurd (ground (arith, e))
      | inr (j, e) ↦ (j, e, accepts_sound j (ground (arith, e)))
    ]

    unique :
        ((j : Json) × (p.read_json input ≡ some j) × HasUniqueNames j)
        → reject_duplicate_json_members p input ≡ ok tt
    unique (j, e, h) = ground (arith, e, accepts_complete j h)
