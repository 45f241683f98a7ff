-- ===== src/Dpop/Request/Dots/Segments.antt =====
-- A path as its segments, and what RFC 3986 means by removing the dot segments: the independent
-- description that `remove_dot_segments` is compared with.
use keylix_community.Prelude.{
  ◌≡◌, refl, Bool, false, List, [], ◌∷◌, ◌++◌, Bytes, codes, bytes_eq, contains, arith, ◌==◌,
  if◌then◌else◌, ℕ, Bool-cases, inl, inr,
}
use keylix_community.Dpop.Request.Dots.{slash}

-- `/s1/s2/…` from its segments, first to last.
abbrev pub join : List Bytes → Bytes
join [] = []
join (s ∷ segs) = slash ∷ (s ++ join segs)

-- The same from a stack, the last segment on top.
abbrev pub print : List Bytes → Bytes
print [] = []
print (s ∷ stack) = print stack ++ (slash ∷ s)

abbrev cons_head : Bytes → List Bytes → List Bytes
cons_head p [] = p ∷ []
cons_head p (s ∷ segs) = (p ++ s) ∷ segs

-- The segments of what follows the first slash of a path.
abbrev pub segments : Bytes → List Bytes
segments [] = [] ∷ []
segments (b ∷ s) =
    let rest = segments s in if b == slash then [] ∷ rest else cons_head (b ∷ []) rest

abbrev pub is_dot : Bytes → Bool
is_dot s = bytes_eq s (codes ".")

abbrev pub is_dot_dot : Bytes → Bool
is_dot_dot s = bytes_eq s (codes "..")

abbrev pub pop : List Bytes → List Bytes
pop [] = []
pop (s ∷ stack) = stack

-- `.` goes, `..` takes the segment before it away, and either leaves an empty segment at the end.
abbrev pub resolve : List Bytes → List Bytes → List Bytes
resolve [] stack = stack
resolve (s ∷ []) stack =
    if is_dot s then [] ∷ stack else if is_dot_dot s then [] ∷ pop stack else s ∷ stack
resolve (s ∷ t ∷ rest) stack =
    resolve (t ∷ rest) (if is_dot s then stack else if is_dot_dot s then pop stack else s ∷ stack)

-- No slash inside a segment.
abbrev pub ArePlain : List Bytes → Type 0
ArePlain [] = Unit {0}
ArePlain (s ∷ segs) = (contains slash s ≡ false) × ArePlain segs

abbrev pub HaveNoDots : List Bytes → Type 0
HaveNoDots [] = Unit {0}
HaveNoDots (s ∷ segs) = (is_dot s ≡ false) × (is_dot_dot s ≡ false) × HaveNoDots segs

join-segments_step :
    (b : ℕ) (s : Bytes) (segs : List Bytes)
    → join segs ≡ slash ∷ s
    → join (cons_head (b ∷ []) segs) ≡ slash ∷ b ∷ s
join-segments_step b s [] h = cc
join-segments_step b s (t ∷ segs) h = ground arith

pub join-segments : (s : Bytes) → join (segments s) ≡ slash ∷ s
join-segments [] = refl
join-segments (b ∷ s) = elim (Bool-cases (b == slash)) [
  | inl e ↦ rw e (ground (arith, join-segments s))
  | inr n ↦ rw n (join-segments_step b s (segments s) (join-segments s))
]

cons_head-ArePlain :
    (b : ℕ) (segs : List Bytes)
    → (b == slash) ≡ false
    → ArePlain segs
    → ArePlain (cons_head (b ∷ []) segs)
cons_head-ArePlain b [] n p = ground arith
cons_head-ArePlain b (t ∷ segs) n p = ground arith

pub segments-ArePlain : (s : Bytes) → ArePlain (segments s)
segments-ArePlain [] = (refl, tt)
segments-ArePlain (b ∷ s) = elim (Bool-cases (b == slash)) [
  | inl e ↦ rw e (refl, segments-ArePlain s)
  | inr n ↦ rw n (cons_head-ArePlain b (segments s) n (segments-ArePlain s))
]

pub pop-HaveNoDots : (stack : List Bytes) → HaveNoDots stack → HaveNoDots (pop stack)
pop-HaveNoDots [] h = tt
pop-HaveNoDots (s ∷ stack) h = h.2

-- No `.` and no `..` is left among the segments.
pub resolve-HaveNoDots :
    (segs stack : List Bytes) → HaveNoDots stack → HaveNoDots (resolve segs stack)
resolve-HaveNoDots [] stack h = h
resolve-HaveNoDots (s ∷ []) stack h = ground (arith, pop-HaveNoDots stack h)
resolve-HaveNoDots (s ∷ t ∷ rest) stack h =
    resolve-HaveNoDots (t ∷ rest) _ (ground (arith, pop-HaveNoDots stack h))
