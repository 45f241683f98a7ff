-- ===== src/Dpop/Request/Dots/Laws.antt =====
-- `remove_dot_segments` terminates and does to the text what `resolve` does to the segments.
use keylix_community.Prelude.{
  ℕ, zero, suc, ◌≤◌, ◌<◌, ◌≡◌, ◌≢◌, refl, sym, subst, ◌∙◌, Bool, ◌||◌, true, false, inl, inr, List,
  [], ◌∷◌, ◌++◌, none, some, Bytes, codes, bytes_eq, bytes_eq_iff, contains, starts_with, take,
  drop, length, length-append, length-drop, position, arith, ◌==◌, Bool-cases,
}
use keylix_community.Dpop.Request.Dots.{
  slash, rfind, remove_last_segment, segment_end, dot_round, dot_loop, remove_dot_segments,
}
use keylix_community.Dpop.Request.Dots.Segments.{
  join, print, segments, is_dot, is_dot_dot, pop, resolve, ArePlain, HaveNoDots, join-segments,
  segments-ArePlain, resolve-HaveNoDots,
}

starts_with-le : (p s : Bytes) → starts_with p s ≡ true → length p ≤ length s
starts_with-le [] s h = omega arith
starts_with-le (x ∷ p) [] h = cc
starts_with-le (x ∷ p) (c ∷ s) h = ground (arith, starts_with-le p s)

segment_end_pos : (b : ℕ) (s : Bytes) → 0 < segment_end (b ∷ s)
unfolding segment_end
segment_end_pos b s = ground arith

-- Every round takes at least one byte off a path that is not empty.
dot_round_shrinks :
    (b : ℕ) (s output : Bytes) → length (dot_round (b ∷ s) output).0 < length (b ∷ s)
unfolding dot_round
dot_round_shrinks b s output = ground (
  arith,
  length-drop 3 (b ∷ s),
  length-drop 2 (b ∷ s),
  length-drop 4 (b ∷ s),
  length-drop (segment_end (b ∷ s)) (b ∷ s),
  segment_end_pos b s,
)

rfind-none : (c : ℕ) (s : Bytes) → contains c s ≡ false → rfind c s ≡ none
unfolding rfind
rfind-none c [] h = refl
rfind-none c (b ∷ s) h = rw (rfind-none c s (ground arith)) (ground arith)

rfind_last : (c : ℕ) (a s : Bytes) → contains c s ≡ false → rfind c (a ++ c ∷ s) ≡ some (length a)
unfolding rfind
rfind_last c [] s h = rw (rfind-none c s h) (ground arith)
rfind_last c (b ∷ a) s h = rw (rfind_last c a s h)

take-append : (a b : Bytes) → take (length a) (a ++ b) ≡ a
take-append [] b = refl
take-append (x ∷ a) b = rw (take-append a b)

drop-append : (a b : Bytes) → drop (length a) (a ++ b) ≡ b
drop-append [] b = refl
drop-append (x ∷ a) b = drop-append a b

-- Removing the last segment is a pop.
remove_last_segment-print :
    (stack : List Bytes) → ArePlain stack → remove_last_segment (print stack) ≡ print (pop stack)
unfolding remove_last_segment rfind
remove_last_segment-print [] p = refl
remove_last_segment-print (s ∷ stack) p =
    rw (rfind_last slash (print stack) s p.0, remove_last_segment)
      (take-append (print stack) (slash ∷ s))

-- The first segment ends where the second begins.
position-join :
    (s : Bytes) (rest : List Bytes)
    → contains slash s ≡ false
    → position (λ x. x == slash) (s ++ join rest)
      ≡ elim rest [ [] ↦ none | t ∷ r ↦ some (length s) ]
position-join [] [] h = refl
position-join [] (t ∷ r) h = refl
position-join (b ∷ s) [] h = rw (position-join s [] (ground arith)) (ground arith)
position-join (b ∷ s) (t ∷ r) h = rw (position-join s (t ∷ r) (ground arith)) (ground arith)

segment_end-join :
    (s : Bytes) (rest : List Bytes)
    → contains slash s ≡ false
    → segment_end (join (s ∷ rest)) ≡ length (slash ∷ s)
unfolding segment_end
segment_end-join s [] h =
    rw (position-join s [] h, segment_end) (ground (arith, length-append s []))
segment_end-join s (t ∷ r) h = rw (position-join s (t ∷ r) h, segment_end) refl

-- One round on each kind of first segment.
module _ (out : Bytes) where
  round_dot :
      (t : Bytes) (r : List Bytes) → dot_round (join (codes "." ∷ t ∷ r)) out ≡ (join (t ∷ r), out)
  unfolding dot_round
  round_dot t r = refl

  round_dot_last : dot_round (join (codes "." ∷ [])) out ≡ (join ([] ∷ []), out)
  unfolding dot_round
  round_dot_last = refl

  round_dot_dot :
      (t : Bytes) (r : List Bytes)
      → dot_round (join (codes ".." ∷ t ∷ r)) out ≡ (join (t ∷ r), remove_last_segment out)
  unfolding dot_round
  round_dot_dot t r = refl

  round_dot_dot_last :
      dot_round (join (codes ".." ∷ [])) out ≡ (join ([] ∷ []), remove_last_segment out)
  unfolding dot_round
  round_dot_dot_last = refl

-- A path whose first segment is neither `.` nor `..` meets none of the special cases.
abbrev is_special : Bytes → Bool
is_special i =
    starts_with (codes "../") i
    || (starts_with (codes "./") i
        || (starts_with (codes "/./") i
            || (bytes_eq i (codes "/.")
                || (starts_with (codes "/../") i
                    || (bytes_eq i (codes "/..")
                        || (bytes_eq i (codes ".") || bytes_eq i (codes "..")))))))

not_special :
    (s : Bytes) (rest : List Bytes)
    → contains slash s ≡ false
    → is_dot s ≡ false
    → is_dot_dot s ≡ false
    → is_special (join (s ∷ rest)) ≡ false
not_special [] [] p d dd = refl
not_special [] (t ∷ r) p d dd = refl
not_special (a ∷ []) [] p d dd = ground arith
not_special (a ∷ []) (t ∷ r) p d dd = ground arith
not_special (a ∷ b ∷ []) [] p d dd = ground arith
not_special (a ∷ b ∷ []) (t ∷ r) p d dd = ground arith
not_special (a ∷ b ∷ c ∷ s) rest p d dd = ground arith

round_ordinary :
    (i out : Bytes)
    → is_special i ≡ false
    → dot_round i out ≡ (drop (segment_end i) i, out ++ take (segment_end i) i)
unfolding dot_round
round_ordinary i out h = ground arith

round_plain :
    (s : Bytes) (rest : List Bytes) (out : Bytes)
    → contains slash s ≡ false
    → is_dot s ≡ false
    → is_dot_dot s ≡ false
    → dot_round (join (s ∷ rest)) out ≡ (join rest, out ++ (slash ∷ s))
round_plain s rest out p d dd =
    round_ordinary (join (s ∷ rest)) out (not_special s rest p d dd)
    ∙ rw (segment_end-join s rest p, drop-append s (join rest), take-append s (join rest)) refl

-- One round does to the segments and the stack what one step of `resolve` does.
abbrev RoundResolves : Bytes → List Bytes → List Bytes → Type 0
RoundResolves s rest stack =
    (segs' : List Bytes) × (stack' : List Bytes) × (dot_round (join (s ∷ rest)) (print stack)
      ≡ (join segs', print stack'))
    × (resolve segs' stack' ≡ resolve (s ∷ rest) stack)
    × ArePlain segs'
    × ArePlain stack'

pop-ArePlain : (stack : List Bytes) → ArePlain stack → ArePlain (pop stack)
pop-ArePlain [] h = tt
pop-ArePlain (s ∷ stack) h = h.1

round_resolves :
    (s : Bytes) (rest stack : List Bytes)
    → ArePlain (s ∷ rest)
    → ArePlain stack
    → RoundResolves s rest stack
round_resolves s rest stack p q = elim (Bool-cases (is_dot s)) [
  | inl d ↦
      subst (λ x. RoundResolves x rest stack) (sym ((bytes_eq_iff s (codes ".")).0 d))
        (dotted rest p.1)
  | inr d ↦ elim (Bool-cases (is_dot_dot s)) [
    | inl dd ↦
        subst (λ x. RoundResolves x rest stack) (sym ((bytes_eq_iff s (codes "..")).0 dd))
          (double rest p.1)
    | inr dd ↦ (
      rest,
      s ∷ stack,
      round_plain s rest (print stack) p.0 d dd,
      ordinary rest d dd,
      p.1,
      (p.0, q),
    )
  ]
]
  where
    dotted : (r : List Bytes) → ArePlain r → RoundResolves (codes ".") r stack
    dotted [] a = ([] ∷ [], stack, round_dot_last (print stack), refl, (refl, tt), q)
    dotted (t ∷ r) a = (t ∷ r, stack, round_dot (print stack) t r, refl, a, q)

    double : (r : List Bytes) → ArePlain r → RoundResolves (codes "..") r stack
    double [] a = (
      [] ∷ [],
      pop stack,
      round_dot_dot_last (print stack) ∙ rw (remove_last_segment-print stack q) refl,
      refl,
      (refl, tt),
      pop-ArePlain stack q,
    )
    double (t ∷ r) a = (
      t ∷ r,
      pop stack,
      round_dot_dot (print stack) t r ∙ rw (remove_last_segment-print stack q) refl,
      refl,
      a,
      pop-ArePlain stack q,
    )

    ordinary :
        (r : List Bytes)
        → is_dot s ≡ false
        → is_dot_dot s ≡ false
        → resolve r (s ∷ stack) ≡ resolve (s ∷ r) stack
    ordinary [] d dd = rw (d, dd) refl
    ordinary (t ∷ r) d dd = rw (d, dd) refl

dot_loop-join :
    (fuel : ℕ) (segs stack : List Bytes)
    → ArePlain segs
    → ArePlain stack
    → length (join segs) ≤ fuel
    → dot_loop fuel (join segs) (print stack) ≡ some (print (resolve segs stack))
unfolding dot_loop
dot_loop-join zero [] stack p q h = refl
dot_loop-join (suc fuel) [] stack p q h = refl
dot_loop-join zero (s ∷ rest) stack p q h = absurd (omega arith)
dot_loop-join (suc fuel) (s ∷ rest) stack p q h =
    let (segs', stack', round, same, p', q') = round_resolves s rest stack p q in
    rw (round, ← same)
      (dot_loop-join fuel segs' stack' p' q'
        (ground (arith, dot_round_shrinks slash (s ++ join rest) (print stack), round)))

-- The loop returns on every path within a round for each byte.
pub dot_loop_total :
    (fuel : ℕ) (input output : Bytes) → length input ≤ fuel → dot_loop fuel input output ≢ none
unfolding dot_loop
dot_loop_total zero [] output h = λ e. cc
dot_loop_total zero (b ∷ s) output h = absurd (omega arith)
dot_loop_total (suc fuel) [] output h = λ e. cc
dot_loop_total (suc fuel) (b ∷ s) output h =
    dot_loop_total fuel (dot_round (b ∷ s) output).0 (dot_round (b ∷ s) output).1
      (omega (arith, dot_round_shrinks b s output))

-- On a path that begins with a slash, removing the dot segments is resolving the segments: `.` goes,
-- `..` takes its predecessor away, and no `.` and no `..` is left.
pub remove_dot_segments-resolve :
    (s : Bytes)
    → (remove_dot_segments (slash ∷ s) ≡ print (resolve (segments s) []))
      × HaveNoDots (resolve (segments s) [])
unfolding remove_dot_segments
remove_dot_segments-resolve s = (
  rw (← join-segments s) (
      rw
        (
          dot_loop-join (length (join (segments s))) (segments s) [] (segments-ArePlain s) tt
              (omega arith),
          remove_dot_segments,
        )
        refl),
  resolve-HaveNoDots (segments s) [] tt,
)
