-- ===== src/Dpop/Request/Dots.antt =====
-- `remove_dot_segments` and `remove_last_segment` of crates/keylix-dpop/src/request.rs.
pub mod Laws
pub mod Segments
use keylix_community.Prelude.{
  ℕ, zero, suc, ◌+◌, Bool, true, false, ◌||◌, List, [], ◌∷◌, ◌++◌, Option, none, some, Bytes, codes,
  bytes_eq, starts_with, drop, take, length, position, is_empty, ◌==◌, if◌then◌else◌,
}

abbrev pub slash : ℕ
slash = b'/'

-- `str::rfind` of one character.
unfoldable pub rfind : ℕ → Bytes → Option ℕ
rfind c [] = none
rfind c (b ∷ s) = elim (rfind c s) [
  | some i ↦ some (suc i)
  | none ↦ if b == c then some 0 else none
]

unfoldable pub remove_last_segment : Bytes → Bytes
remove_last_segment output = elim (rfind slash output) [ some i ↦ take i output | none ↦ [] ]

-- The end of the first segment, its leading slash included. With or without that slash it is the
-- next slash after the first byte, or the end of the input.
unfoldable pub segment_end : Bytes → ℕ
segment_end [] = 0
segment_end (b ∷ s) = elim (position (λ x. x == slash) s) [ none ↦ suc (length s) | some i ↦ suc i ]

-- One round of the loop: what is left of the input, and the output so far.
unfoldable pub dot_round : Bytes → Bytes → Bytes × Bytes
dot_round input output =
    if starts_with (codes "../") input
    then (drop 3 input, output)
    else if starts_with (codes "./") input
    then (drop 2 input, output)
    else if starts_with (codes "/./") input
    then (codes "/" ++ drop 3 input, output)
    else if bytes_eq input (codes "/.")
    then (codes "/" ++ drop 2 input, output)
    else if starts_with (codes "/../") input
    then (codes "/" ++ drop 4 input, remove_last_segment output)
    else if bytes_eq input (codes "/..")
    then (codes "/" ++ drop 3 input, remove_last_segment output)
    else if bytes_eq input (codes ".") || bytes_eq input (codes "..")
    then ([], output)
    else (drop (segment_end input) input, output ++ take (segment_end input) input)

-- `while !input.is_empty()` on fuel: `none` means that the fuel ran out.
unfoldable pub dot_loop : ℕ → Bytes → Bytes → Option Bytes
dot_loop zero input output = if is_empty input then some output else none
dot_loop (suc fuel) [] output = some output
dot_loop (suc fuel) (b ∷ s) output =
    let (input', output') = dot_round (b ∷ s) output in dot_loop fuel input' output'

-- A round for each byte of the path is enough: `Dots.Laws` shows that the loop returns.
unfoldable pub remove_dot_segments : Bytes → Bytes
remove_dot_segments path = elim (dot_loop (length path) path []) [ some out ↦ out | none ↦ [] ]
