-- ===== src/Prelude/Text.antt =====
-- Rust strings and byte slices as lists of bytes, with the operations of the standard library that
-- the program applies to them. A `str` is its UTF-8 bytes; the program cuts only at ASCII bytes.
use Prim.Native.Char.{code}
use Prim.Native.String.{String}
use Prim.Native.Nat.{ℕ, ◌+◌}
use mathlib.Core.Path.{◌≡◌, refl}
use mathlib.Core.Logic.{◌↔◌}
use mathlib.Core.Bool.{Bool, true, false, ◌&&◌, ◌||◌}
use mathlib.Core.List.{List, [], ◌∷◌, map}
use mathlib.Core.Option.{Option, none, some}
use native.Mathlib.Omega.{arith}
use keylix_community.Prelude.Tests.{ltb, leb, ◌==◌, if◌then◌else◌}
use keylix_community.Prelude.Lists.{any, all}

abbrev pub Bytes : Type 0
Bytes = List ℕ

abbrev pub codes : String → Bytes
codes String.[] = []
codes (String.◌∷◌ c s) = code c ∷ codes s

abbrev pub bytes_eq : Bytes → Bytes → Bool
bytes_eq [] [] = true
bytes_eq (x ∷ xs) (y ∷ ys) = (x == y) && bytes_eq xs ys
bytes_eq _ _ = false

pub bytes_eq_iff : (a b : Bytes) → (bytes_eq a b ≡ true) ↔ (a ≡ b)
bytes_eq_iff [] [] = ground arith
bytes_eq_iff [] (y ∷ ys) = ground arith
bytes_eq_iff (x ∷ xs) [] = ground arith
bytes_eq_iff (x ∷ xs) (y ∷ ys) = ground (arith, bytes_eq_iff xs ys)

pub bytes_eq_refl : (a : Bytes) → bytes_eq a a ≡ true
bytes_eq_refl a = (bytes_eq_iff a a).1 refl

-- `str::contains` of a character, `str::is_ascii`.
abbrev pub contains : ℕ → Bytes → Bool
contains c = any (λ b. b == c)

abbrev pub is_byte : ℕ → Bool
is_byte b = ltb b 256

abbrev pub is_ascii : Bytes → Bool
is_ascii = all (λ b. ltb b 128)

-- `u8::is_ascii_digit`, `is_ascii_alphanumeric`, `to_ascii_lowercase`.
abbrev pub is_digit : ℕ → Bool
is_digit b = leb b'0' b && leb b b'9'

abbrev pub is_upper : ℕ → Bool
is_upper b = leb b'A' b && leb b b'Z'

abbrev pub is_lower : ℕ → Bool
is_lower b = leb b'a' b && leb b b'z'

abbrev pub is_alnum : ℕ → Bool
is_alnum b = is_digit b || (is_upper b || is_lower b)

unfoldable pub to_lower : ℕ → ℕ
to_lower b = if is_upper b then b + 32 else b

-- `eq_ignore_ascii_case`.
unfoldable pub eq_ignore_case : Bytes → Bytes → Bool
unfolding to_lower
eq_ignore_case a b = bytes_eq (map to_lower a) (map to_lower b)

-- `str::strip_prefix`.
abbrev pub strip_prefix : Bytes → Bytes → Option Bytes
strip_prefix [] s = some s
strip_prefix (p ∷ ps) [] = none
strip_prefix (p ∷ ps) (c ∷ s) = if p == c then strip_prefix ps s else none

abbrev pub starts_with : Bytes → Bytes → Bool
starts_with p s = elim (strip_prefix p s) [ none ↦ false | some rest ↦ true ]
