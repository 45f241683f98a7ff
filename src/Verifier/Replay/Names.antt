-- ===== src/Verifier/Replay/Names.antt =====
-- The names and contents of the files of `FileReplayStore` (crates/keylix-verifier/src/replay.rs).
pub mod Expiry
use keylix_community.Prelude.{
  ℕ, suc, ◌+◌, ◌-◌, ◌*◌, ◌/◌, ◌%◌, ◌^◌, ◌++◌, Bool, true, false, ◌&&◌, ◌||◌, not, List, [], ◌∷◌,
  Option, none, some, Bytes, if◌then◌else◌, ltb, leb, ◌==◌, length, is_empty, all, is_digit, codes,
  strip_prefix, ℤ, pos, negsuc,
}
use keylix_community.Dpop.Ports.{ReplayKey}
use keylix_community.Dpop.Request.Authority.{decimal, decimal_value}

abbrev pub pending_prefix : Bytes
pending_prefix = codes ".pending-"

abbrev pub pending_random_bytes : ℕ
pending_random_bytes = 16

abbrev pub instance_lock_name : Bytes
instance_lock_name = codes ".replay-store.lock"

unfoldable pub hex_digit : ℕ → ℕ
hex_digit v = if ltb v 10 then b'0' + v else b'a' + (v - 10)

unfoldable pub hex : Bytes → Bytes
hex [] = []
hex (b ∷ s) = hex_digit (b / 16) ∷ hex_digit (b % 16) ∷ hex s

unfoldable pub name_for : ReplayKey → Bytes
name_for key = hex key.bytes

abbrev pub is_lower_hex : ℕ → Bool
is_lower_hex b = is_digit b || (leb b'a' b && leb b b'f')

abbrev pub is_pending_suffix : Option Bytes → Bool
is_pending_suffix none = false
is_pending_suffix (some suffix) =
    (length suffix == pending_random_bytes * 2) && all is_lower_hex suffix

unfoldable pub is_pending_name : Bytes → Bool
is_pending_name name = is_pending_suffix (strip_prefix pending_prefix name)

-- `strip_suffix('\n')`, or the text itself.
unfoldable pub strip_newline : Bytes → Bytes
strip_newline [] = []
strip_newline (b ∷ []) = if b == 10 then [] else b ∷ []
strip_newline (b ∷ c ∷ s) = b ∷ strip_newline (c ∷ s)

-- Digits alone, and their value if it is an `i64`.
abbrev pub parse_digits : Bytes → Option ℤ
parse_digits trimmed =
    if is_empty trimmed || not (all is_digit trimmed)
    then none
    else if leb (decimal_value 0 trimmed) (2 ^ 63 - 1)
    then some (pos (decimal_value 0 trimmed))
    else none

unfoldable pub parse_expiry : Bytes → Option ℤ
parse_expiry text = parse_digits (strip_newline text)

-- `i64::to_string`.
unfoldable pub integer_text : ℤ → Bytes
integer_text (pos n) = decimal (suc n) n
integer_text (negsuc n) = b'-' ∷ decimal (suc (suc n)) (suc n)

-- What `writeln!(file, "{expires_at_unix}")` writes.
unfoldable pub expiry_text : ℤ → Bytes
expiry_text e = integer_text e ++ 10 ∷ []
