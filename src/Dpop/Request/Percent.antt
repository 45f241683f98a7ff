-- ===== src/Dpop/Request/Percent.antt =====
-- Percent-encoding normalization of crates/keylix-dpop/src/request.rs. Its callers have refused
-- input that is not ASCII, so a byte is a character.
pub mod Laws
use keylix_community.Prelude.{
  ℕ, ◌+◌, ◌-◌, ◌*◌, Bool, ◌&&◌, ◌||◌, List, [], ◌∷◌, ◌++◌, Option, none, some, Bytes, Result, ok,
  err, ◌>>=◌, ok_or, leb, ltb, ◌==◌, if◌then◌else◌, is_alnum, is_digit,
}
use keylix_community.Dpop.Errors.{DpopError, invalid_request_target}

abbrev pub percent : ℕ
percent = b'%'

unfoldable pub is_unreserved : ℕ → Bool
is_unreserved b = is_alnum b || (b == b'-' || (b == b'.' || (b == b'_' || b == b'~')))

unfoldable pub hex_value : ℕ → Option ℕ
hex_value b =
    if is_digit b
    then some (b - b'0')
    else if leb b'a' b && leb b b'f'
    then some (b - b'a' + 10)
    else if leb b'A' b && leb b b'F'
    then some (b - b'A' + 10)
    else none

unfoldable pub hex_upper : ℕ → ℕ
hex_upper v = if leb v 9 then b'0' + v else b'A' + (v - 10)

-- What one escape `%hl` becomes: the byte that it stands for, if that is unreserved, or the escape
-- with capital digits. `(high << 4) | low` of two values below 16 is `high * 16 + low`.
unfoldable pub escape : ℕ → ℕ → Bytes
unfolding is_unreserved hex_upper
escape high low =
    let value = high * 16 + low in
    if is_unreserved value then value ∷ [] else percent ∷ hex_upper high ∷ hex_upper low ∷ []

unfoldable pub decode_escape : ℕ → ℕ → Result DpopError Bytes
decode_escape h l = do
  high ← ok_or (hex_value h) invalid_request_target
  low ← ok_or (hex_value l) invalid_request_target
  ok (escape high low)

abbrev pub append_ok : Bytes → Result DpopError Bytes → Result DpopError Bytes
append_ok out rest = do more ← rest; ok (out ++ more)

-- `normalize_percent_encoding`: the loop over the index is a recursion on what is left.
unfoldable pub normalize_percent_encoding : Bytes → Result DpopError Bytes
normalize_percent_encoding [] = ok []
normalize_percent_encoding (b ∷ []) =
    if b == percent then err invalid_request_target else ok (b ∷ [])
normalize_percent_encoding (b ∷ c ∷ []) =
    let rest = normalize_percent_encoding (c ∷ []) in
    if b == percent then err invalid_request_target else append_ok (b ∷ []) rest
normalize_percent_encoding (b ∷ h ∷ l ∷ rest) =
    let plain = normalize_percent_encoding (h ∷ l ∷ rest) in
    let escaped = normalize_percent_encoding rest in
    if b == percent
    then (do out ← decode_escape h l; append_ok out escaped)
    else append_ok (b ∷ []) plain
