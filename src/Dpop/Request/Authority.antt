-- ===== src/Dpop/Request/Authority.antt =====
-- `normalize_authority`, `normalize_reg_name_host` and `parse_port` of
-- crates/keylix-dpop/src/request.rs.
use keylix_community.Prelude.{
  ℕ, zero, suc, ◌+◌, ◌-◌, ◌*◌, ◌/◌, ◌%◌, ◌||◌, not, [], ◌∷◌, ◌++◌, map, Option, none, some, Bytes,
  Result, ok, err, ◌>>=◌, ◌>>◌, fail_if, ok_or, ltb, ◌==◌, if◌then◌else◌, is_empty, take, drop, all,
  position, contains, starts_with, strip_prefix, codes, is_digit, to_lower,
}
use keylix_community.Platform.{Platform}
use keylix_community.Dpop.Errors.{DpopError, invalid_request_target}
use keylix_community.Dpop.Request.Percent.{normalize_percent_encoding}
use keylix_community.Dpop.Request.Dots.{rfind}

-- The program compares the scheme with two literals and goes on with one of them.
pub data Scheme : Type 0 where
  http https : Scheme

abbrev pub scheme_text : Scheme → Bytes
scheme_text http = codes "http"
scheme_text https = codes "https"

-- The value of a digit string, most significant digit first.
unfoldable pub decimal_value : ℕ → Bytes → ℕ
decimal_value acc [] = acc
decimal_value acc (b ∷ s) = decimal_value (acc * 10 + (b - b'0')) s

-- `parse::<u16>` accepts leading zeros and refuses what does not fit.
unfoldable pub parse_port : Bytes → Result DpopError ℕ
parse_port raw = do
  fail_if (is_empty raw || not (all is_digit raw)) invalid_request_target
  let value = decimal_value 0 raw
  if ltb 65535 value then err invalid_request_target else ok value

-- `u16::to_string`; five digits are enough.
unfoldable pub decimal : ℕ → ℕ → Bytes
decimal zero n = []
decimal (suc digits) n =
    let higher = decimal digits (n / 10) in
    if ltb n 10 then (b'0' + n) ∷ [] else higher ++ (b'0' + n % 10) ∷ []

abbrev pub port_text : ℕ → Bytes
port_text = decimal 5

unfoldable pub normalize_reg_name_host : Bytes → Result DpopError Bytes
unfolding to_lower
normalize_reg_name_host raw_host = do
  normalized ← normalize_percent_encoding raw_host
  normalize_percent_encoding (map to_lower normalized)

-- `matches(c).count()`.
unfoldable pub count : ℕ → Bytes → ℕ
count c [] = 0
count c (b ∷ s) = if b == c then suc (count c s) else count c s

abbrev pub Authority : Type 0
Authority = Bytes × Option ℕ

-- The port behind a bracketed address: nothing, or a colon and a port.
unfoldable pub bracket_port : Bytes → Result DpopError (Option ℕ)
bracket_port tail = if is_empty tail then ok none else do
  raw ← ok_or (strip_prefix (codes ":") tail) invalid_request_target
  port ← parse_port raw
  ok (some port)

unfoldable pub bracketed : Platform → Bytes → Result DpopError Authority
bracketed p authority = do
  close ← ok_or (position (λ b. b == b']') authority) invalid_request_target
  text ← ok_or (p.canonical_ipv6 (take (close - 1) (drop 1 authority))) invalid_request_target
  port ← bracket_port (drop (close + 1) authority)
  ok (codes "[" ++ text ++ codes "]", port)

-- `rsplit_once(':')`, with the port parsed.
unfoldable pub split_port : Bytes → Result DpopError Authority
split_port authority = elim (rfind b':' authority) [
  | none ↦ ok (authority, none)
  | some i ↦ do port ← parse_port (drop (i + 1) authority); ok (take i authority, some port)
]

unfoldable pub named : Bytes → Result DpopError Authority
named authority = do
  fail_if (contains b'[' authority || contains b']' authority || ltb 1 (count b':' authority))
      invalid_request_target
  split ← split_port authority
  fail_if (is_empty split.0) invalid_request_target
  host ← normalize_reg_name_host split.0
  ok (host, split.1)

abbrev pub drop_default_port : Scheme → Option ℕ → Option ℕ
drop_default_port scheme none = none
drop_default_port http (some port) = if port == 80 then none else some port
drop_default_port https (some port) = if port == 443 then none else some port

unfoldable pub normalize_authority : Platform → Bytes → Scheme → Result DpopError Authority
normalize_authority p authority scheme = do
  parsed ← if starts_with (codes "[") authority then bracketed p authority else named authority
  ok (parsed.0, drop_default_port scheme parsed.1)
