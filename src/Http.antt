-- ===== src/Http.antt =====
-- crates/keylix-http/src/lib.rs: the effective request target from trusted parts, or from the
-- forwarding headers of a trusted proxy.
pub mod Laws
use keylix_community.Prelude.{
  ℕ, Bool, true, false, ◌&&◌, ◌||◌, not, List, [], ◌∷◌, ◌++◌, Option, none, some, Bytes, Result, ok,
  err, ◌>>=◌, ◌>>◌, fail_if, ok_or, map_err, if◌then◌else◌, ltb, leb, ◌==◌, length, is_empty, take,
  drop, all, any, contains, position, is_ascii, is_alnum, codes, eq_ignore_case, starts_with, ◌+◌,
}
use keylix_community.Platform.{Platform}
use keylix_community.Dpop.Request.Uri.{EffectiveRequestTarget, parse_target}
use keylix_community.Dpop.Proof.Parse.{split}

abbrev pub max_forwarding_value_bytes : ℕ
max_forwarding_value_bytes = 1024

abbrev pub max_external_path_bytes : ℕ
max_external_path_bytes = 2048

pub data ProxyHeaderFamily : Type 0 where
  forwarded_family x_forwarded_family : ProxyHeaderFamily

pub record ForwardingHeaders : Type 0 where
  pub forwarded : Option Bytes
  pub x_forwarded_proto : Option Bytes
  pub x_forwarded_host : Option Bytes

pub data HttpTargetError : Type 0 where
  untrusted_proxy missing_forwarding_metadata ambiguous_forwarding_metadata : HttpTargetError
  invalid_forwarding_metadata invalid_request_target : HttpTargetError

abbrev pub is_some : Option Bytes → Bool
is_some none = false
is_some (some value) = true

abbrev pub is_ows : ℕ → Bool
is_ows b = b == b' ' || b == 9

unfoldable pub trim_start : Bytes → Bytes
trim_start [] = []
trim_start (b ∷ s) = let rest = trim_start s in if is_ows b then rest else b ∷ s

unfoldable pub trim_end : Bytes → Bytes
trim_end [] = []
trim_end (b ∷ s) = let rest = trim_end s in if is_empty rest && is_ows b then [] else b ∷ rest

unfoldable pub trim_ows : Bytes → Bytes
trim_ows value = trim_start (trim_end value)

abbrev pub is_invalid_byte : ℕ → Bool
is_invalid_byte b = leb b 0x20 || b == 0x7f

unfoldable pub is_header_token_byte : ℕ → Bool
is_header_token_byte b = is_alnum b || contains b (codes "!#$%&'*+-.^_`|~")

unfoldable pub checked_forwarding_value : Bytes → Result HttpTargetError Bytes
checked_forwarding_value raw = do
  fail_if (is_empty raw || (ltb max_forwarding_value_bytes (length raw) || not (is_ascii raw)))
      invalid_forwarding_metadata
  fail_if (is_empty (trim_ows raw)) invalid_forwarding_metadata
  ok (trim_ows raw)

unfoldable pub single_forwarding_value : Bytes → Result HttpTargetError Bytes
single_forwarding_value raw = do
  value ← checked_forwarding_value raw
  fail_if (contains b',' value) ambiguous_forwarding_metadata
  fail_if (any is_invalid_byte value) invalid_forwarding_metadata
  ok value

-- `split_once('=')`, with both sides trimmed.
unfoldable pub parameter_parts : Bytes → Result HttpTargetError (Bytes × Bytes)
parameter_parts parameter = do
  i ← ok_or (position (λ b. b == b'=') parameter) invalid_forwarding_metadata
  ok (trim_ows (take i parameter), trim_ows (drop (i + 1) parameter))

-- A value that is given for the first time.
abbrev pub replace_once : Option Bytes → Bytes → Result HttpTargetError (Option Bytes)
replace_once none value = ok (some value)
replace_once (some old) value = err ambiguous_forwarding_metadata

abbrev pub map_pair :
    (Option Bytes → Option Bytes × Option Bytes)
    → Result HttpTargetError (Option Bytes)
    → Result HttpTargetError (Option Bytes × Option Bytes)
map_pair f (ok value) = ok (f value)
map_pair f (err e) = err e

-- What a parameter's name makes of its value; other names are passed over.
unfoldable pub note_parameter :
    Bytes
    → Bytes
    → Option Bytes × Option Bytes
    → Result HttpTargetError (Option Bytes × Option Bytes)
note_parameter name value (proto, host) =
    if eq_ignore_case name (codes "proto")
    then map_pair (λ (new : Option Bytes). (new, host)) (replace_once proto value)
    else if eq_ignore_case name (codes "host")
    then map_pair (λ (new : Option Bytes). (proto, new)) (replace_once host value)
    else ok (proto, host)

-- One parameter of `Forwarded`, after the protocol and the host that are known.
unfoldable pub read_parameter :
    Bytes → Option Bytes × Option Bytes → Result HttpTargetError (Option Bytes × Option Bytes)
read_parameter raw known = do
  parts ← parameter_parts (trim_ows raw)
  fail_if
      (is_empty parts.0
        || (is_empty parts.1
            || (not (all is_header_token_byte parts.0) || any is_invalid_byte parts.1)))
      invalid_forwarding_metadata
  note_parameter parts.0 parts.1 known

unfoldable pub read_parameters :
    List Bytes → Option Bytes × Option Bytes → Result HttpTargetError (Option Bytes × Option Bytes)
read_parameters [] known = ok known
read_parameters (raw ∷ rest) known = read_parameter raw known >>= read_parameters rest

unfoldable pub parse_single_forwarded : Bytes → Result HttpTargetError (Bytes × Bytes)
parse_single_forwarded raw = do
  value ← checked_forwarding_value raw
  fail_if (contains b',' value || (contains 34 value || contains 92 value))
      ambiguous_forwarding_metadata
  known ← read_parameters (split b';' value) (none, none)
  proto ← ok_or known.0 missing_forwarding_metadata
  host ← ok_or known.1 missing_forwarding_metadata
  ok (proto, host)

unfoldable pub resolve_forwarded : ForwardingHeaders → Result HttpTargetError (Bytes × Bytes)
resolve_forwarded headers = do
  fail_if (is_some headers.x_forwarded_proto || is_some headers.x_forwarded_host)
      ambiguous_forwarding_metadata
  raw ← ok_or headers.forwarded missing_forwarding_metadata
  parse_single_forwarded raw

unfoldable pub resolve_x_forwarded : ForwardingHeaders → Result HttpTargetError (Bytes × Bytes)
resolve_x_forwarded headers = do
  fail_if (is_some headers.forwarded) ambiguous_forwarding_metadata
  proto ← ok_or headers.x_forwarded_proto missing_forwarding_metadata
  host ← ok_or headers.x_forwarded_host missing_forwarding_metadata
  scheme ← single_forwarding_value proto
  authority ← single_forwarding_value host
  ok (scheme, authority)

abbrev pub resolve_family :
    ProxyHeaderFamily → ForwardingHeaders → Result HttpTargetError (Bytes × Bytes)
resolve_family forwarded_family headers = resolve_forwarded headers
resolve_family x_forwarded_family headers = resolve_x_forwarded headers

-- The parts that no target is built of.
unfoldable pub is_refused : Bytes → Bytes → Bytes → Bool
is_refused scheme authority path =
    is_empty scheme
    || (ltb max_forwarding_value_bytes (length scheme)
        || (is_empty authority
            || (ltb max_forwarding_value_bytes (length authority)
                || (is_empty path
                    || (ltb max_external_path_bytes (length path)
                        || (not (is_ascii scheme)
                            || (not (is_ascii authority)
                                || (not (is_ascii path)
                                    || (not (starts_with (codes "/") path)
                                        || (contains b'#' path
                                            || (any (λ b. contains b (codes "/?#")) authority
                                                || (any is_invalid_byte scheme
                                                    || (any is_invalid_byte authority
                                                        || any is_invalid_byte path)))))))))))))

abbrev pub absolute : Bytes → Bytes → Bytes → Bytes
absolute scheme authority path = scheme ++ (codes "://" ++ (authority ++ path))

module _ (p : Platform) where
  unfoldable pub build_target :
      Bytes → Bytes → Bytes → Result HttpTargetError EffectiveRequestTarget
  build_target scheme authority path = do
    fail_if (is_refused scheme authority path) invalid_request_target
    map_err (λ e. invalid_request_target) (parse_target p (absolute scheme authority path))

  unfoldable pub resolve_direct_target :
      Bytes → Bytes → Bytes → Result HttpTargetError EffectiveRequestTarget
  resolve_direct_target scheme authority path = build_target scheme authority path

  -- `TrustedProxyTargetResolver::resolve`, with the host's trust policy.
  unfoldable pub resolve :
      {P : Type 0}
      → (P → Bool)
      → ProxyHeaderFamily
      → P
      → Bytes
      → ForwardingHeaders
      → Result HttpTargetError EffectiveRequestTarget
  resolve is_trusted_proxy family peer path headers = do
    fail_if (not (is_trusted_proxy peer)) untrusted_proxy
    parts ← resolve_family family headers
    build_target parts.0 parts.1 path
