-- ===== src/Dpop/Request/Uri.antt =====
-- `normalize_http_uri` of crates/keylix-dpop/src/request.rs. A `&str` is only cut where a position
-- was found, so `take` and `drop` are its slices.
use keylix_community.Prelude.{
  ℕ, ◌+◌, Bool, ◌&&◌, ◌||◌, not, List, [], ◌++◌, Option, none, some, Bytes, Result, ok, err, ◌>>=◌,
  ◌>>◌, fail_if, ok_or, leb, ltb, ◌==◌, if◌then◌else◌, length, is_empty, take, drop, any, position,
  contains, starts_with, strip_prefix, codes, is_ascii, eq_ignore_case,
}
use keylix_community.Platform.{Platform}
use keylix_community.Dpop.Errors.{DpopError, invalid_request_target}
use keylix_community.Dpop.Request.Percent.{normalize_percent_encoding}
use keylix_community.Dpop.Request.Dots.{remove_dot_segments}
use keylix_community.Dpop.Request.Authority.{
  Scheme, http, https, scheme_text, Authority, normalize_authority, port_text,
}

abbrev pub max_target_bytes : ℕ
max_target_bytes = 2048

-- `EffectiveRequestTarget`: a normalized text.
pub record EffectiveRequestTarget : Type 0 where
  pub text : Bytes

-- The first checks of `normalize_http_uri`.
unfoldable pub is_refused_text : Bytes → Bool
is_refused_text input =
    is_empty input
    || (ltb max_target_bytes (length input)
        || (not (is_ascii input) || any (λ b. leb b 0x20 || b == 0x7f) input))

unfoldable pub parse_scheme : Bytes → Result DpopError Scheme
parse_scheme raw =
    if eq_ignore_case raw (codes "https")
    then ok https
    else if eq_ignore_case raw (codes "http")
    then ok http
    else err invalid_request_target

-- `find_first` with the end of the text in place of no position.
abbrev pub end_or {ℓ} : {A : Type ℓ} → Option ℕ → List A → ℕ
end_or none s = length s
end_or (some i) s = i

abbrev pub ends_authority : ℕ → Bool
ends_authority b = b == b'/' || (b == b'?' || b == b'#')

abbrev pub ends_path : ℕ → Bool
ends_path b = b == b'?' || b == b'#'

-- From the suffix behind the authority to the normalized path.
unfoldable pub normalize_path : Bytes → Result DpopError Bytes
normalize_path suffix = do
  let raw_path = take (end_or (position ends_path suffix) suffix) suffix
  fail_if (not (is_empty raw_path) && not (starts_with (codes "/") raw_path)) invalid_request_target
  normalized ← normalize_percent_encoding (if is_empty raw_path then codes "/" else raw_path)
  let path = remove_dot_segments normalized
  ok (if is_empty path then codes "/" else path)

abbrev pub port_suffix : Option ℕ → Bytes
port_suffix none = []
port_suffix (some port) = codes ":" ++ port_text port

-- `scheme://host[:port]path`.
abbrev pub assemble : Scheme → Authority → Bytes → Bytes
assemble scheme (host, port) path =
    scheme_text scheme ++ (codes "://" ++ (host ++ (port_suffix port ++ path)))

-- What follows `scheme://`.
unfoldable pub normalize_rest : Platform → Scheme → Bytes → Result DpopError Bytes
normalize_rest p scheme after_slashes = do
  let authority_end = end_or (position ends_authority after_slashes) after_slashes
  let authority = take authority_end after_slashes
  fail_if (is_empty authority || contains b'@' authority) invalid_request_target
  host_port ← normalize_authority p authority scheme
  path ← normalize_path (drop authority_end after_slashes)
  ok (assemble scheme host_port path)

unfoldable pub normalize_http_uri : Platform → Bytes → Result DpopError Bytes
normalize_http_uri p input = do
  fail_if (is_refused_text input) invalid_request_target
  scheme_end ← ok_or (position (λ b. b == b':') input) invalid_request_target
  scheme ← parse_scheme (take scheme_end input)
  after_slashes ←
      ok_or (strip_prefix (codes "//") (drop (scheme_end + 1) input)) invalid_request_target
  normalize_rest p scheme after_slashes

-- `EffectiveRequestTarget::parse`.
unfoldable pub parse_target : Platform → Bytes → Result DpopError EffectiveRequestTarget
parse_target p input = do text ← normalize_http_uri p input; ok (record { text = text })
