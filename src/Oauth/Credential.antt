-- ===== src/Oauth/Credential.antt =====
-- `validate_access_token` and `validate_refresh_token` of crates/keylix-oauth/src/client.rs.
use keylix_community.Prelude.{
  ℕ, zero, suc, ◌≡◌, Bool, true, ◌&&◌, ◌||◌, not, [], ◌∷◌, Bytes, Result, ok, ◌>>◌, fail_if, leb,
  ltb, ◌==◌, length, is_empty, take, drop, all, any, position, is_ascii, is_alnum, arith,
}
use keylix_community.Dpop.Request.Uri.{end_or}
use keylix_community.Oauth.Errors.{OauthDpopError, invalid_credential}

abbrev pub max_credential_bytes : ℕ
max_credential_bytes = 16384

unfoldable pub is_b64token_byte : ℕ → Bool
is_b64token_byte b =
    is_alnum b
    || (b == b'-' || (b == b'.' || (b == b'_' || (b == b'~' || (b == b'+' || b == b'/')))))

abbrev pub is_bad_size : Bytes → Bool
is_bad_size value =
    is_empty value || (ltb max_credential_bytes (length value) || not (is_ascii value))

unfoldable pub validate_access_token : Bytes → Result OauthDpopError (Unit {0})
validate_access_token value = do
  fail_if (is_bad_size value) invalid_credential
  let first_padding = end_or (position (λ b. b == b'=') value) value
  let body = take first_padding value
  let padding = drop first_padding value
  fail_if (is_empty body || (not (all is_b64token_byte body) || not (all (λ b. b == b'=') padding)))
      invalid_credential

-- Printable ASCII: 0x20 to 0x7e.
abbrev pub is_printable : ℕ → Bool
is_printable b = leb 0x20 b && leb b 0x7e

unfoldable pub validate_refresh_token : Bytes → Result OauthDpopError (Unit {0})
validate_refresh_token value =
    fail_if (is_bad_size value || any (λ b. not (is_printable b)) value) invalid_credential

-- No space, no control character and nothing beyond ASCII.
abbrev pub is_visible : ℕ → Bool
is_visible b = leb 0x21 b && leb b 0x7e

all_visible :
    (n : ℕ) (value : Bytes)
    → all is_b64token_byte (take n value) ≡ true
    → all (λ b. b == b'=') (drop n value) ≡ true
    → all is_visible value ≡ true
unfolding is_b64token_byte
all_visible zero [] h k = ground arith
all_visible zero (b ∷ s) h k = ground (arith, all_visible zero s)
all_visible (suc n) [] h k = ground arith
all_visible (suc n) (b ∷ s) h k = ground (arith, all_visible n s)

-- An accepted access token is visible ASCII, so it cannot break the header that carries it.
pub validate_access_token_visible :
    (value : Bytes) → validate_access_token value ≡ ok tt → all is_visible value ≡ true
unfolding validate_access_token
validate_access_token_visible value h =
    all_visible (end_or (position (λ b. b == b'=') value) value) value (ground arith) (ground arith)
