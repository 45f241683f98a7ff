-- ===== src/Platform.antt =====
-- What the program calls and does not implement: aws-lc-rs (SHA-256, ECDSA over P-256), base64
-- (URL-safe, unpadded), serde_json with the derived readers and writers, and std's IPv6 addresses.
use keylix_community.Prelude.{
  ℕ, ◌≡◌, ◌*◌, ◌+◌, ◌/◌, Bool, true, ◌||◌, Option, some, Bytes, length, all, is_byte, is_alnum,
  ◌==◌,
}
use keylix_community.Wire.{Json, JwkWire, HeaderWire, ClaimsWire}

pub record Platform : Type 0 where
  -- `digest(&SHA256, …)`
  pub sha256 : Bytes → Bytes
  -- `URL_SAFE_NO_PAD`
  pub base64_encode : Bytes → Bytes
  pub base64_decode : Bytes → Option Bytes
  -- `ParsedPublicKey::new` on an uncompressed point
  pub accepts_point : Bytes → Bool
  -- `verify_sig` of a point, a message and a signature
  pub verify_sig : Bytes → Bytes → Bytes → Bool
  -- `serde_json::from_slice` and `to_string`, into and from each type that the program uses
  pub read_json : Bytes → Option Json
  pub write_json : Json → Option Bytes
  pub read_jwk : Bytes → Option JwkWire
  pub read_header : Bytes → Option HeaderWire
  pub read_claims : Bytes → Option ClaimsWire
  pub write_header : HeaderWire → Option Bytes
  pub write_claims : ClaimsWire → Option Bytes
  -- `parse::<Ipv6Addr>` and then `Display`
  pub canonical_ipv6 : Bytes → Option Bytes

-- The alphabet of unpadded URL-safe base64.
abbrev pub is_base64 : ℕ → Bool
is_base64 b = is_alnum b || (b == b'-' || b == b'_')

-- What the theorems that need it rely on: documented behaviour of base64 and SHA-256.
pub record IsLawful (p : Platform) : Type 0 where
  pub decode-encode :
      (b : Bytes) → all is_byte b ≡ true → p.base64_decode (p.base64_encode b) ≡ some b
  pub length-encode : (b : Bytes) → length (p.base64_encode b) ≡ (length b * 4 + 2) / 3
  pub encode_alphabet : (b : Bytes) → all is_base64 (p.base64_encode b) ≡ true
  pub length-sha256 : (b : Bytes) → length (p.sha256 b) ≡ 32
  pub sha256_bytes : (b : Bytes) → all is_byte (p.sha256 b) ≡ true
