-- ===== src/Core/Jwk.antt =====
-- `PublicP256Jwk` and `JwkThumbprint` of crates/keylix-core/src/jwk.rs, thumbprint.rs and error.rs.
pub mod Laws
use keylix_community.Prelude.{
  ℕ, ◌+◌, Bool, not, List, [], ◌∷◌, ◌++◌, Option, Bytes, Result, ok, err, ◌>>=◌, ◌>>◌, fail_if,
  ok_or, ◌==◌, length, bytes_eq, codes,
}
use keylix_community.Wire.{JwkWire}
use keylix_community.Platform.{Platform}

abbrev pub coordinate_bytes : ℕ
coordinate_bytes = 32

pub data Coordinate : Type 0 where
  x y : Coordinate

pub data JwkError : Type 0 where
  invalid_json unsupported_key_type unsupported_curve private_key_material : JwkError
  invalid_coordinate_encoding invalid_coordinate_length : Coordinate → JwkError
  invalid_public_point : JwkError

-- Two arrays of 32 bytes.
pub record PublicP256Jwk : Type 0 where
  pub x_bytes : Bytes
  pub y_bytes : Bytes

pub record JwkThumbprint : Type 0 where
  pub bytes : Bytes

-- The uncompressed point of two coordinates.
abbrev pub point : Bytes → Bytes → Bytes
point px py = 0x04 ∷ (px ++ py)

-- The constant parts of the thumbprint's input.
abbrev pub before_x : Bytes
before_x = codes "{\"crv\":\"P-256\",\"kty\":\"EC\",\"x\":\""

abbrev pub before_y : Bytes
before_y = codes "\",\"y\":\""

module _ (p : Platform) where
  unfoldable pub decode_coordinate : Coordinate → Bytes → Result JwkError Bytes
  decode_coordinate coordinate encoded = do
    decoded ← ok_or (p.base64_decode encoded) (invalid_coordinate_encoding coordinate)
    fail_if (not (length decoded == coordinate_bytes)) (invalid_coordinate_length coordinate)
    fail_if (not (bytes_eq (p.base64_encode decoded) encoded))
        (invalid_coordinate_encoding coordinate)
    ok decoded

  unfoldable pub validate_public_point : Bytes → Bytes → Result JwkError (Unit {0})
  validate_public_point px py = fail_if (not (p.accepts_point (point px py))) invalid_public_point

  unfoldable pub from_wire : JwkWire → Result JwkError PublicP256Jwk
  from_wire wire = do
    fail_if wire.private_member private_key_material
    fail_if (not (bytes_eq wire.kty (codes "EC"))) unsupported_key_type
    fail_if (not (bytes_eq wire.crv (codes "P-256"))) unsupported_curve
    px ← decode_coordinate x wire.x
    py ← decode_coordinate y wire.y
    validate_public_point px py
    ok (record { x_bytes = px; y_bytes = py })

  unfoldable pub from_json : Bytes → Result JwkError PublicP256Jwk
  from_json input = do wire ← ok_or (p.read_jwk input) invalid_json; from_wire wire

  unfoldable pub canonical_thumbprint_input : PublicP256Jwk → Bytes
  canonical_thumbprint_input jwk =
      before_x
      ++ (p.base64_encode jwk.x_bytes ++ (before_y ++ (p.base64_encode jwk.y_bytes ++ codes "\"}")))

  unfoldable pub thumbprint : PublicP256Jwk → JwkThumbprint
  thumbprint jwk = record { bytes = p.sha256 (canonical_thumbprint_input jwk) }

  -- `JwkThumbprint::to_base64url`.
  unfoldable pub to_base64url : JwkThumbprint → Bytes
  to_base64url t = p.base64_encode t.bytes
