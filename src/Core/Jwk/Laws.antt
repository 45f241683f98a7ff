-- ===== src/Core/Jwk/Laws.antt =====
-- What an accepted key satisfies, and that the thumbprint's input determines the key.
use keylix_community.Prelude.{
  ◌+◌, ◌*◌, ◌/◌, ◌≡◌, refl, sym, ap, ◌∙◌, true, false, inl, inr, ◌++◌, Option, none, some, Bytes,
  ok, length, all, is_byte, bytes_eq_iff, codes, arith, append_same_length, append_cancel,
  Option-cases, Result-cases, ◌↔◌,
}
use keylix_community.Wire.{JwkWire}
use keylix_community.Platform.{Platform, IsLawful}
use keylix_community.Core.Jwk.{
  PublicP256Jwk, Coordinate, x, y, decode_coordinate, point, validate_public_point, from_wire,
  from_json, canonical_thumbprint_input, before_x, before_y,
}

module _ (p : Platform) where
  -- The only text of a coordinate that is accepted.
  pub record IsCoordinate (encoded bytes : Bytes) : Type 0 where
    pub decoded : p.base64_decode encoded ≡ some bytes
    pub sized : length bytes ≡ 32
    pub canonical : p.base64_encode bytes ≡ encoded

  -- What a document must hold to be the key, stated without the order of the checks.
  pub record IsKey (wire : JwkWire) (jwk : PublicP256Jwk) : Type 0 where
    pub is_public : wire.private_member ≡ false
    pub kty : wire.kty ≡ codes "EC"
    pub crv : wire.crv ≡ codes "P-256"
    pub x_coordinate : IsCoordinate wire.x jwk.x_bytes
    pub y_coordinate : IsCoordinate wire.y jwk.y_bytes
    pub on_curve : p.accepts_point (point jwk.x_bytes jwk.y_bytes) ≡ true

  decode_coordinate-eq_ok :
      (c : Coordinate) (encoded bytes : Bytes)
      → decode_coordinate p c encoded ≡ ok bytes
      → IsCoordinate encoded bytes
  unfolding decode_coordinate
  decode_coordinate-eq_ok c encoded bytes h = elim (Option-cases (p.base64_decode encoded)) [
    | inl e ↦ absurd (ground (arith, e))
    | inr (d, e) ↦ record {
      decoded = ground (arith, e, bytes_eq_iff (p.base64_encode d) encoded);
      sized = ground (arith, e, bytes_eq_iff (p.base64_encode d) encoded);
      canonical = ground (arith, e, bytes_eq_iff (p.base64_encode d) encoded);
    }
  ]

  decode_coordinate_complete :
      (c : Coordinate) (encoded bytes : Bytes)
      → IsCoordinate encoded bytes
      → decode_coordinate p c encoded ≡ ok bytes
  unfolding decode_coordinate
  decode_coordinate_complete c encoded bytes k =
      ground (arith, k.decoded, k.sized, k.canonical, bytes_eq_iff (p.base64_encode bytes) encoded)

  from_wire-IsKey :
      (wire : JwkWire) (jwk : PublicP256Jwk) → from_wire p wire ≡ ok jwk → IsKey wire jwk
  unfolding from_wire validate_public_point
  from_wire-IsKey wire jwk h = elim (Result-cases (decode_coordinate p x wire.x)) [
    | inr (e, bad) ↦ absurd (ground (arith, bad))
    | inl (px, ex) ↦ elim (Result-cases (decode_coordinate p y wire.y)) [
      | inr (e, bad) ↦ absurd (ground (arith, bad, ex))
      | inl (py, ey) ↦
          let same : jwk ≡ record { x_bytes = px; y_bytes = py } = ground (arith, ex, ey) in
          rw same (record {
            is_public = ground (arith, ex, ey);
            kty = (bytes_eq_iff _ _).0 (ground (arith, ex, ey));
            crv = (bytes_eq_iff _ _).0 (ground (arith, ex, ey));
            x_coordinate = decode_coordinate-eq_ok x wire.x px ex;
            y_coordinate = decode_coordinate-eq_ok y wire.y py ey;
            on_curve = ground (arith, ex, ey);
          })
    ]
  ]

  from_wire_complete :
      (wire : JwkWire) (jwk : PublicP256Jwk) → IsKey wire jwk → from_wire p wire ≡ ok jwk
  unfolding from_wire validate_public_point
  from_wire_complete wire jwk k = ground (
    arith,
    k.is_public,
    k.on_curve,
    (bytes_eq_iff wire.kty (codes "EC")).1 k.kty,
    (bytes_eq_iff wire.crv (codes "P-256")).1 k.crv,
    decode_coordinate_complete x wire.x jwk.x_bytes k.x_coordinate,
    decode_coordinate_complete y wire.y jwk.y_bytes k.y_coordinate,
  )

  -- A JWK text is accepted exactly as the key that it describes: an EC key on P-256 with no private
  -- member, both coordinates the only encoding of 32 bytes each, and a point of the curve.
  pub from_json_iff :
      (input : Bytes) (jwk : PublicP256Jwk)
      → (from_json p input ≡ ok jwk)
        ↔ ((wire : JwkWire) × (p.read_jwk input ≡ some wire) × IsKey wire jwk)
  unfolding from_json
  from_json_iff input jwk = (accepted (p.read_jwk input) refl, described)
    where
      accepted :
          (o : Option JwkWire)
          → p.read_jwk input ≡ o
          → from_json p input ≡ ok jwk
          → (wire : JwkWire) × (p.read_jwk input ≡ some wire) × IsKey wire jwk
      accepted none e h = cc (rw (e, from_json) at h)
      accepted (some wire) e h = (wire, e, from_wire-IsKey wire jwk (rw (e, from_json) at h))

      described :
          ((wire : JwkWire) × (p.read_jwk input ≡ some wire) × IsKey wire jwk)
          → from_json p input ≡ ok jwk
      described (wire, e, k) = rw (e, from_json) (from_wire_complete wire jwk k)

module _ (p : Platform) (laws : IsLawful p) where
  encode_injective :
      (a b : Bytes)
      → all is_byte a ≡ true
      → all is_byte b ≡ true
      → p.base64_encode a ≡ p.base64_encode b
      → a ≡ b
  encode_injective a b ha hb e =
      cc (laws.decode-encode a ha, laws.decode-encode b hb, ap p.base64_decode e)

  encode_same_length :
      (a b : Bytes) → length a ≡ length b → length (p.base64_encode a) ≡ length (p.base64_encode b)
  encode_same_length a b l =
      laws.length-encode a ∙ ap (λ n. (n * 4 + 2) / 3) l ∙ sym (laws.length-encode b)

-- Two arrays of 32 bytes.
pub record IsWellFormed (jwk : PublicP256Jwk) : Type 0 where
  pub x_sized : length jwk.x_bytes ≡ 32
  pub y_sized : length jwk.y_bytes ≡ 32
  pub x_is_bytes : all is_byte jwk.x_bytes ≡ true
  pub y_is_bytes : all is_byte jwk.y_bytes ≡ true

module _ (p : Platform) (laws : IsLawful p) where
  abbrev behind_x : PublicP256Jwk → Bytes
  behind_x jwk = before_y ++ (p.base64_encode jwk.y_bytes ++ codes "\"}")

  -- With a lawful base64, two well-formed keys with the same thumbprint input are the same key: their
  -- thumbprints can collide only where SHA-256 does.
  pub canonical_thumbprint_input_injective :
      (a b : PublicP256Jwk)
      → IsWellFormed a
      → IsWellFormed b
      → canonical_thumbprint_input p a ≡ canonical_thumbprint_input p b
      → a ≡ b
  unfolding canonical_thumbprint_input
  canonical_thumbprint_input_injective a b wa wb e =
      let same_x : length a.x_bytes ≡ length b.x_bytes = wa.x_sized ∙ sym wb.x_sized in
      let same_y : length a.y_bytes ≡ length b.y_bytes = wa.y_sized ∙ sym wb.y_sized in
      let (ex, rest) =
        append_same_length (p.base64_encode a.x_bytes) (p.base64_encode b.x_bytes) (behind_x a)
          (behind_x b) (encode_same_length p laws a.x_bytes b.x_bytes same_x)
          (append_cancel before_x (p.base64_encode a.x_bytes ++ behind_x a)
            (p.base64_encode b.x_bytes ++ behind_x b) e) in
      let (ey, _) =
        append_same_length (p.base64_encode a.y_bytes) (p.base64_encode b.y_bytes) (codes "\"}")
          (codes "\"}") (encode_same_length p laws a.y_bytes b.y_bytes same_y)
          (append_cancel before_y (p.base64_encode a.y_bytes ++ codes "\"}")
            (p.base64_encode b.y_bytes ++ codes "\"}") rest) in
      cc (
        encode_injective p laws a.x_bytes b.x_bytes wa.x_is_bytes wb.x_is_bytes ex,
        encode_injective p laws a.y_bytes b.y_bytes wa.y_is_bytes wb.y_is_bytes ey,
      )
