-- ===== src/Wire.antt =====
-- The values that serde_json reads and writes for the program: a parsed document with its members in
-- the order of the text, duplicates included, and the structures that it fills.
use keylix_community.Prelude.{Bool, Option, Bytes, ℤ}

mutual
  -- serde_json's `Value`; a number is kept as its text.
  pub data Json : Type 0 where
    null : Json
    bool : Bool → Json
    number : Bytes → Json
    string : Bytes → Json
    arr : Items → Json
    obj : Members → Json

  pub data Items : Type 0 where
    nil : Items
    cons : Json → Items → Items

  pub data Members : Type 0 where
    end : Members
    member : Bytes → Json → Members → Members

-- `PublicP256JwkWire`: whether a member `d` was present, with any value.
pub record JwkWire : Type 0 where
  pub kty : Bytes
  pub crv : Bytes
  pub x : Bytes
  pub y : Bytes
  pub private_member : Bool

-- `HeaderWire`.
pub record HeaderWire : Type 0 where
  pub typ : Bytes
  pub alg : Bytes
  pub jwk : Json

-- `ClaimsWire`, and `ClaimsBuild`, which has the same members.
pub record ClaimsWire : Type 0 where
  pub jti : Bytes
  pub htm : Bytes
  pub htu : Bytes
  pub iat : ℤ
  pub ath : Option Bytes
  pub nonce : Option Bytes
