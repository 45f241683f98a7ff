-- ===== src/Tests/Keys.antt =====
-- Keys, documents and policies at concrete values.
use keylix_community.Prelude.{◌≡◌, refl, ◌∷◌, ◌++◌, ◌+ℤ◌, [], some, ok, codes, arith, Bytes, pos}
use keylix_community.Wire.{Json, obj, end, JwkWire}
use keylix_community.Core.Jwk.{
  JwkThumbprint, decode_coordinate, validate_public_point, from_wire, from_json,
}
use keylix_community.Core.Jwk.Laws.{
  IsKey, IsWellFormed, from_json_iff, canonical_thumbprint_input_injective,
}
use keylix_community.Dpop.Proof.Json.{HasUniqueNames, accepts, reject_duplicate_json_members}
use keylix_community.Dpop.Proof.Json.Laws.{reject_duplicate_json_members_iff}
use keylix_community.Dpop.Ports.{DpopNonce}
use keylix_community.Dpop.Proof.Policy.{default_policy, verify_freshness}
use keylix_community.Dpop.Proof.Policy.Laws.{verify_freshness_iff}
use keylix_community.Dpop.Proof.Binding.{be_bytes, length_prefixed, replay_parts}
use keylix_community.Dpop.Proof.Binding.Laws.{replay_material_injective}
use keylix_community.Oauth.Binding.{parse_jkt}
use keylix_community.Oauth.Binding.Laws.{parse_jkt_iff}
use keylix_community.Samples.Base64.{digit, value, encode, decode, values, join}
use keylix_community.Samples.Host.{host, host-IsLawful, key, wire_key, target, repeat}

key_accepted : from_json host (codes "{}") ≡ ok key
unfolding from_json from_wire decode_coordinate validate_public_point encode decode values join
    digit value
key_accepted = refl

from_json_iff_example : (wire : JwkWire) × (some wire_key ≡ some wire) × IsKey host wire key
from_json_iff_example = (from_json_iff host (codes "{}") key).0 key_accepted

key-IsWellFormed : IsWellFormed key
key-IsWellFormed = record { x_sized = refl; y_sized = refl; x_is_bytes = refl; y_is_bytes = refl }

canonical_thumbprint_input_injective_example : key ≡ key
canonical_thumbprint_input_injective_example =
    canonical_thumbprint_input_injective host host-IsLawful key key key-IsWellFormed
      key-IsWellFormed refl

no_duplicates : reject_duplicate_json_members host (codes "{}") ≡ ok tt
unfolding reject_duplicate_json_members accepts
no_duplicates = refl

reject_duplicate_json_members_iff_example :
    (j : Json) × (some (obj end) ≡ some j) × HasUniqueNames j
reject_duplicate_json_members_iff_example =
    (reject_duplicate_json_members_iff host (codes "{}")).0 no_duplicates

-- The last second of the default policy's window, with a clock that is 300 seconds ahead.
verify_freshness_iff_example : verify_freshness (pos 100) (pos 400) default_policy ≡ ok tt
unfolding ◌+ℤ◌
verify_freshness_iff_example =
    (verify_freshness_iff (pos 100) (pos 400) default_policy).1
      (record { positive = omega arith; not_expired = omega arith; not_early = omega arith })

abbrev nonce : DpopNonce
nonce = record { value = codes "n1" }

presented : (n : DpopNonce) → some nonce ≡ some n → some (codes "n1") ≡ some n.value
presented n e = ground (arith, e)

abbrev thumb : JwkThumbprint
thumb = record { bytes = 9 ∷ [] }

abbrev material : Bytes
material =
    repeat 7 0
    ++ (1
        ∷ 9
        ∷ (repeat 7 0
            ++ (3 ∷ codes "GET"
                ++ (repeat 7 0
                    ++ (19 ∷ codes "https://a.example/x" ++ (repeat 7 0 ++ (2 ∷ codes "id")))))))

prefixed : length_prefixed (replay_parts thumb (codes "GET") target (codes "id")) ≡ ok material
unfolding length_prefixed be_bytes
prefixed = refl

replay_material_injective_example :
    (thumb ≡ thumb) × (codes "GET" ≡ codes "GET") × (target ≡ target) × (codes "id" ≡ codes "id")
replay_material_injective_example =
    replay_material_injective thumb thumb (codes "GET") (codes "GET") target target (codes "id")
      (codes "id") material prefixed prefixed

parse_jkt_iff_example : parse_jkt host (encode (repeat 32 7)) ≡ ok (repeat 32 7)
parse_jkt_iff_example =
    (parse_jkt_iff host host-IsLawful (encode (repeat 32 7)) (repeat 32 7) refl).1 (refl, refl)
