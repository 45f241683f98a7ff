-- ===== src/Tests/Frames.antt =====
-- The frames of the local protocol at concrete values.
use keylix_community.Prelude.{◌≡◌, refl, [], ◌∷◌, ◌++◌, Bytes, ok, codes, true, arith, length, ◌≤◌}
use keylix_community.Verifier.Ipc.{
  AuthenticatedIpcRequest, SealedIpcRequest, valid_peer_id, request_domain, response_domain,
  mac_input, find_peer, calculate_mac, verify_mac, decode_exact, decode_payload, open_frame, seal,
  open_response_for_request,
}
use keylix_community.Verifier.Ipc.Text.{request, mac_input_injective}
use keylix_community.Verifier.Ipc.Laws.{IsAuthentic, open_response_sound, open_frame-seal}
use keylix_community.Samples.Base64.{digit, value, encode, decode, values, join}
use keylix_community.Samples.Host.{digest, repeat}
use keylix_community.Samples.Frames.{frames, frames-IsLawfulIpc, peers, fields}

abbrev id : Bytes
id = codes "app"

abbrev correlation : Bytes
correlation = repeat 32 7

abbrev payload : Bytes
payload = codes "hello"

-- The frame of a payload in one direction.
abbrev frame_of : Bytes → Bytes
frame_of domain =
    1
    ∷ fields (
        id
        ∷ encode correlation
        ∷ encode payload
        ∷ encode (digest 32 (domain ++ (id ++ (0 ∷ (correlation ++ payload)))))
        ∷ [])

valid : valid_peer_id id ≡ true
unfolding valid_peer_id
valid = refl

sealed : seal frames peers id correlation payload request_domain ≡ ok (frame_of request_domain)
unfolding seal find_peer calculate_mac mac_input
sealed = refl

abbrev opened : AuthenticatedIpcRequest
opened = record { peer_id = id; correlation = correlation; payload = payload }

fits : length (frame_of request_domain) ≤ 65536
unfolding encode digest
fits = omega arith

open_frame-seal_example :
    open_frame frames peers (frame_of request_domain) request_domain ≡ ok opened
open_frame-seal_example =
    open_frame-seal frames frames-IsLawfulIpc peers id correlation payload request_domain
      (frame_of request_domain) valid refl refl refl sealed fits

opens : open_frame frames peers (frame_of request_domain) request_domain ≡ ok opened
unfolding open_frame valid_peer_id decode_exact decode_payload find_peer verify_mac mac_input encode
    decode values join digit value digest
opens = refl

abbrev sent : SealedIpcRequest
sent = record { frame = frame_of request_domain; peer_id = id; correlation = correlation }

answered : open_response_for_request frames peers sent (frame_of response_domain) ≡ ok opened
unfolding open_response_for_request open_frame valid_peer_id decode_exact decode_payload find_peer
    verify_mac mac_input encode decode values join digit value digest
answered = refl

open_response_sound_example :
    IsAuthentic frames peers response_domain (frame_of response_domain) opened
    × (id ≡ id)
    × (correlation ≡ correlation)
open_response_sound_example =
    open_response_sound frames peers sent (frame_of response_domain) opened answered

mac_input_injective_example :
    (request ≡ request) × (id ≡ id) × (correlation ≡ correlation) × (payload ≡ payload)
mac_input_injective_example =
    mac_input_injective request request id id correlation correlation payload payload valid valid
      refl refl
