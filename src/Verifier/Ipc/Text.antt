-- ===== src/Verifier/Ipc/Text.antt =====
-- The text that a frame authenticates has one reading.
use keylix_community.Prelude.{
  ◌≡◌, refl, ap, true, [], ◌∷◌, ◌++◌, Bytes, length, all, take, arith, append_cancel,
  append_same_length,
}
use keylix_community.Verifier.Ipc.{
  is_peer_id_byte, valid_peer_id, request_domain, response_domain, mac_input,
}

-- A frame travels to the verifier or back.
pub data Direction : Type 0 where
  request response : Direction

abbrev pub domain_of : Direction → Bytes
domain_of request = request_domain
domain_of response = response_domain

-- Texts without a zero byte, cut at the first zero.
cut_at_zero :
    (a b c d : Bytes)
    → all is_peer_id_byte a ≡ true
    → all is_peer_id_byte b ≡ true
    → a ++ (0 ∷ c) ≡ b ++ (0 ∷ d)
    → (a ≡ b) × (c ≡ d)
cut_at_zero [] [] c d ha hb e = (refl, cc)
cut_at_zero [] (y ∷ b) c d ha hb e = absurd (ground (arith, e))
cut_at_zero (x ∷ a) [] c d ha hb e = absurd (ground (arith, e))
cut_at_zero (x ∷ a) (y ∷ b) c d ha hb e =
    let (same, rest) = cut_at_zero a b c d (ground arith) (ground arith) (cc e) in (cc, rest)

valid_bytes : (id : Bytes) → valid_peer_id id ≡ true → all is_peer_id_byte id ≡ true
unfolding valid_peer_id
valid_bytes id h = ground arith

rest_injective :
    (i j c c' m m' : Bytes)
    → valid_peer_id i ≡ true
    → valid_peer_id j ≡ true
    → length c ≡ length c'
    → i ++ (0 ∷ (c ++ m)) ≡ j ++ (0 ∷ (c' ++ m'))
    → (i ≡ j) × ((c ≡ c') × (m ≡ m'))
rest_injective i j c c' m m' hi hj l e =
    let (same, rest) =
      cut_at_zero i j (c ++ m) (c' ++ m') (valid_bytes i hi) (valid_bytes j hj) e in
    let (correlation, payload) = append_same_length c c' m m' l rest in
    (same, (correlation, payload))

-- Two frames of valid peer identifiers and correlations of one length have the same authenticated text
-- only if they agree in direction, peer, correlation and payload: a request cannot be replayed as a
-- response, and no part can be shifted into another.
pub mac_input_injective :
    (a b : Direction) (i j c c' m m' : Bytes)
    → valid_peer_id i ≡ true
    → valid_peer_id j ≡ true
    → length c ≡ length c'
    → mac_input (domain_of a) i c m ≡ mac_input (domain_of b) j c' m'
    → (a ≡ b) × (i ≡ j) × (c ≡ c') × (m ≡ m')
unfolding mac_input
mac_input_injective request request i j c c' m m' hi hj l e =
    let (peer, rest) = rest_injective i j c c' m m' hi hj l (append_cancel request_domain _ _ e) in
    (refl, peer, rest.0, rest.1)
mac_input_injective response response i j c c' m m' hi hj l e =
    let (peer, rest) = rest_injective i j c c' m m' hi hj l (append_cancel response_domain _ _ e) in
    (refl, peer, rest.0, rest.1)
mac_input_injective request response i j c c' m m' hi hj l e =
    absurd (ground (arith, ap (take 20) e))
mac_input_injective response request i j c c' m m' hi hj l e =
    absurd (ground (arith, ap (take 20) e))
