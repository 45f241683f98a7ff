-- ===== src/Verifier/Ipc/Laws.antt =====
-- What an opened frame proves, and that a sealed frame opens.
use keylix_community.Prelude.{
  ◌*◌, ◌≤◌, ◌≡◌, refl, ap, ◌∙◌, true, false, inl, inr, List, [], ◌∷◌, none, some, Bytes, ok,
  fail_if, ok_or, ok_or-ok, >>=-eq-ok, >>-eq-ok, length, is_empty, all, is_byte, arith, ltb, not,
  ◌||◌, ◌==◌, bytes_eq_iff, bytes_eq_refl, Option-cases, Result-cases,
}
use keylix_community.Platform.{IsLawful}
use keylix_community.Verifier.Application.{verifier_protocol_version}
use keylix_community.Verifier.Ipc.{
  max_verifier_payload_bytes, IpcPlatform, malformed_envelope, unauthorized_peer, SealedIpcRequest,
  AuthenticatedIpcRequest, PeerCredential, WireEnvelope, valid_peer_id, response_domain, mac_input,
  find_peer, calculate_mac, verify_mac, decode_exact, decode_payload, open_frame, envelope_of, seal,
  open_response_for_request,
}

find_peer_id :
    (id : Bytes) (peers : List PeerCredential) (peer : PeerCredential)
    → find_peer id peers ≡ some peer
    → peer.id ≡ id
unfolding find_peer
find_peer_id id [] peer h = cc
find_peer_id id (k ∷ peers) peer h =
    ground (arith, bytes_eq_iff k.id id, find_peer_id id peers peer)

module _ (p : IpcPlatform) where
  -- What an opened value is of the frame that was received: the envelope that the frame reads as names
  -- its peer, which is one of the set, and carries its correlation and payload; and the tag that the
  -- envelope presents is the peer's key's own over direction, identifier, correlation and payload.
  pub record IsAuthentic (peers : List PeerCredential) (domain frame : Bytes)
      (opened : AuthenticatedIpcRequest) : Type 0 where
    pub envelope : WireEnvelope
    pub read : p.read_envelope frame ≡ some envelope
    pub versioned : envelope.version ≡ 1
    pub named : envelope.peer_id ≡ opened.peer_id
    pub correlates : p.base.base64_decode envelope.correlation_base64url ≡ some opened.correlation
    pub carries : p.base.base64_decode envelope.payload_base64url ≡ some opened.payload
    pub mac : Bytes
    pub presented : p.base.base64_decode envelope.mac_base64url ≡ some mac
    pub peer : PeerCredential
    pub known : find_peer opened.peer_id peers ≡ some peer
    pub valid : valid_peer_id opened.peer_id ≡ true
    pub correlated : length opened.correlation ≡ 32
    pub authenticated :
        p.hmac_verify peer.key
          (mac_input domain opened.peer_id opened.correlation opened.payload)
          mac
        ≡ true

  decode_exact_sound :
      (text value : Bytes)
      → decode_exact p text ≡ ok value
      → (p.base.base64_decode text ≡ some value) × (length value ≡ 32)
  unfolding decode_exact
  decode_exact_sound text value h = elim (Option-cases (p.base.base64_decode text)) [
    | inl e ↦ absurd (ground (arith, e))
    | inr (d, e) ↦ ground (arith, e)
  ]

  decode_payload_sound :
      (text value : Bytes)
      → decode_payload p text ≡ ok value
      → p.base.base64_decode text ≡ some value
  unfolding decode_payload
  decode_payload_sound text value h = elim (Option-cases (p.base.base64_decode text)) [
    | inl e ↦ absurd (ground (arith, e))
    | inr (d, e) ↦ ground (arith, e)
  ]

  -- A frame opens only if a peer of the set authenticated exactly what the opened value holds.
  pub open_frame_sound :
      (peers : List PeerCredential) (input domain : Bytes) (opened : AuthenticatedIpcRequest)
      → open_frame p peers input domain ≡ ok opened
      → IsAuthentic peers domain input opened
  unfolding open_frame verify_mac
  open_frame_sound peers input domain opened h =
      let (_, h1) =
        >>-eq-ok
          (fail_if (is_empty input || ltb (max_verifier_payload_bytes * 2) (length input))
            malformed_envelope)
          _ h in
      let (envelope, read, h2) =
        >>=-eq-ok (ok_or (p.read_envelope input) malformed_envelope) _ h1 in
      let (versioned, h3) =
        >>-eq-ok
          (fail_if
            (not (envelope.version == verifier_protocol_version)
              || not (valid_peer_id envelope.peer_id))
            malformed_envelope)
          _ h2 in
      let (correlation, decoded, h4) =
        >>=-eq-ok (decode_exact p envelope.correlation_base64url) _ h3 in
      let (payload, carried, h5) = >>=-eq-ok (decode_payload p envelope.payload_base64url) _ h4 in
      let (mac, given, h6) = >>=-eq-ok (decode_exact p envelope.mac_base64url) _ h5 in
      let (peer, known, h7) =
        >>=-eq-ok (ok_or (find_peer envelope.peer_id peers) unauthorized_peer) _ h6 in
      let found : find_peer envelope.peer_id peers ≡ some peer =
        ok_or-ok unauthorized_peer _ known in
      let same : peer.id ≡ envelope.peer_id = find_peer_id envelope.peer_id peers peer found in
      let (text, sized) = decode_exact_sound envelope.correlation_base64url correlation decoded in
      let body = decode_payload_sound envelope.payload_base64url payload carried in
      let shape : opened
          ≡ record { peer_id = peer.id; correlation = correlation; payload = payload } =
        ground (arith, h7) in
      record {
        envelope = envelope;
        read = ok_or-ok malformed_envelope _ read;
        versioned = ground (arith, versioned);
        named = ground (arith, shape, same);
        correlates = ground (arith, shape, text);
        carries = ground (arith, shape, body);
        mac = mac;
        presented = (decode_exact_sound envelope.mac_base64url mac given).0;
        peer = peer;
        known = ground (arith, shape, same, found);
        valid = ground (arith, shape, same, versioned);
        correlated = ground (arith, shape, sized);
        authenticated = ground (arith, shape, h7);
      }

  -- An accepted response is authentic as a response, by the tag that its frame presents, and belongs to
  -- the very request: the same peer and the same correlation.
  pub open_response_sound :
      (peers : List PeerCredential) (sent : SealedIpcRequest) (input : Bytes)
      (opened : AuthenticatedIpcRequest)
      → open_response_for_request p peers sent input ≡ ok opened
      → IsAuthentic peers response_domain input opened
        × (opened.peer_id ≡ sent.peer_id)
        × (opened.correlation ≡ sent.correlation)
  unfolding open_response_for_request
  open_response_sound peers sent input opened h =
      elim (Result-cases (open_frame p peers input response_domain)) [
        | inr (x, bad) ↦ absurd (ground (arith, bad))
        | inl (r, good) ↦
            let same : r ≡ opened = ground (arith, good) in
            (
              open_frame_sound peers input response_domain opened (good ∙ ap ok same),
              ground (
                arith,
                good,
                bytes_eq_iff r.peer_id sent.peer_id,
                bytes_eq_iff r.correlation sent.correlation,
              ),
              ground (
                arith,
                good,
                bytes_eq_iff r.peer_id sent.peer_id,
                bytes_eq_iff r.correlation sent.correlation,
              ),
            )
      ]

-- Documented behaviour of HMAC-SHA-256 and of serde_json: a tag verifies, has 32 bytes, and what was
-- written is read back; the empty text is no document.
pub record IsLawfulIpc (p : IpcPlatform) : Type 0 where
  pub base : IsLawful p.base
  pub verify-sign : (k t : Bytes) → p.hmac_verify k t (p.hmac_sign k t) ≡ true
  pub length-sign : (k t : Bytes) → length (p.hmac_sign k t) ≡ 32
  pub sign_bytes : (k t : Bytes) → all is_byte (p.hmac_sign k t) ≡ true
  pub read-write :
      (e : WireEnvelope) (text : Bytes)
      → p.write_envelope e ≡ some text
      → p.read_envelope text ≡ some e
  pub read_empty : p.read_envelope [] ≡ none

module _ (p : IpcPlatform) (laws : IsLawfulIpc p) where
  decode_exact-encode :
      (value : Bytes)
      → all is_byte value ≡ true
      → length value ≡ 32
      → decode_exact p (p.base.base64_encode value) ≡ ok value
  unfolding decode_exact
  decode_exact-encode value small sized = ground (
    arith,
    laws.base.decode-encode value small,
    sized,
    bytes_eq_refl (p.base.base64_encode value),
  )

  decode_payload-encode :
      (payload : Bytes)
      → all is_byte payload ≡ true
      → (is_empty payload || ltb max_verifier_payload_bytes (length payload)) ≡ false
      → decode_payload p (p.base.base64_encode payload) ≡ ok payload
  unfolding decode_payload
  decode_payload-encode payload small fits =
      ground (arith, laws.base.decode-encode payload small, fits)

  seal-parts :
      (peers : List PeerCredential) (id correlation payload domain frame : Bytes)
      → seal p peers id correlation payload domain ≡ ok frame
      → ((is_empty payload || ltb max_verifier_payload_bytes (length payload)) ≡ false)
        × (peer : PeerCredential) × (find_peer id peers ≡ some peer)
        × (p.write_envelope (envelope_of p peer id correlation payload domain) ≡ some frame)
  unfolding seal
  seal-parts peers id correlation payload domain frame h =
      let (fits, h1) =
        >>-eq-ok
          (fail_if (is_empty payload || ltb max_verifier_payload_bytes (length payload))
            malformed_envelope)
          _ h in
      let (peer, known, h2) = >>=-eq-ok (ok_or (find_peer id peers) unauthorized_peer) _ h1 in
      (
        ground (arith, fits),
        peer,
        ok_or-ok unauthorized_peer _ known,
        ok_or-ok malformed_envelope _ h2,
      )

  frame_present :
      (frame : Bytes) (e : WireEnvelope) → p.read_envelope frame ≡ some e → is_empty frame ≡ false
  frame_present [] e h = absurd (cc (h, laws.read_empty))
  frame_present (b ∷ frame) e h = refl

  -- With lawful base64, HMAC and JSON, a frame sealed for a valid peer identifier, a 32-byte correlation
  -- and a payload of bytes opens, if it is within the input limit, under the same credentials and in
  -- the same direction, as the peer, the correlation and the payload that were sealed.
  pub open_frame-seal :
      (peers : List PeerCredential) (id correlation payload domain frame : Bytes)
      → valid_peer_id id ≡ true
      → length correlation ≡ 32
      → all is_byte correlation ≡ true
      → all is_byte payload ≡ true
      → seal p peers id correlation payload domain ≡ ok frame
      → length frame ≤ max_verifier_payload_bytes * 2
      → open_frame p peers frame domain
        ≡ ok (record { peer_id = id; correlation = correlation; payload = payload })
  unfolding open_frame verify_mac calculate_mac
  open_frame-seal peers id correlation payload domain frame valid sized small_c small h fits =
      let (carried, peer, known, written) =
        seal-parts peers id correlation payload domain frame h in
      let read : p.read_envelope frame ≡ some (envelope_of p peer id correlation payload domain) =
        laws.read-write (envelope_of p peer id correlation payload domain) frame written in
      let tag : Bytes = p.hmac_sign peer.key (mac_input domain id correlation payload) in
      let same : peer.id ≡ id = find_peer_id id peers peer known in
      let small_frame : ltb (max_verifier_payload_bytes * 2) (length frame) ≡ false =
        ground arith in
      rw
        (
          frame_present frame (envelope_of p peer id correlation payload domain) read,
          small_frame,
          read,
          valid,
          decode_exact-encode correlation small_c sized,
          decode_payload-encode payload small carried,
          decode_exact-encode tag
              (laws.sign_bytes peer.key (mac_input domain id correlation payload))
              (laws.length-sign peer.key (mac_input domain id correlation payload)),
          known,
          same,
          laws.verify-sign peer.key (mac_input domain id correlation payload),
        )
        refl
