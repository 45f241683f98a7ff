-- ===== src/Verifier/Ipc.antt =====
-- The authenticated frames of the local protocol: `PeerCredentialSet`, `valid_peer_id`,
-- `calculate_mac` and `verify_mac` of crates/keylix-verifier/src/lib.rs.
pub mod Text
pub mod Laws
use keylix_community.Prelude.{
  ℕ, ◌*◌, Bool, true, false, ◌&&◌, ◌||◌, not, List, [], ◌∷◌, ◌++◌, Option, none, some, Bytes,
  Result, ok, err, ◌>>=◌, ◌>>◌, fail_if, ok_or, if◌then◌else◌, ltb, leb, ◌==◌, length, is_empty,
  all, any, is_alnum, codes, bytes_eq,
}
use keylix_community.Platform.{Platform}
use keylix_community.Verifier.Application.{verifier_protocol_version}

abbrev pub max_verifier_payload_bytes : ℕ
max_verifier_payload_bytes = 32 * 1024

abbrev pub ipc_correlation_bytes : ℕ
ipc_correlation_bytes = 32

abbrev pub max_credential_document_bytes : ℕ
max_credential_document_bytes = 16 * 1024

abbrev pub max_peers : ℕ
max_peers = 16

pub data IpcFailure : Type 0 where
  malformed_envelope unauthorized_peer entropy_unavailable : IpcFailure

-- `SealedIpcRequest`.
pub record SealedIpcRequest : Type 0 where
  pub frame : Bytes
  pub peer_id : Bytes
  pub correlation : Bytes

pub record AuthenticatedIpcRequest : Type 0 where
  pub peer_id : Bytes
  pub correlation : Bytes
  pub payload : Bytes

pub record PeerConfig : Type 0 where
  pub id : Bytes
  pub secret_base64url : Bytes

pub record PeerConfigDocument : Type 0 where
  pub schema_version : ℕ
  pub peers : List PeerConfig

-- The key is the secret that `hmac::Key::new` is given.
pub record PeerCredential : Type 0 where
  pub id : Bytes
  pub key : Bytes

pub record WireEnvelope : Type 0 where
  pub version : ℕ
  pub peer_id : Bytes
  pub correlation_base64url : Bytes
  pub payload_base64url : Bytes
  pub mac_base64url : Bytes

-- What the frames use of aws-lc-rs (HMAC-SHA-256) and of serde_json.
pub record IpcPlatform : Type 0 where
  pub base : Platform
  pub hmac_sign : Bytes → Bytes → Bytes
  pub hmac_verify : Bytes → Bytes → Bytes → Bool
  pub read_peers : Bytes → Option PeerConfigDocument
  pub read_envelope : Bytes → Option WireEnvelope
  pub write_envelope : WireEnvelope → Option Bytes

abbrev pub is_peer_id_byte : ℕ → Bool
is_peer_id_byte b = is_alnum b || (b == b'-' || (b == b'_' || b == b'.'))

unfoldable pub valid_peer_id : Bytes → Bool
valid_peer_id value = not (is_empty value) && (leb (length value) 64 && all is_peer_id_byte value)

abbrev pub request_domain : Bytes
request_domain = codes "keylix-verifier-request-v1" ++ (0 ∷ [])

abbrev pub response_domain : Bytes
response_domain = codes "keylix-verifier-response-v1" ++ (0 ∷ [])

-- The text that is authenticated.
unfoldable pub mac_input : Bytes → Bytes → Bytes → Bytes → Bytes
mac_input domain peer_id correlation payload = domain ++ (peer_id ++ (0 ∷ (correlation ++ payload)))

-- `iter().find(…)` on the identifier.
unfoldable pub find_peer : Bytes → List PeerCredential → Option PeerCredential
find_peer id [] = none
find_peer id (peer ∷ peers) =
    let rest = find_peer id peers in if bytes_eq peer.id id then some peer else rest

module _ (p : IpcPlatform) where
  -- One peer of the document, after the peers that are known.
  unfoldable pub read_peer : PeerConfig → List PeerCredential → Result IpcFailure PeerCredential
  read_peer peer known = do
    fail_if
        (not (valid_peer_id peer.id) || any (λ (k : PeerCredential). bytes_eq k.id peer.id) known)
        malformed_envelope
    secret ← ok_or (p.base.base64_decode peer.secret_base64url) malformed_envelope
    fail_if
        (not (length secret == 32)
          || not (bytes_eq (p.base.base64_encode secret) peer.secret_base64url))
        malformed_envelope
    ok (record { id = peer.id; key = secret })

  unfoldable pub read_all :
      List PeerConfig → List PeerCredential → Result IpcFailure (List PeerCredential)
  read_all [] known = ok known
  read_all (peer ∷ peers) known =
      read_peer peer known >>= λ credential. read_all peers (known ++ (credential ∷ []))

  -- `PeerCredentialSet::from_json`.
  unfoldable pub peers_from_json : Bytes → Result IpcFailure (List PeerCredential)
  peers_from_json input = do
    fail_if (is_empty input || ltb max_credential_document_bytes (length input)) malformed_envelope
    document ← ok_or (p.read_peers input) malformed_envelope
    fail_if
        (not (document.schema_version == verifier_protocol_version)
          || (is_empty document.peers || ltb max_peers (length document.peers)))
        malformed_envelope
    read_all document.peers []

  unfoldable pub calculate_mac : Bytes → Bytes → Bytes → Bytes → Bytes → Bytes
  calculate_mac key domain peer_id correlation payload =
      p.hmac_sign key (mac_input domain peer_id correlation payload)

  unfoldable pub verify_mac : Bytes → Bytes → Bytes → Bytes → Bytes → Bytes → Bool
  verify_mac key domain peer_id correlation payload mac =
      p.hmac_verify key (mac_input domain peer_id correlation payload) mac

  -- A 32-byte value in its only spelling.
  unfoldable pub decode_exact : Bytes → Result IpcFailure Bytes
  decode_exact text = do
    value ← ok_or (p.base.base64_decode text) malformed_envelope
    fail_if (not (length value == 32)) malformed_envelope
    fail_if (not (bytes_eq (p.base.base64_encode value) text)) malformed_envelope
    ok value

  unfoldable pub decode_payload : Bytes → Result IpcFailure Bytes
  decode_payload text = do
    payload ← ok_or (p.base.base64_decode text) malformed_envelope
    fail_if (is_empty payload || ltb max_verifier_payload_bytes (length payload)) malformed_envelope
    ok payload

  unfoldable pub open_frame :
      List PeerCredential → Bytes → Bytes → Result IpcFailure AuthenticatedIpcRequest
  open_frame peers input domain = do
    fail_if (is_empty input || ltb (max_verifier_payload_bytes * 2) (length input))
        malformed_envelope
    envelope ← ok_or (p.read_envelope input) malformed_envelope
    fail_if
        (not (envelope.version == verifier_protocol_version)
          || not (valid_peer_id envelope.peer_id))
        malformed_envelope
    correlation ← decode_exact envelope.correlation_base64url
    payload ← decode_payload envelope.payload_base64url
    mac ← decode_exact envelope.mac_base64url
    peer ← ok_or (find_peer envelope.peer_id peers) unauthorized_peer
    fail_if (not (verify_mac peer.key domain peer.id correlation payload mac)) unauthorized_peer
    ok (record { peer_id = peer.id; correlation = correlation; payload = payload })

  abbrev pub envelope_of : PeerCredential → Bytes → Bytes → Bytes → Bytes → WireEnvelope
  envelope_of peer peer_id correlation payload domain = record {
    version = verifier_protocol_version;
    peer_id = peer_id;
    correlation_base64url = p.base.base64_encode correlation;
    payload_base64url = p.base.base64_encode payload;
    mac_base64url =
        p.base.base64_encode (calculate_mac peer.key domain peer_id correlation payload);
  }

  unfoldable pub seal :
      List PeerCredential → Bytes → Bytes → Bytes → Bytes → Result IpcFailure Bytes
  seal peers peer_id correlation payload domain = do
    fail_if (is_empty payload || ltb max_verifier_payload_bytes (length payload)) malformed_envelope
    peer ← ok_or (find_peer peer_id peers) unauthorized_peer
    ok_or (p.write_envelope (envelope_of peer peer_id correlation payload domain))
        malformed_envelope

  unfoldable pub open_request :
      List PeerCredential → Bytes → Result IpcFailure AuthenticatedIpcRequest
  open_request peers input = open_frame peers input request_domain

  unfoldable pub seal_response :
      List PeerCredential → AuthenticatedIpcRequest → Bytes → Result IpcFailure Bytes
  seal_response peers request payload =
      seal peers request.peer_id request.correlation payload response_domain

  -- `seal_request`, with what the random source fills in, if it does.
  unfoldable pub seal_request :
      List PeerCredential → Option Bytes → Bytes → Bytes → Result IpcFailure SealedIpcRequest
  seal_request peers entropy peer_id payload = do
    correlation ← ok_or entropy entropy_unavailable
    frame ← seal peers peer_id correlation payload request_domain
    ok (record { frame = frame; peer_id = peer_id; correlation = correlation })

  unfoldable pub open_response_for_request :
      List PeerCredential → SealedIpcRequest → Bytes → Result IpcFailure AuthenticatedIpcRequest
  open_response_for_request peers request input = do
    response ← open_frame peers input response_domain
    fail_if
        (not (bytes_eq response.peer_id request.peer_id)
          || not (bytes_eq response.correlation request.correlation))
        unauthorized_peer
    ok response
