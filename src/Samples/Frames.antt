-- ===== src/Samples/Frames.antt =====
-- A platform for the frames of the local protocol: documents are fields behind their lengths, and the
-- tag is 32 bytes of the text, which is no authentication code but has what the theorems rely on.
use keylix_community.Prelude.{
  ℕ, zero, suc, ◌≡◌, refl, ap, List, [], ◌∷◌, ◌++◌, Option, none, some, Bytes, length, take, drop,
  bytes_eq, bytes_eq_refl, codes,
}
use keylix_community.Verifier.Ipc.{IpcPlatform, WireEnvelope, PeerCredential}
use keylix_community.Verifier.Ipc.Laws.{IsLawfulIpc}
use keylix_community.Samples.Host.{host, host-IsLawful, digest, repeat, length-digest, digest_bytes}

abbrev pub field : Bytes → Bytes
field s = length s ∷ s

abbrev pub fields : List Bytes → Bytes
fields [] = []
fields (s ∷ rest) = field s ++ fields rest

abbrev pub read_fields : ℕ → Bytes → List Bytes
read_fields zero s = []
read_fields (suc n) [] = []
read_fields (suc n) (size ∷ s) = take size s ∷ read_fields n (drop size s)

take-field : (s rest : Bytes) → take (length s) (s ++ rest) ≡ s
take-field [] rest = refl
take-field (b ∷ s) rest = rw (take-field s rest) refl

drop-field : (s rest : Bytes) → drop (length s) (s ++ rest) ≡ rest
drop-field [] rest = refl
drop-field (b ∷ s) rest = drop-field s rest

read_fields-fields : (parts : List Bytes) → read_fields (length parts) (fields parts) ≡ parts
read_fields-fields [] = refl
read_fields-fields (s ∷ rest) =
    rw (take-field s (fields rest), drop-field s (fields rest), read_fields-fields rest) refl

abbrev pub envelope_parts : WireEnvelope → List Bytes
envelope_parts e = e.peer_id ∷ e.correlation_base64url ∷ e.payload_base64url ∷ e.mac_base64url ∷ []

abbrev pub of_parts : ℕ → List Bytes → Option WireEnvelope
of_parts version (id ∷ correlation ∷ payload ∷ mac ∷ []) = some (record {
  version = version;
  peer_id = id;
  correlation_base64url = correlation;
  payload_base64url = payload;
  mac_base64url = mac;
})
of_parts version _ = none

abbrev pub read_envelope : Bytes → Option WireEnvelope
read_envelope [] = none
read_envelope (version ∷ s) = of_parts version (read_fields 4 s)

abbrev pub frames : IpcPlatform
frames = record {
  base = host;
  hmac_sign = λ key text. digest 32 text;
  hmac_verify = λ key text tag. bytes_eq tag (digest 32 text);
  read_peers = λ b. none;
  read_envelope = read_envelope;
  write_envelope = λ e. some (e.version ∷ fields (envelope_parts e));
}

read-write :
    (e : WireEnvelope) (text : Bytes)
    → some (e.version ∷ fields (envelope_parts e)) ≡ some text
    → read_envelope text ≡ some e
read-write e text h =
    let same : e.version ∷ fields (envelope_parts e) ≡ text = cc h in
    rw (← same) (ap (of_parts e.version) (read_fields-fields (envelope_parts e)))

pub frames-IsLawfulIpc : IsLawfulIpc frames
frames-IsLawfulIpc = record {
  base = host-IsLawful;
  verify-sign = λ k t. bytes_eq_refl (digest 32 t);
  length-sign = λ k t. length-digest 32 t;
  sign_bytes = λ k t. digest_bytes 32 t;
  read-write = read-write;
  read_empty = refl;
}

abbrev pub peers : List PeerCredential
peers = record { id = codes "app"; key = repeat 32 5 } ∷ []
