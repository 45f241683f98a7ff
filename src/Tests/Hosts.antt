-- ===== src/Tests/Hosts.antt =====
-- The client and the verifying host at concrete values.
use keylix_community.Prelude.{
  ◌≡◌, refl, ◌∷◌, [], none, some, ok, codes, pos, true, false, ◌+ℤ◌, ◌-ℤ◌, checked_add,
  eq_ignore_case, all,
}
use keylix_community.Core.Jwk.{
  JwkThumbprint, decode_coordinate, validate_public_point, from_wire, from_json,
  canonical_thumbprint_input, thumbprint, to_base64url,
}
use keylix_community.Dpop.Ports.{ProofId, DpopNonce}
use keylix_community.Dpop.State.Replay
use keylix_community.Dpop.State.Replay.{InMemoryReplayStore, check_and_record}
use keylix_community.Dpop.State.Nonces.{
  NonceContext, NonceTable, resource_server, nonce_for, record_challenge, client_store,
  server_store,
}
use keylix_community.Dpop.Request.{
  is_http_token_byte, validate_method, new_request, with_access_token, with_nonce_if,
}
use keylix_community.Dpop.Request.Percent.{normalize_percent_encoding}
use keylix_community.Dpop.Request.Dots.{
  rfind, segment_end, remove_last_segment, dot_round, dot_loop, remove_dot_segments,
}
use keylix_community.Dpop.Request.Authority.{
  normalize_reg_name_host, count, split_port, named, normalize_authority,
}
use keylix_community.Dpop.Request.Uri.{
  is_refused_text, parse_scheme, normalize_path, normalize_rest, normalize_http_uri, parse_target,
}
use keylix_community.Dpop.Proof.Json.{accepts, reject_duplicate_json_members}
use keylix_community.Dpop.Proof.Parse.{
  split, validate_claim_shape, three_parts, decode_segment, parse, parse_dpop_header_values,
}
use keylix_community.Dpop.Proof.Policy.{default_policy, verify_freshness, verify_nonce}
use keylix_community.Dpop.Proof.Binding.{
  access_token_hash, verify_es256_signature, be_bytes, length_prefixed, derive_replay_key,
}
use keylix_community.Dpop.Proof.Verify
use keylix_community.Dpop.Proof.Verify.{
  VerifiedDpopProof, verify_access_token, check_signature, check_request, prepare, check_proof,
  conclude, record_use,
}
use keylix_community.Dpop.Proof.Build.{sign_checked, build}
use keylix_community.Oauth.Binding.{
  HostValidatedToken, equivalent_host_validator, from_token_bytes, parse_jkt, parse_confirmation,
  new, from_equivalent_host_validator, compose_sender_binding,
}
use keylix_community.Oauth.Binding.Laws.{binding_of, compose_sender_binding_iff}
use keylix_community.Oauth.Credential.{is_b64token_byte, validate_access_token, is_printable}
use keylix_community.Oauth.Client.{
  BoundAccessToken, BoundTokenSet, ProtectedResourceAuthorization, single_retry, own_key,
  require_namespace, require_key_continuity, validate_optional_refresh, accept_token_response,
  protected_resource,
}
use keylix_community.Oauth.Client.Laws.{
  IsAuthorized, protected_resource_sound, accepted_token_usable, challenged, challenged-take,
}
use keylix_community.Verifier.Application.{
  VerifierRequest, VerifiedBinding, verified, optional, Environment, dpop_request, bind_sender,
  required_nonce, verify_with_nonce, verify,
}
use keylix_community.Verifier.Application.Laws.{IsVerified, verified_sound}
use keylix_community.Samples.Base64.{digit, value, encode, decode, values, join}
use keylix_community.Samples.Host.{host, key, target, digest, proof_text, signer, token}

abbrev thumb : JwkThumbprint
thumb = thumbprint host key

abbrev verified_proof : VerifiedDpopProof
verified_proof = record {
  key_thumbprint = thumb;
  issued_at_unix = pos 100;
  nonce_enforced = false;
  replay_checked = true;
  access_token_hash_verified = true;
}

abbrev validated : HostValidatedToken
validated = record {
  fingerprint = from_token_bytes host token;
  confirmation = some thumb.bytes;
  source = equivalent_host_validator;
}

compose_sender_binding_iff_example :
    compose_sender_binding host verified_proof token validated
    ≡ ok (binding_of host verified_proof validated)
compose_sender_binding_iff_example =
    (compose_sender_binding_iff host verified_proof token validated
        (binding_of host verified_proof validated)).1
      (record { proof_bound = refl; same_token = refl; confirmed = refl }, refl)

abbrev context : NonceContext
context = record { namespace = resource_server; server_id = codes "rs" }

abbrev nonce : DpopNonce
nonce = record { value = codes "n1" }

abbrev nonces : NonceTable
nonces = record { capacity = 2; entries = [] }

abbrev bound_token : BoundAccessToken
bound_token = record { value = token; proof_key = own_key host signer }

abbrev proof_id : ProofId
proof_id = record { value = codes "id" }

abbrev authorization : ProtectedResourceAuthorization
authorization = record { authorization = codes "DPoP token"; proof = record { text = proof_text } }

authorized :
    protected_resource host signer client_store
      (ok (pos 100))
      (ok proof_id)
      context
      (codes "GET")
      target
      bound_token
      nonces
    ≡ ok authorization
unfolding protected_resource require_namespace require_key_continuity new_request validate_method
    is_http_token_byte with_access_token with_nonce_if nonce_for build sign_checked
    verify_es256_signature thumbprint canonical_thumbprint_input digest encode digit
authorized = refl

protected_resource_sound_example :
    IsAuthorized host signer client_store
      (ok (pos 100))
      (ok proof_id)
      context
      (codes "GET")
      target
      bound_token
      nonces
      authorization
protected_resource_sound_example =
    protected_resource_sound host signer client_store (ok (pos 100)) (ok proof_id) context
      (codes "GET") target bound_token nonces authorization authorized

abbrev tokens : BoundTokenSet
tokens = record { access_token = bound_token; refresh_token = none }

token_accepted : accept_token_response host signer (codes "dPoP") token none ≡ ok tokens
unfolding accept_token_response validate_optional_refresh validate_access_token is_b64token_byte
    eq_ignore_case
token_accepted = refl

accepted_token_usable_example :
    (require_key_continuity host signer (own_key host signer) ≡ ok tt)
    × (all is_printable (codes "DPoP token") ≡ true)
accepted_token_usable_example =
    accepted_token_usable host signer (codes "dPoP") token none tokens token_accepted

abbrev other_nonce : DpopNonce
other_nonce = record { value = codes "n2" }

challenged-take_example :
    (challenged client_store ((context, nonce) ∷ (context, other_nonce) ∷ []) single_retry nonces).1
    ≡ (record_challenge context nonce nonces).1
challenged-take_example =
    challenged-take client_store ((context, nonce) ∷ (context, other_nonce) ∷ []) single_retry
      nonces

abbrev asked : VerifierRequest
asked = record {
  version = 1;
  method = codes "GET";
  target = target.text;
  access_token = token;
  dpop_proof = proof_text;
  confirmation_jkt = some (encode thumb.bytes);
}

abbrev env : Environment
env = record { clock = ok (pos 150); store_clock = ok (pos 150); generated = ok nonce }

abbrev replays : InMemoryReplayStore
replays = record { capacity = 2; entries = [] }

abbrev answer : VerifiedBinding
answer = record {
  key_thumbprint = encode thumb.bytes;
  proof_issued_at_unix = pos 100;
  nonce_enforced = false;
  replay_checked = true;
}

answered :
    (verify host server_store Replay.store optional default_policy env asked nonces replays).0
    ≡ verified 1 answer
unfolding verify required_nonce verify_with_nonce dpop_request new_request validate_method
    is_http_token_byte with_access_token with_nonce_if parse_dpop_header_values parse three_parts
    split decode_segment reject_duplicate_json_members accepts validate_claim_shape from_json
    from_wire decode_coordinate validate_public_point encode decode values join digit value digest
    Verify.verify record_use conclude check_proof check_signature verify_es256_signature
    check_request parse_target normalize_http_uri is_refused_text parse_scheme normalize_rest
    normalize_authority named split_port rfind count normalize_reg_name_host normalize_path
    normalize_percent_encoding remove_dot_segments dot_loop dot_round segment_end
    remove_last_segment eq_ignore_case verify_freshness verify_nonce verify_access_token
    access_token_hash prepare derive_replay_key length_prefixed be_bytes checked_add ◌+ℤ◌ ◌-ℤ◌
    check_and_record thumbprint canonical_thumbprint_input bind_sender
    from_equivalent_host_validator new parse_confirmation parse_jkt compose_sender_binding
    from_token_bytes to_base64url
answered = refl

verified_sound_example :
    IsVerified host server_store Replay.store optional default_policy env asked nonces replays
      answer
verified_sound_example =
    verified_sound host server_store Replay.store optional default_policy env asked nonces replays 1
      answer answered
