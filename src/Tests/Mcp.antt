-- ===== src/Tests/Mcp.antt =====
-- The MCP adapters at concrete values.
use keylix_community.Prelude.{
  ◌≡◌, refl, List, [], ◌∷◌, none, some, ok, codes, pos, true, false, Bytes, all, arith, ◌+ℤ◌, ◌-ℤ◌,
  checked_add, eq_ignore_case,
}
use keylix_community.Core.Jwk.{
  decode_coordinate, validate_public_point, from_wire, from_json, canonical_thumbprint_input,
  thumbprint,
}
use keylix_community.Dpop.State.Nonces.{
  nonce_for, client_store, NonceTable, authorization_server, resource_server,
}
use keylix_community.Dpop.State.Replay
use keylix_community.Dpop.State.Table.{contains_key}
use keylix_community.Dpop.Request.{
  is_http_token_byte, validate_method, new_request, with_access_token, with_nonce_if,
}
use keylix_community.Dpop.Request.Percent.{normalize_percent_encoding}
use keylix_community.Dpop.Request.Dots.{
  rfind, segment_end, remove_last_segment, dot_round, dot_loop, remove_dot_segments,
}
use keylix_community.Dpop.Request.Authority.{
  normalize_reg_name_host, count, split_port, named, normalize_authority,
}
use keylix_community.Dpop.Request.Uri.{
  is_refused_text, parse_scheme, normalize_path, normalize_rest, normalize_http_uri, parse_target,
}
use keylix_community.Dpop.Proof.Json.{accepts, reject_duplicate_json_members}
use keylix_community.Dpop.Proof.Parse.{
  split, validate_claim_shape, three_parts, decode_segment, parse, parse_dpop_header_values,
}
use keylix_community.Dpop.Proof.Policy.{default_policy, verify_freshness, verify_nonce}
use keylix_community.Dpop.Proof.Binding.{
  access_token_hash, verify_es256_signature, be_bytes, length_prefixed, derive_replay_key,
}
use keylix_community.Dpop.Proof.Verify as verifier
use keylix_community.Dpop.Proof.Verify.{
  verify_access_token, check_signature, check_request, prepare, check_proof, conclude, record_use,
}
use keylix_community.Dpop.Proof.Build.{sign_checked, build}
use keylix_community.Oauth.Binding.{
  HostValidatedToken, VerifiedSenderBinding, equivalent_host_validator, from_token_bytes,
  compose_sender_binding,
}
use keylix_community.Oauth.Client.{
  BoundAccessToken, own_key, require_namespace, require_key_continuity, protected_resource,
}
use keylix_community.Mcp.Server.{McpHttpRequest, read_request, bind_verified, verify_read}
use keylix_community.Mcp.Server as server
use keylix_community.Mcp.Server.Laws.{IsBoundRequest, verify_bound_iff}
use keylix_community.Mcp.Client.{McpDpopClient, resource_attempt}
use keylix_community.Mcp.Transport.{
  Headers, StreamableHttpClient, Attempt, dpop_header, header_name, into_rmcp_parts, decorate,
}
use keylix_community.Mcp.Transport.Laws.{IsDecorated, decorate_sound}
use keylix_community.Mcp.Transport.Calls.{
  HttpCall, post, delete, KeepsDecorated, perform_all, perform_all-keeps,
}
use keylix_community.Samples.Base64.{digit, value, encode, decode, values, join}
use keylix_community.Samples.Host.{host, key, target, digest, proof_text, signer, token}

abbrev validated : HostValidatedToken
validated = record {
  fingerprint = from_token_bytes host token;
  confirmation = some (thumbprint host key).bytes;
  source = equivalent_host_validator;
}

abbrev request : McpHttpRequest
request = record {
  method = codes "GET";
  target = target;
  access_token = token;
  dpop_header_values = proof_text ∷ [];
  nonce = none;
}

abbrev replays : Replay.InMemoryReplayStore
replays = record { capacity = 2; entries = [] }

abbrev binding : VerifiedSenderBinding
binding = record {
  key_thumbprint = thumbprint host key;
  source = equivalent_host_validator;
  proof_issued_at_unix = pos 100;
  nonce_enforced = false;
  replay_checked = true;
}

answered :
    (server.verify host Replay.store default_policy
      (ok (pos 100))
      (ok (pos 100))
      request
      validated
      replays).0
    ≡ ok binding
unfolding server.verify verify_read read_request bind_verified new_request validate_method
    is_http_token_byte with_access_token with_nonce_if parse_dpop_header_values parse three_parts
    split decode_segment reject_duplicate_json_members accepts validate_claim_shape from_json
    from_wire decode_coordinate validate_public_point encode decode values join digit value digest
    verifier.verify record_use conclude check_proof check_signature verify_es256_signature
    check_request parse_target normalize_http_uri is_refused_text parse_scheme normalize_rest
    normalize_authority named split_port rfind count normalize_reg_name_host normalize_path
    normalize_percent_encoding remove_dot_segments dot_loop dot_round segment_end
    remove_last_segment eq_ignore_case verify_freshness verify_nonce verify_access_token
    access_token_hash prepare derive_replay_key length_prefixed be_bytes checked_add ◌+ℤ◌ ◌-ℤ◌
    Replay.check_and_record thumbprint canonical_thumbprint_input compose_sender_binding
    from_token_bytes
answered = refl

verify_bound_iff_example :
    IsBoundRequest host Replay.store default_policy
      (ok (pos 100))
      (ok (pos 100))
      request
      validated
      replays
      binding
verify_bound_iff_example =
    (verify_bound_iff host Replay.store default_policy (ok (pos 100)) (ok (pos 100)) request
        validated replays binding).0
      answered

abbrev client : McpDpopClient
client = record {
  authorization_scope = record { namespace = authorization_server; server_id = codes "as" };
  resource_scope = record { namespace = resource_server; server_id = codes "rs" };
}

abbrev bound_token : BoundAccessToken
bound_token = record { value = token; proof_key = own_key host signer }

abbrev attempt : Attempt NonceTable
attempt = record {
  clock = ok (pos 100);
  generated = ok (record { value = codes "id" });
  state = record { capacity = 2; entries = [] };
}

abbrev given : Headers Bytes
given = (codes "accept", codes "a") ∷ []

decorated :
    decorate host signer client_store some client bound_token attempt
      (codes "GET")
      target.text
      false
      given
    ≡ ok (some (codes "DPoP token"), (codes "accept", codes "a") ∷ (codes "dpop", proof_text) ∷ [])
unfolding decorate into_rmcp_parts resource_attempt protected_resource require_namespace
    require_key_continuity new_request validate_method is_http_token_byte with_access_token
    with_nonce_if nonce_for build sign_checked verify_es256_signature thumbprint
    canonical_thumbprint_input digest encode digit parse_target normalize_http_uri is_refused_text
    parse_scheme normalize_rest normalize_authority named split_port rfind count
    normalize_reg_name_host normalize_path normalize_percent_encoding remove_dot_segments dot_loop
    dot_round segment_end remove_last_segment eq_ignore_case
decorated = refl

decorate_sound_example :
    (false ≡ false)
    × IsDecorated host signer client_store some client bound_token attempt
        (codes "GET")
        target.text
        given
        (some (codes "DPoP token"))
        ((codes "accept", codes "a") ∷ (codes "dpop", proof_text) ∷ [])
decorate_sound_example =
    decorate_sound host signer client_store some client bound_token attempt (codes "GET")
      target.text false given (some (codes "DPoP token"))
      ((codes "accept", codes "a") ∷ (codes "dpop", proof_text) ∷ []) decorated

-- An inner client that logs the header fields it is given.
abbrev Log : Type 0
Log = List (Headers Bytes)

abbrev logging : StreamableHttpClient Log Bytes Bytes Bytes Bytes Bytes
logging = record {
  post_message = λ uri m session auth headers i. (ok [], headers ∷ i);
  post_message_with_max_sse_event_size = λ uri m session auth headers size i. (ok [], headers ∷ i);
  delete_session = λ uri session auth headers i. (ok tt, headers ∷ i);
  get_stream = λ uri session last auth headers i. (ok [], headers ∷ i);
  get_stream_with_max_sse_event_size = λ uri session last auth headers size i. (ok [], headers ∷ i);
}

abbrev AllProved : Log → Type 0
AllProved log = all (contains_key dpop_header) log ≡ true

proved :
    (a : Attempt NonceTable) (method uri : Bytes) (host_headers headers : Headers Bytes) (auth : _)
    (i : Log)
    → IsDecorated host signer client_store some client bound_token a method uri host_headers auth
        headers
    → AllProved i
    → AllProved (headers ∷ i)
proved a method uri host_headers headers auth i made h = ground (arith, made.proof_header, h)

logging-KeepsDecorated :
    KeepsDecorated host signer client_store some client bound_token logging AllProved
logging-KeepsDecorated = record {
  posts = λ a uri m session given auth headers i. proved a (codes "POST") uri given headers auth i;
  posts_bounded =
      λ a uri m session given auth headers size i. proved a (codes "POST") uri given headers auth i;
  deletes =
      λ a uri session given auth headers i. proved a (codes "DELETE") uri given headers auth i;
  streams =
      λ a uri session last given auth headers i. proved a (codes "GET") uri given headers auth i;
  streams_bounded = λ a uri session last given auth headers size i.
      proved a (codes "GET") uri given headers auth i;
}

abbrev calls : List (Attempt NonceTable × HttpCall Bytes Bytes)
calls =
    (attempt, post target.text (codes "{}") none none given)
    ∷ (attempt, delete target.text (codes "s") (some (codes "Bearer x")) given)
    ∷ []

perform_all-keeps_example :
    AllProved (perform_all host signer client_store some client bound_token logging calls [])
perform_all-keeps_example =
    perform_all-keeps host signer client_store some client bound_token logging AllProved calls []
      logging-KeepsDecorated refl
