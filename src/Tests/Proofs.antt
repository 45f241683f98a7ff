-- ===== src/Tests/Proofs.antt =====
-- Proofs built and verified at concrete values.
use keylix_community.Prelude.{
  ◌≡◌, ◌≢◌, refl, ◌∷◌, [], ok, err, codes, arith, pos, ◌+ℤ◌, ◌-ℤ◌, checked_add, eq_ignore_case,
}
use keylix_community.Core.Jwk.{
  decode_coordinate, validate_public_point, from_wire, from_json, canonical_thumbprint_input,
  thumbprint,
}
use keylix_community.Dpop.Errors.{proof_expired}
use keylix_community.Dpop.Ports.{ProofId, fresh}
use keylix_community.Dpop.State.Replay.{InMemoryReplayStore, check_and_record, store}
use keylix_community.Dpop.State.Replay.Laws.{IsValid, store-ReplayContract}
use keylix_community.Dpop.Request.Percent.{normalize_percent_encoding}
use keylix_community.Dpop.Request.Dots.{
  rfind, segment_end, remove_last_segment, dot_round, dot_loop, remove_dot_segments,
}
use keylix_community.Dpop.Request.Authority.{
  normalize_reg_name_host, count, split_port, named, normalize_authority,
}
use keylix_community.Dpop.Request.Uri.{
  is_refused_text, parse_scheme, normalize_path, normalize_rest, normalize_http_uri, parse_target,
}
use keylix_community.Dpop.Proof.Json.{accepts, reject_duplicate_json_members}
use keylix_community.Dpop.Proof.Parse.{
  split, validate_claim_shape, three_parts, decode_segment, parse, parse_dpop_header_values,
}
use keylix_community.Dpop.Proof.Policy.{
  VerificationPolicy, default_policy, verify_freshness, verify_nonce,
}
use keylix_community.Dpop.Proof.Binding.{
  access_token_hash, verify_es256_signature, be_bytes, length_prefixed, derive_replay_key,
}
use keylix_community.Dpop.Proof.Verify.{
  Checked, verify_access_token, check_signature, check_request, prepare, check_proof, conclude,
  record_use, verify,
}
use keylix_community.Dpop.Proof.Verify.Laws.{
  IsAcceptable, verified, verify_iff, refused_leaves_store,
}
use keylix_community.Dpop.Proof.Verify.Once.{Attempt, attempt, run, accepted_once}
use keylix_community.Dpop.Proof.Build.{DpopProof, sign_checked, build}
use keylix_community.Dpop.Proof.Build.Laws.{IsBuilt, build_sound}
use keylix_community.Samples.Base64.{digit, value, encode, decode, values, join}
use keylix_community.Samples.Host.{host, target, digest, proof, proof_text, request, signer}

-- The parser reads the text of the sample as the sample.
parsed : parse_dpop_header_values host (proof_text ∷ []) ≡ ok proof
unfolding parse_dpop_header_values parse three_parts split decode_segment
    reject_duplicate_json_members accepts validate_claim_shape from_json from_wire decode_coordinate
    validate_public_point encode decode values join digit value digest
parsed = refl

target_parsed : parse_target host target.text ≡ ok target
unfolding parse_target normalize_http_uri is_refused_text parse_scheme normalize_rest
    normalize_authority named split_port rfind count normalize_reg_name_host normalize_path
    normalize_percent_encoding remove_dot_segments dot_loop dot_round segment_end
    remove_last_segment eq_ignore_case
target_parsed = refl

abbrev policy : VerificationPolicy
policy = default_policy

abbrev empty : InMemoryReplayStore
empty = record { capacity = 2; entries = [] }

empty-IsValid : IsValid empty
empty-IsValid = record { distinct = tt; bounded = omega arith }

-- The verifier's clock reads 150 at the first call, and 160 at the second one.
abbrev first : Attempt
first = record {
  clock = ok (pos 150);
  store_clock = ok (pos 150);
  proof = proof;
  request = request;
}

abbrev second : Attempt
second = record {
  clock = ok (pos 160);
  store_clock = ok (pos 160);
  proof = proof;
  request = request;
}

abbrev late : Attempt
late = record { clock = ok (pos 401); store_clock = ok (pos 401); proof = proof; request = request }

first_accepted : (attempt host store policy first empty).0 ≡ ok (verified host store proof request)
unfolding verify record_use conclude check_proof check_signature verify_es256_signature
    check_request parse_target normalize_http_uri is_refused_text parse_scheme normalize_rest
    normalize_authority named split_port rfind count normalize_reg_name_host normalize_path
    normalize_percent_encoding remove_dot_segments dot_loop dot_round segment_end
    remove_last_segment eq_ignore_case verify_freshness verify_nonce verify_access_token
    access_token_hash prepare derive_replay_key length_prefixed be_bytes checked_add ◌+ℤ◌ ◌-ℤ◌
    check_and_record digest encode digit thumbprint canonical_thumbprint_input
first_accepted = refl

late_refused : (attempt host store policy late empty).0 ≡ err proof_expired
unfolding verify record_use check_proof check_signature verify_es256_signature check_request
    parse_target normalize_http_uri is_refused_text parse_scheme normalize_rest normalize_authority
    named split_port rfind count normalize_reg_name_host normalize_path normalize_percent_encoding
    remove_dot_segments dot_loop dot_round segment_end remove_last_segment eq_ignore_case
    verify_freshness ◌-ℤ◌ digest encode digit
late_refused = refl

verify_iff_example :
    (checked : Checked) × IsAcceptable host policy (ok (pos 150)) proof request checked
    × ((check_and_record (ok (pos 150)) checked.replay_key checked.expires_at_unix empty).0
        ≡ ok fresh)
    × (verified host store proof request ≡ verified host store proof request)
verify_iff_example =
    (verify_iff host store policy (ok (pos 150)) (ok (pos 150)) proof request empty
        (verified host store proof request)).0
      first_accepted

refused_leaves_store_example : (attempt host store policy late empty).1 ≡ empty
refused_leaves_store_example =
    refused_leaves_store host store policy (ok (pos 401)) (ok (pos 401)) proof request empty
      proof_expired late_refused (λ e. cc) (λ e. cc)

accepted_once_example :
    (attempt host store policy late
      (run host store policy (second ∷ []) (attempt host store policy first empty).1)).0
    ≢ ok (verified host store proof request)
accepted_once_example =
    accepted_once host store-ReplayContract policy first late empty
      (verified host store proof request) (verified host store proof request) (pos 150)
      (second ∷ []) empty-IsValid refl first_accepted (omega arith, tt) (omega arith) refl

abbrev proof_id : ProofId
proof_id = record { value = codes "id" }

abbrev built_proof : DpopProof
built_proof = record { text = proof_text }

built : build host signer (ok (pos 100)) (ok proof_id) request ≡ ok built_proof
unfolding build sign_checked verify_es256_signature digest encode digit
built = refl

build_sound_example : IsBuilt host signer (ok (pos 100)) (ok proof_id) request built_proof
build_sound_example = build_sound host signer (ok (pos 100)) (ok proof_id) request built_proof built
