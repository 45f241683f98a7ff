-- ===== src/Tests/Proxies.antt =====
-- Targets behind a proxy at concrete values.
use keylix_community.Prelude.{◌≡◌, refl, Bool, ◌==◌, ℕ, none, some, ok, err, codes, eq_ignore_case}
use keylix_community.Dpop.Request.Percent.{normalize_percent_encoding}
use keylix_community.Dpop.Request.Dots.{
  rfind, segment_end, remove_last_segment, dot_round, dot_loop, remove_dot_segments,
}
use keylix_community.Dpop.Request.Authority.{
  normalize_reg_name_host, count, split_port, named, normalize_authority,
}
use keylix_community.Dpop.Request.Uri.{
  is_refused_text, parse_scheme, normalize_path, normalize_rest, normalize_http_uri, parse_target,
}
use keylix_community.Dpop.Proof.Parse.{split}
use keylix_community.Http.{
  ForwardingHeaders, forwarded_family, ambiguous_forwarding_metadata, trim_start, trim_end,
  trim_ows, is_header_token_byte, checked_forwarding_value, parameter_parts, note_parameter,
  read_parameter, read_parameters, parse_single_forwarded, resolve_forwarded, is_refused,
  build_target, resolve,
}
use keylix_community.Http.Laws.{IsResolved, resolve_sound}
use keylix_community.Samples.Host.{host, target}

abbrev trusts : ℕ → Bool
trusts peer = peer == 7

abbrev headers : ForwardingHeaders
headers = record {
  forwarded = some (codes "for=10.0.0.1; proto=HTTPS;host=A.example");
  x_forwarded_proto = none;
  x_forwarded_host = none;
}

abbrev mixed : ForwardingHeaders
mixed = record headers { x_forwarded_host = some (codes "b.example") }

mixed_refused : resolve_forwarded mixed ≡ err ambiguous_forwarding_metadata
unfolding resolve_forwarded
mixed_refused = refl

resolved : resolve host trusts forwarded_family 7 (codes "/y/../x?q=1") headers ≡ ok target
unfolding resolve resolve_forwarded parse_single_forwarded checked_forwarding_value trim_ows
    trim_start trim_end read_parameters read_parameter note_parameter parameter_parts
    is_header_token_byte split eq_ignore_case build_target is_refused parse_target
    normalize_http_uri is_refused_text parse_scheme normalize_rest normalize_authority named
    split_port rfind count normalize_reg_name_host normalize_path normalize_percent_encoding
    remove_dot_segments dot_loop dot_round segment_end remove_last_segment
resolved = refl

resolve_sound_example :
    IsResolved host trusts forwarded_family 7 (codes "/y/../x?q=1") headers target
resolve_sound_example =
    resolve_sound host trusts forwarded_family 7 (codes "/y/../x?q=1") headers target resolved
