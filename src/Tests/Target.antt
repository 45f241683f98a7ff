-- ===== src/Tests/Target.antt =====
-- Target normalization at concrete values.
use keylix_community.Prelude.{◌≡◌, ◌≢◌, refl, false, [], none, ok, codes, arith, contains}
use keylix_community.Dpop.Request.Percent.{
  is_unreserved, hex_value, hex_upper, escape, decode_escape, normalize_percent_encoding,
}
use keylix_community.Dpop.Request.Percent.Laws.{
  normalize_percent_encoding_idem, normalize_percent_encoding_absent,
}
use keylix_community.Dpop.Request.Dots.{dot_loop, remove_dot_segments}
use keylix_community.Dpop.Request.Dots.Segments.{HaveNoDots, segments, resolve}
use keylix_community.Dpop.Request.Dots.Laws.{remove_dot_segments-resolve, dot_loop_total}

escapes : normalize_percent_encoding (codes "%7ea%2f") ≡ ok (codes "~a%2F")
unfolding normalize_percent_encoding decode_escape escape hex_value hex_upper is_unreserved
escapes = refl

normalize_percent_encoding_idem_example :
    normalize_percent_encoding (codes "~a%2F") ≡ ok (codes "~a%2F")
normalize_percent_encoding_idem_example =
    normalize_percent_encoding_idem (codes "%7ea%2f") (codes "~a%2F") escapes

slash_reserved : is_unreserved b'/' ≡ false
unfolding is_unreserved
slash_reserved = refl

normalize_percent_encoding_absent_example : contains b'/' (codes "~a%2F") ≡ false
normalize_percent_encoding_absent_example =
    normalize_percent_encoding_absent b'/' (codes "%7ea%2f") (codes "~a%2F") (slash_reserved, refl)
      refl escapes

remove_dot_segments-resolve_example :
    (remove_dot_segments (codes "/a/./b/../c/..") ≡ codes "/a/")
    × HaveNoDots (resolve (segments (codes "a/./b/../c/..")) [])
remove_dot_segments-resolve_example = remove_dot_segments-resolve (codes "a/./b/../c/..")

dot_loop_total_example : dot_loop 8 (codes "../a/./b") [] ≢ none
dot_loop_total_example = dot_loop_total 8 (codes "../a/./b") [] (omega arith)
