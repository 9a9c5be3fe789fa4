-- ===== src/Ldp/Tests.antt =====
-- src/ldp: runs on concrete requests, and the theorems at inputs that meet their hypotheses.
use solid_server_rs.Prelude.{
  ◌+◌, ◌<◌, ◌≤◌, ◌≡◌, refl, ◌↔◌, some, [], ◌∷◌, ◌++◌, codes, strip_prefix, contains_char,
  split_once, trim, trim_start, trim_end, drop_while, is_whitespace, parse_u64, parse_digits, arith,
}
use solid_server_rs.Ldp.Range.{full, satisfied, evaluate, select}
use solid_server_rs.Ldp.Range.Positions.{Serves, evaluate-bounds, evaluate-positions}
use solid_server_rs.Prelude.{
  true, split, split_once, until, starts_with, ends_with, trim_end_matches, trim_start_matches,
  strip_suffix, is_some, str_eq, eq_ignore_ascii_case, to_ascii_lowercase, lower, from_utf8_lossy,
  as_bytes, utf8_encode,
}
use solid_server_rs.Error.{ok}
use solid_server_rs.Identity.{
  is_reserved_identity_path, first_segment_is_reserved, percent_decode_lossy, percent_decode_bytes,
  escape, hex,
}
use solid_server_rs.Ldp.Target.{LdpTarget, parse_target, check_segments}
use solid_server_rs.Ldp.Target.Segments.{IsAccepted, parse_target-IsAccepted}

suffix_is_clamped : evaluate (some (codes "bytes=-500")) 100 ≡ satisfied 0 99
unfolding evaluate strip_prefix trim trim_start trim_end drop_while is_whitespace contains_char
    split_once parse_u64 parse_digits select
suffix_is_clamped = refl

end_is_clamped : evaluate (some (codes " bytes=10-500")) 100 ≡ satisfied 10 99
unfolding evaluate strip_prefix trim trim_start trim_end drop_while is_whitespace contains_char
    split_once parse_u64 parse_digits select
end_is_clamped = refl

two_ranges_are_ignored : evaluate (some (codes "bytes=0-1,5-9")) 100 ≡ full
unfolding evaluate strip_prefix trim trim_start trim_end drop_while is_whitespace contains_char
    split_once parse_u64 parse_digits select
two_ranges_are_ignored = refl

evaluate-bounds_example : (10 ≤ 99) × (99 < 100)
evaluate-bounds_example = evaluate-bounds (some (codes " bytes=10-500")) 100 10 99 end_is_clamped

evaluate-positions_example :
    (Serves 100 (evaluate (some (codes "bytes=" ++ codes "10" ++ b'-' ∷ codes "20")) 100) 15
      ↔ ((10 ≤ 15) × (15 ≤ 20) × (15 < 100)))
    × (Serves 100 (evaluate (some (codes "bytes=" ++ codes "10" ++ b'-' ∷ [])) 100) 15
        ↔ ((10 ≤ 15) × (15 < 100)))
    × (Serves 100 (evaluate (some (codes "bytes=" ++ [] ++ b'-' ∷ codes "20")) 100) 15
        ↔ ((15 < 100) × (100 ≤ 15 + 20)))
unfolding parse_u64 parse_digits
evaluate-positions_example =
    evaluate-positions (codes "10") (codes "20") 100 10 20 15 refl refl refl refl (omega arith)

abbrev accepted : LdpTarget
accepted = record {
  iri = codes "https://pod.example/a/";
  htu = codes "https://pod.example/a/";
  is_container = true;
}

query_is_cut : parse_target (codes "https://pod.example/") (codes "/a/?x=..") ≡ ok accepted
unfolding parse_target trim_end_matches trim_start_matches drop_while until starts_with ends_with
    strip_prefix strip_suffix is_some split str_eq check_segments is_reserved_identity_path
    first_segment_is_reserved percent_decode_lossy percent_decode_bytes escape hex
    eq_ignore_ascii_case to_ascii_lowercase lower from_utf8_lossy as_bytes utf8_encode
query_is_cut = refl

-- Empty segments at the ends are trimmed away before the loop that refuses empty segments.
outer_slashes_pass :
    parse_target (codes "b") (codes "//a//")
    ≡ ok (record { iri = codes "b//a//"; htu = codes "b//a//"; is_container = true })
unfolding parse_target trim_end_matches trim_start_matches drop_while until starts_with ends_with
    strip_prefix strip_suffix is_some split str_eq check_segments is_reserved_identity_path
    first_segment_is_reserved percent_decode_lossy percent_decode_bytes escape hex
    eq_ignore_ascii_case to_ascii_lowercase lower from_utf8_lossy as_bytes utf8_encode
outer_slashes_pass = refl

parse_target-IsAccepted_example :
    IsAccepted (codes "https://pod.example/") (codes "/a/?x=..") accepted
parse_target-IsAccepted_example =
    parse_target-IsAccepted (codes "https://pod.example/") (codes "/a/?x=..") accepted query_is_cut
