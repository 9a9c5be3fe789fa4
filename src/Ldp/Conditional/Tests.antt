-- ===== src/Ldp/Conditional/Tests.antt =====
-- src/ldp/conditional.rs: the theorems at tags of the form that the server mints.
use solid_server_rs.Prelude.{
  ◌≡◌, refl, false, none, some, Str, codes, Any, contains_char, as_bytes, utf8_encode, strip_prefix,
  strip_suffix, is_some, split, split_once, trim, trim_start, trim_end, drop_while, is_whitespace,
  str_eq,
}
use solid_server_rs.Ldp.Conditional.{
  proceed, failed, evaluate, variant_etag, is_wildcard, parse_entity_tag, parse_current, tag_list,
  filter_tags, matches_strong_state, state_part,
}
use solid_server_rs.Ldp.Conditional.Tags.{quoted}
use solid_server_rs.Ldp.Conditional.RoundTrip.{
  IsCurrentState, evaluate-variant_etag, evaluate-proceed,
}
use solid_server_rs.Prelude.{pos, negsuc, ◌↔◌}
use solid_server_rs.Ldp.HttpDate.{
  parse_http_date, parse_fields, two_digits, four_digits, month_from_abbrev, seconds_of,
  days_in_month, days_from_civil, day_name_for,
}
use solid_server_rs.Ldp.Conditional.Read.{evaluate_read, not_modified, system_time_to_unix}
use solid_server_rs.Ldp.Conditional.Read.NotModified.{evaluate_read-not_modified}

evaluate-variant_etag_example :
    (evaluate
        (some (variant_etag (quoted (codes "7-1a2b")) (codes "jsonld")))
        none
        (some (quoted (codes "7-1a2b")))
      ≡ proceed)
    × (evaluate none
          (some (variant_etag (quoted (codes "7-1a2b")) (codes "jsonld")))
          (some (quoted (codes "7-1a2b")))
        ≡ failed)
    × (evaluate
          (some (variant_etag (quoted (codes "7-1a2b")) (codes "jsonld")))
          none
          (some (quoted (codes "9-77")))
        ≡ failed)
    × (evaluate (some (variant_etag (quoted (codes "7-1a2b")) (codes "jsonld"))) none none ≡ failed)
unfolding as_bytes utf8_encode contains_char
evaluate-variant_etag_example =
    evaluate-variant_etag (codes "7-1a2b") (codes "9-77") (codes "jsonld") (refl, refl) (refl, refl)
      refl refl refl (λ e. cc e)

second_of_a_list :
    evaluate (some (codes "W/\"a\", \"b+ttl\"")) none (some (codes "\"b\"")) ≡ proceed
unfolding evaluate is_wildcard parse_entity_tag parse_current tag_list filter_tags
    matches_strong_state state_part as_bytes utf8_encode strip_prefix strip_suffix is_some split
    split_once trim trim_start trim_end drop_while is_whitespace str_eq
second_of_a_list = refl

weak_never_matches : evaluate (some (codes "W/\"b\"")) none (some (codes "\"b\"")) ≡ failed
unfolding evaluate is_wildcard parse_entity_tag parse_current tag_list filter_tags
    matches_strong_state state_part as_bytes utf8_encode strip_prefix strip_suffix is_some split
    split_once trim trim_start trim_end drop_while is_whitespace str_eq
weak_never_matches = refl

concrete : is_wildcard (codes "W/\"a\", \"b+ttl\"") ≡ false
unfolding is_wildcard trim trim_start trim_end drop_while is_whitespace str_eq
concrete = refl

evaluate-proceed_example :
    (cur : Str) × (some (codes "\"b\"") ≡ some cur)
    × Any (IsCurrentState cur) (tag_list (codes "W/\"a\", \"b+ttl\""))
evaluate-proceed_example =
    evaluate-proceed (codes "W/\"a\", \"b+ttl\"") none (some (codes "\"b\"")) concrete
      second_of_a_list

an_http_date : parse_http_date (codes " Sun, 06 Nov 1994 08:49:37 GMT") ≡ some (pos 784111777)
unfolding parse_http_date parse_fields two_digits four_digits month_from_abbrev seconds_of
    days_in_month days_from_civil day_name_for trim trim_start trim_end drop_while is_whitespace
    str_eq
an_http_date = refl

before_the_epoch : parse_http_date (codes "Wed, 31 Dec 1969 23:59:59 GMT") ≡ some (negsuc 0)
unfolding parse_http_date parse_fields two_digits four_digits month_from_abbrev seconds_of
    days_in_month days_from_civil day_name_for trim trim_start trim_end drop_while is_whitespace
    str_eq
before_the_epoch = refl

no_such_day : parse_http_date (codes "Wed, 29 Feb 1995 08:49:37 GMT") ≡ none
unfolding parse_http_date parse_fields two_digits four_digits month_from_abbrev seconds_of
    days_in_month days_from_civil day_name_for trim trim_start trim_end drop_while is_whitespace
    str_eq
no_such_day = refl

unchanged_since :
    evaluate_read none
      (some (codes "Sun, 06 Nov 1994 08:49:37 GMT"))
      (codes "\"b\"")
      (some (pos 784111777999999999))
    ≡ not_modified
unfolding evaluate_read system_time_to_unix parse_http_date parse_fields two_digits four_digits
    month_from_abbrev seconds_of days_in_month days_from_civil day_name_for trim trim_start trim_end
    drop_while is_whitespace str_eq
unchanged_since = refl

evaluate_read-not_modified_example :
    (evaluate_read (some (quoted (codes "7-1a2b"))) none (quoted (codes "7-1a2b+jsonld")) none
      ≡ not_modified)
    ↔ (codes "7-1a2b" ≡ codes "7-1a2b+jsonld")
unfolding as_bytes utf8_encode contains_char
evaluate_read-not_modified_example =
    evaluate_read-not_modified (codes "7-1a2b") (codes "7-1a2b+jsonld") none none (refl, refl) refl
