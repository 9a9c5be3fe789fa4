-- ===== src/Ldp/Conditional/Read.antt =====
-- src/ldp/conditional.rs: the preconditions of a request that reads. A `SystemTime` is its nanoseconds
-- since 1970.
pub mod NotModified
use solid_server_rs.Prelude.{
  ℕ, ◌/◌, Bool, true, false, Option, none, some, Str, any, ℤ, pos, negsuc, is_at_most,
  if◌then◌else◌,
}
use solid_server_rs.Ldp.HttpDate.{parse_http_date}
use solid_server_rs.Ldp.Conditional.{is_wildcard, matches_weak, tag_list}

pub data ReadPrecondition : Type 0 where
  proceed_read not_modified : ReadPrecondition

unfoldable pub system_time_to_unix : ℤ → Option ℤ
system_time_to_unix (pos ns) = some (pos (ns / 1000000000))
system_time_to_unix (negsuc ns) = none

abbrev outcome : Bool → ReadPrecondition
outcome true = not_modified
outcome false = proceed_read

abbrev none_match_hit : Str → Str → Bool
none_match_hit inm current_etag =
    if is_wildcard inm then true else any (λ t. matches_weak t current_etag) (tag_list inm)

abbrev pub not_later : Option ℤ → Option ℤ → Bool
not_later (some lm_secs) (some ims_secs) = is_at_most lm_secs ims_secs
not_later _ _ = false

abbrev since : Option Str → Option ℤ → Bool
since (some ims) (some lm) = not_later (system_time_to_unix lm) (parse_http_date ims)
since _ _ = false

unfoldable pub evaluate_read : Option Str → Option Str → Str → Option ℤ → ReadPrecondition
unfolding system_time_to_unix
evaluate_read (some inm) if_modified_since current_etag last_modified =
    outcome (none_match_hit inm current_etag)
evaluate_read none if_modified_since current_etag last_modified =
    outcome (since if_modified_since last_modified)
