-- ===== src/Ldp/Target.antt =====
-- src/ldp/target.rs: from the path of a request to the IRI of a resource.
pub mod Segments
use solid_server_rs.Prelude.{
  ℕ, Bool, true, false, not, ◌||◌, Option, none, some, List, [], ◌∷◌, ◌++◌, Str, codes, str_eq,
  split, starts_with, ends_with, until, trim_start_matches, trim_end_matches, if◌then◌else◌, ◌==◌,
}
use solid_server_rs.Error.{Result, ok, err, ServerError, bad_request, not_found}
use solid_server_rs.Identity.{is_reserved_identity_path}

pub record LdpTarget : Type 0 where
  pub iri : Str
  pub htu : Str
  pub is_container : Bool

abbrev pub is_empty : Str → Bool
is_empty [] = true
is_empty (_ ∷ _) = false

-- the loop over the segments: the first one that is refused, if any
unfoldable pub check_segments : List Str → Option ServerError
check_segments [] = none
check_segments (seg ∷ segs) =
    let rest = check_segments segs in
    if is_empty seg
    then some (bad_request (codes "empty path segment rejected"))
    else if str_eq seg (codes "..") || str_eq seg (codes ".")
    then some (bad_request (codes "path traversal rejected"))
    else rest

abbrev pub starts_query : ℕ → Bool
starts_query c = c == b'?' || c == b'#'

abbrev result_of : Option ServerError → LdpTarget → Result LdpTarget
result_of none t = ok t
result_of (some e) t = err e

unfoldable pub parse_target : Str → Str → Result LdpTarget
unfolding check_segments
parse_target base_url path =
    let base = trim_end_matches b'/' base_url in
    let path_only = until starts_query path in
    let trimmed = trim_end_matches b'/' (trim_start_matches b'/' path_only) in
    let iri = base ++ path_only in
    let refused = if not (is_empty trimmed) then check_segments (split b'/' trimmed) else none in
    let target : LdpTarget = record {
      iri = iri;
      htu = iri;
      is_container = ends_with path_only (codes "/");
    } in
    if is_empty base
    then err (bad_request (codes "empty base url"))
    else if not (starts_with path_only (codes "/"))
    then err (bad_request (codes "path must be absolute"))
    else if is_reserved_identity_path path_only
    then err not_found
    else result_of refused target
