-- ===== src/Ldp/Content.antt =====
-- src/ldp/content.rs: the format of an RDF document.
use solid_server_rs.Prelude.{
  Option, none, some, List, [], ◌∷◌, Str, codes, str_eq, split, trim, to_ascii_lowercase,
  if◌then◌else◌,
}
use solid_server_rs.Error.{Result, ok, err, unsupported_media_type}

pub data RdfFormat : Type 0 where
  turtle json_ld : RdfFormat

abbrev first_part : List Str → Str
first_part [] = []
first_part (p ∷ ps) = p

unfoldable pub classify : Option Str → Result RdfFormat
classify none = err (unsupported_media_type (codes "missing"))
classify (some raw) =
    let essence = to_ascii_lowercase (trim (first_part (split b';' raw))) in
    if str_eq essence (codes "text/turtle")
    then ok turtle
    else if str_eq essence (codes "application/ld+json")
    then ok json_ld
    else err (unsupported_media_type essence)
