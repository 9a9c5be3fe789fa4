-- ===== src/Ldp/Patch/Request.antt =====
-- src/ldp/patch.rs: the language of a patch by its content type, and what becomes of a parsed patch.
use solid_server_rs.Prelude.{
  ℕ, ◌≡◌, ◌⊎◌, inl, inr, Option, none, some, List, [], ◌∷◌, Str, codes, str_eq, split, trim,
  to_ascii_lowercase, if◌then◌else◌,
}
use solid_server_rs.Collections.{Eq}
use solid_server_rs.Error.{ServerError, Result, ok, err, bad_request, unsupported_media_type}
use solid_server_rs.Ldp.Patch.Terms.{Triple, N3Patch}
use solid_server_rs.Ldp.Patch.Solve.Unify.{Mapping}
use solid_server_rs.Ldp.Patch.Solve.Mappings.{SolvesAlone}
use solid_server_rs.Ldp.Patch.Apply.{apply_patch}
use solid_server_rs.Ldp.Patch.Apply.Outcome.{IsWellFormed}
use solid_server_rs.Ldp.Patch.Apply.Failure.{
  IsConflict, LacksDelete, HasIllKinded, apply_patch-refused,
}
use solid_server_rs.Ldp.Patch.N3.{Parser, N3Quad, parse_n3_patch}
use solid_server_rs.Ldp.Patch.N3.Templates.{parse_n3_patch-IsWellFormed}
use solid_server_rs.Ldp.Patch.Sparql.{parse_sparql_update}
use solid_server_rs.Ldp.Patch.Sparql.Ground.{parse_sparql_update-IsWellFormed}

pub data PatchKind : Type 0 where
  n3 sparql_update : PatchKind

abbrev first_part : List Str → Str
first_part [] = []
first_part (p ∷ ps) = p

unfoldable pub classify_patch_media_type : Option Str → Result PatchKind
classify_patch_media_type none = err (bad_request (codes "missing PATCH content-type"))
classify_patch_media_type (some raw) =
    let essence = to_ascii_lowercase (trim (first_part (split b';' raw))) in
    if str_eq essence (codes "text/n3")
    then ok n3
    else if str_eq essence (codes "application/sparql-update")
    then ok sparql_update
    else err (unsupported_media_type essence)

module _ {Literal : Type 0} ⦃same : Eq Literal⦄ where
  IsWellFormed-of_parsed :
      (n3_parser : Parser (List ℕ) (N3Quad Literal)) (turtle : Parser Str (Triple Literal))
      (body : List ℕ) (base : Str) (patch : N3Patch Literal)
      → (parse_n3_patch n3_parser body base ≡ ok patch)
        ⊎ (parse_sparql_update turtle body base ≡ some (ok patch))
      → IsWellFormed patch
  IsWellFormed-of_parsed n3_parser turtle body base patch (inl h) =
      (parse_n3_patch-IsWellFormed n3_parser body base patch h).0
  IsWellFormed-of_parsed n3_parser turtle body base patch (inr h) =
      (parse_sparql_update-IsWellFormed turtle base body patch h).3

  -- A patch that either parser accepts and that is then refused is refused with 409, where its
  -- conditions do not have exactly one solution or where, under the one solution, a triple to delete is
  -- not in the graph, or with 422, where under the one solution a pattern of its deletes or inserts has
  -- a literal as its subject or a predicate that is no IRI, and the message says which of the two. The
  -- errors of an unbound variable and of a blank node in a template never occur.
  pub parsed_patch-refused :
      (n3_parser : Parser (List ℕ) (N3Quad Literal)) (turtle : Parser Str (Triple Literal))
      (body : List ℕ) (base : Str) (patch : N3Patch Literal) (existing : List (Triple Literal))
      (e : ServerError)
      → (parse_n3_patch n3_parser body base ≡ ok patch)
        ⊎ (parse_sparql_update turtle body base ≡ some (ok patch))
      → apply_patch existing patch ≡ err e
      → (IsConflict e
          × (¬ ((m : Mapping Literal) × SolvesAlone m patch.conditions existing)
              ⊎ LacksDelete existing patch))
        ⊎ HasIllKinded e existing patch
  parsed_patch-refused n3_parser turtle body base patch existing e parsed h =
      apply_patch-refused existing patch e
        (IsWellFormed-of_parsed n3_parser turtle body base patch parsed) h
