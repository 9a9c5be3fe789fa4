-- ===== src/Ldp/Patch/Tests.antt =====
-- src/ldp/patch.rs on concrete documents, and the theorems at them. Literals are numbers here.
use solid_server_rs.Prelude.{
  ℕ, ◌≡◌, refl, ◌⊎◌, inl, inr, ◌↔◌, none, some, List, [], ◌∷◌, Str, codes, str_eq, trim, trim_start,
  trim_end, to_ascii_lowercase, lower, drop_while, is_whitespace, as_bytes, split,
}
use solid_server_rs.Collections.{nat_key, str_key, get, insert, remove}
use solid_server_rs.Error.{Result, ok, err, conflict, unsupported_media_type, unprocessable_patch}
use solid_server_rs.Error.Results.{collect}
use solid_server_rs.Ldp.Patch.Terms
use solid_server_rs.Ldp.Patch.Terms.{
  NamedOrBlankNode, Term, Triple, PatTerm, term, var, where_blank, PatTriple, N3Patch, term_eq,
  node_eq, triple_eq, subject_as_term, binding_key,
}
use solid_server_rs.Ldp.Patch.Solve.{
  Binding, unify_term, unify_triple, map_eq, push_distinct, scan, solve_from, solve_bgp,
}
use solid_server_rs.Ldp.Patch.Solve.Unify.{Mapping}
use solid_server_rs.Ldp.Patch.Solve.Mappings.{SolvesAlone}
use solid_server_rs.Ldp.Patch.Solve.Unique.{solve_bgp-one_iff}
use solid_server_rs.Ldp.Patch.Apply.{
  resolve, instantiate, instantiate_all, contains, resolve_binding, check_deletes, keep_survivors,
  add_inserts, apply_patch,
}
use solid_server_rs.Ldp.Patch.Apply.Outcome.{
  Applies, IsWellFormed, apply_patch-Applies, apply_patch_iff,
}
use solid_server_rs.Ldp.Patch.Apply.Failure.{IsConflict, LacksDelete, HasIllKinded}
use solid_server_rs.Ldp.Patch.Apply.Sets.{In, IsUnique}
use solid_server_rs.Ldp.Patch.N3
use solid_server_rs.Ldp.Patch.N3.{
  Parser, N3Quad, GraphName, default_graph, blank_graph, parse_n3_patch, check_base, graph_eq,
  formula_graph, pat_term, pattern_triple, in_graph, pattern_triples, note_formula,
  read_description, pat_triple_vars, collect_vars, check_vars, solid,
}
use solid_server_rs.Ldp.Patch.N3.Templates.{parse_n3_patch-IsWellFormed}
use solid_server_rs.Ldp.Patch.Sparql.{parse_sparql_update}
use solid_server_rs.Ldp.Patch.Sparql.Total.{parse_sparql_update-total}
use solid_server_rs.Ldp.Patch.Request.{classify_patch_media_type, parsed_patch-refused}

abbrev alice : Str
alice = codes "https://pod.example/alice#me"

abbrev name : Str
name = codes "http://xmlns.com/foaf/0.1/name"

abbrev old_triple : Triple ℕ
old_triple = record {
  subject = NamedOrBlankNode.named alice;
  predicate = name;
  object = Terms.literal 1;
}

abbrev new_triple : Triple ℕ
new_triple = record {
  subject = NamedOrBlankNode.named alice;
  predicate = name;
  object = Terms.literal 2;
}

-- ?s foaf:name 1 is replaced by ?s foaf:name 2
abbrev pattern_of : ℕ → PatTriple ℕ
pattern_of n = record {
  subject = var (codes "s");
  predicate = term (Terms.named_node name);
  object = term (Terms.literal n);
}

abbrev rename : N3Patch ℕ
rename = record {
  conditions = pattern_of 1 ∷ [];
  deletes = pattern_of 1 ∷ [];
  inserts = pattern_of 2 ∷ [];
}

rename_is_applied : apply_patch (old_triple ∷ []) rename ≡ ok (new_triple ∷ [])
unfolding apply_patch resolve_binding solve_bgp solve_from scan unify_triple unify_term
    subject_as_term binding_key push_distinct map_eq instantiate_all collect instantiate resolve
    check_deletes contains keep_survivors add_inserts triple_eq node_eq term_eq str_eq get insert
    remove
rename_is_applied = refl

-- The condition holds no longer.
rename_again_is_refused :
    apply_patch (new_triple ∷ []) rename
    ≡ err (conflict (codes "the solid:where clause has no solution against the target graph"))
unfolding apply_patch resolve_binding solve_bgp solve_from scan unify_triple unify_term
    subject_as_term binding_key push_distinct map_eq term_eq str_eq get insert remove
rename_again_is_refused = refl

-- ?s foaf:name ?o, and ?o foaf:name 2 is to be inserted: the subject becomes a literal.
abbrev of_object : N3Patch ℕ
of_object = record {
  conditions =
      record {
        subject = var (codes "s");
        predicate = term (Terms.named_node name);
        object = var (codes "o");
      }
      ∷ [];
  deletes = [];
  inserts = record (pattern_of 2) { subject = var (codes "o") } ∷ [];
}

literal_subject_is_refused :
    apply_patch (old_triple ∷ []) of_object
    ≡ err (unprocessable_patch (codes "a patch triple subject cannot be a literal"))
unfolding apply_patch resolve_binding solve_bgp solve_from scan unify_triple unify_term
    subject_as_term binding_key push_distinct map_eq instantiate_all collect instantiate resolve
    term_eq str_eq get insert remove
literal_subject_is_refused = refl

unsupported_patch :
    classify_patch_media_type (some (codes " Text/Turtle ; charset=utf-8"))
    ≡ err (unsupported_media_type (codes "text/turtle"))
unfolding classify_patch_media_type split trim trim_start trim_end drop_while is_whitespace
    to_ascii_lowercase lower str_eq
unsupported_patch = refl

-- the document of the patch above: the formulas are the graphs w, d and i
abbrev quad : N3.N3Term ℕ → Str → N3.N3Term ℕ → GraphName → N3Quad ℕ
quad s p o g = record { subject = s; predicate = N3.named_node p; object = o; graph_name = g }

abbrev description : Str → Str → Str ⊎ N3Quad ℕ
description local graph =
    inr (quad (N3.blank_node (codes "p")) (solid local) (N3.blank_node graph) default_graph)

abbrev in_formula : ℕ → Str → Str ⊎ N3Quad ℕ
in_formula n graph = inr (quad (N3.variable (codes "s")) name (N3.literal n) (blank_graph graph))

abbrev n3_parser : Parser (List ℕ) (N3Quad ℕ)
n3_parser = record {
  base_error = λ base. none;
  items = λ base body.
      description (codes "where") (codes "w")
      ∷ description (codes "deletes") (codes "d")
      ∷ description (codes "inserts") (codes "i")
      ∷ in_formula 1 (codes "w")
      ∷ in_formula 1 (codes "d")
      ∷ in_formula 2 (codes "i")
      ∷ [];
}

rename_is_parsed : parse_n3_patch n3_parser [] alice ≡ ok rename
unfolding parse_n3_patch check_base collect in_graph graph_eq read_description note_formula
    formula_graph str_eq pattern_triples pattern_triple pat_term collect_vars pat_triple_vars
    check_vars
rename_is_parsed = refl

-- a parser that reads every group as one triple
abbrev turtle : Parser Str (Triple ℕ)
turtle = record { base_error = λ base. none; items = λ base text. inr old_triple ∷ [] }

abbrev ground_pattern : PatTriple ℕ
ground_pattern = record {
  subject = term (Terms.named_node alice);
  predicate = term (Terms.named_node name);
  object = term (Terms.literal 1);
}

solve_bgp-one_iff_example :
    ((b : Binding ℕ) × (solve_bgp (pattern_of 1 ∷ []) (old_triple ∷ []) ≡ b ∷ []))
    ↔ ((m : Mapping ℕ) × SolvesAlone m (pattern_of 1 ∷ []) (old_triple ∷ []))
solve_bgp-one_iff_example = solve_bgp-one_iff (pattern_of 1 ∷ []) (old_triple ∷ [])

apply_patch-Applies_example :
    (m : Mapping ℕ) × (deletes : List (Triple ℕ)) × (inserts : List (Triple ℕ)) × Applies
      (old_triple ∷ [])
      rename
      m
      deletes
      inserts
    × ((t : Triple ℕ)
        → In t (new_triple ∷ []) ↔ ((In t (old_triple ∷ []) × ¬ In t deletes) ⊎ In t inserts))
    × IsUnique (new_triple ∷ [])
apply_patch-Applies_example =
    apply_patch-Applies (old_triple ∷ []) rename (new_triple ∷ []) rename_is_applied

rename-IsWellFormed : IsWellFormed rename
rename-IsWellFormed = (parse_n3_patch-IsWellFormed n3_parser [] alice rename rename_is_parsed).0

apply_patch_iff_example :
    ((result : List (Triple ℕ)) × (apply_patch (old_triple ∷ []) rename ≡ ok result)) ↔ (
      (m : Mapping ℕ) × (deletes : List (Triple ℕ)) × (inserts : List (Triple ℕ)) × Applies
        (old_triple ∷ [])
        rename
        m
        deletes
        inserts)
apply_patch_iff_example = apply_patch_iff (old_triple ∷ []) rename rename-IsWellFormed

parsed_patch-refused_example :
    (IsConflict (conflict (codes "the solid:where clause has no solution against the target graph"))
      × (¬ ((m : Mapping ℕ) × SolvesAlone m rename.conditions (new_triple ∷ []))
          ⊎ LacksDelete (new_triple ∷ []) rename))
    ⊎ HasIllKinded
        (conflict (codes "the solid:where clause has no solution against the target graph"))
        (new_triple ∷ [])
        rename
parsed_patch-refused_example =
    parsed_patch-refused n3_parser turtle [] alice rename (new_triple ∷ [])
      (conflict (codes "the solid:where clause has no solution against the target graph"))
      (inl rename_is_parsed) rename_again_is_refused

parse_sparql_update-total_example :
    (r : Result (N3Patch ℕ)) × (parse_sparql_update turtle (as_bytes (codes "INSERT DATA {}")) alice
      ≡ some r)
parse_sparql_update-total_example =
    parse_sparql_update-total turtle alice (as_bytes (codes "INSERT DATA {}"))
