-- ===== src/Ldp/Patch/N3.antt =====
-- src/ldp/patch.rs: from the quads of an N3 document to a patch. The parser of N3 is a library's: what
-- it says of a base IRI, and the quads or errors that it yields. The parse itself stops at the first
-- error. That the patch declares its type is read and not used.
pub mod Templates
pub mod Vars
use solid_server_rs.Prelude.{
  ℕ, Bool, true, false, Option, none, some, List, [], ◌∷◌, ◌++◌, ◌⊎◌, inl, inr, Str, codes, str_eq,
  any, not, if◌then◌else◌, ◌&&◌,
}
use solid_server_rs.Error.{Result, ok, err, bad_request, unprocessable_patch}
use solid_server_rs.Error.Results.{◌>>=◌, ◌>>◌, guard, collect}
use solid_server_rs.Ldp.Patch.Terms.{PatTerm, term, var, where_blank, PatTriple, N3Patch}
use solid_server_rs.Ldp.Patch.Terms

pub data GraphName : Type 0 where
  default_graph : GraphName
  named_graph blank_graph : Str → GraphName

pub data N3Term (Literal : Type 0) : Type 0 where
  named_node blank_node variable : Str → N3Term Literal
  literal : Literal → N3Term Literal

pub record N3Quad (Literal : Type 0) : Type 0 where
  pub subject : N3Term Literal
  pub predicate : N3Term Literal
  pub object : N3Term Literal
  pub graph_name : GraphName

-- a parser library: the error of a base IRI, and what is read of a document; errors are texts
pub record Parser (Document Item : Type 0) : Type 0 where
  pub base_error : Str → Option Str
  pub items : Str → Document → List (Str ⊎ Item)

unfoldable pub graph_eq : GraphName → GraphName → Bool
graph_eq default_graph default_graph = true
graph_eq (named_graph s) (named_graph t) = str_eq s t
graph_eq (blank_graph s) (blank_graph t) = str_eq s t
graph_eq _ _ = false

pub data FormulaKind : Type 0 where
  where_formula template : FormulaKind

pub data Position : Type 0 where
  subject_position predicate_position object_position : Position

abbrev pub solid : Str → Str
solid local = codes "http://www.w3.org/ns/solid/terms#" ++ local

-- the errors of the library, with the text that the server puts before them
unfoldable pub check_base :
    {Document Item : Type 0} → Parser Document Item → Str → Result (Unit {0})
check_base parser base = elim (parser.base_error base) [
  | none ↦ ok tt
  | some e ↦ err (bad_request (codes "invalid base IRI: " ++ e))
]

abbrev pub item : {Item : Type 0} → Str → Str ⊎ Item → Result Item
item prefix (inl e) = err (unprocessable_patch (prefix ++ e))
item prefix (inr q) = ok q

abbrev pub is_empty {ℓ} : {A : Type ℓ} → List A → Bool
is_empty [] = true
is_empty (x ∷ xs) = false

-- the formulas that the description names: of several the last
pub record Formulas : Type 0 where
  pub inserts : Option GraphName
  pub deletes : Option GraphName
  pub conditions : Option GraphName

-- the first variable that `where` does not have is the one of the message
unfoldable pub check_vars : List Str → List Str → Result (Unit {0})
check_vars known [] = ok tt
check_vars known (v ∷ vs) =
    if any (str_eq v) known
    then check_vars known vs
    else err (
        unprocessable_patch (
          codes "variable ?"
          ++ (v ++ codes " appears in solid:inserts/deletes but not in solid:where")))

module _ {Literal : Type 0} where
  unfoldable pub formula_graph : N3Term Literal → Result GraphName
  formula_graph (blank_node b) = ok (blank_graph b)
  formula_graph (named_node n) = ok (named_graph n)
  formula_graph _ =
      err (unprocessable_patch (codes "solid:inserts/deletes/where object must be a formula"))

  abbrev pub literal_term : Position → Literal → Result (PatTerm Literal)
  literal_term object_position l = ok (term (Terms.literal l))
  literal_term subject_position l =
      err (unprocessable_patch (codes "a patch triple subject cannot be a literal"))
  literal_term predicate_position l =
      err (unprocessable_patch (codes "a patch triple predicate must be an IRI"))

  abbrev pub blank_term : FormulaKind → Position → Str → Result (PatTerm Literal)
  blank_term template pos b =
      err
        (unprocessable_patch (codes "blank nodes are not allowed in solid:inserts / solid:deletes"))
  blank_term where_formula predicate_position b =
      err (unprocessable_patch (codes "a patch triple predicate must be an IRI"))
  blank_term where_formula subject_position b = ok (where_blank b)
  blank_term where_formula object_position b = ok (where_blank b)

  unfoldable pub pat_term : N3Term Literal → FormulaKind → Position → Result (PatTerm Literal)
  pat_term (named_node n) kind pos = ok (term (Terms.named_node n))
  pat_term (literal l) kind pos = literal_term pos l
  pat_term (blank_node b) kind pos = blank_term kind pos b
  pat_term (variable v) kind pos = ok (var v)

  unfoldable pub pattern_triple : FormulaKind → N3Quad Literal → Result (PatTriple Literal)
  unfolding pat_term
  pattern_triple kind q = do
    subject ← pat_term q.subject kind subject_position
    predicate ← pat_term q.predicate kind predicate_position
    object ← pat_term q.object kind object_position
    ok (record { subject = subject; predicate = predicate; object = object })

  unfoldable pub in_graph : GraphName → List (N3Quad Literal) → List (N3Quad Literal)
  unfolding graph_eq
  in_graph g [] = []
  in_graph g (q ∷ qs) =
      let rest = in_graph g qs in if graph_eq q.graph_name g then q ∷ rest else rest

  unfoldable pub pattern_triples :
      List (N3Quad Literal) → FormulaKind → Option GraphName → Result (List (PatTriple Literal))
  unfolding pattern_triple in_graph collect
  pattern_triples quads kind none = ok []
  pattern_triples quads kind (some g) = collect (pattern_triple kind) (in_graph g quads)

  abbrev pub predicate_iri : N3Term Literal → Result Str
  predicate_iri (named_node n) = ok n
  predicate_iri _ = err (unprocessable_patch (codes "patch description predicate must be an IRI"))

  unfoldable pub note_formula : Formulas → N3Quad Literal → Result Formulas
  unfolding formula_graph
  note_formula f q = predicate_iri q.predicate >>= λ iri.
      if str_eq iri (solid (codes "inserts"))
      then (formula_graph q.object >>= λ g. ok (record f { inserts = some g }))
      else if str_eq iri (solid (codes "deletes"))
      then (formula_graph q.object >>= λ g. ok (record f { deletes = some g }))
      else if str_eq iri (solid (codes "where"))
      then (formula_graph q.object >>= λ g. ok (record f { conditions = some g }))
      else ok f

  unfoldable pub read_description : Formulas → List (N3Quad Literal) → Result Formulas
  unfolding note_formula
  read_description f [] = ok f
  read_description f (q ∷ qs) = note_formula f q >>= λ f'. read_description f' qs

  abbrev pub var_of : PatTerm Literal → List Str
  var_of (term t) = []
  var_of (var v) = v ∷ []
  var_of (where_blank label) = []

  unfoldable pub pat_triple_vars : PatTriple Literal → List Str
  pat_triple_vars t = var_of t.subject ++ (var_of t.predicate ++ var_of t.object)

  unfoldable pub collect_vars : List (PatTriple Literal) → List Str
  unfolding pat_triple_vars
  collect_vars [] = []
  collect_vars (t ∷ ts) = pat_triple_vars t ++ collect_vars ts

  unfoldable pub parse_n3_patch :
      Parser (List ℕ) (N3Quad Literal) → List ℕ → Str → Result (N3Patch Literal)
  unfolding check_base read_description pattern_triples collect_vars check_vars collect in_graph
  parse_n3_patch parser body base = do
    check_base parser base
    quads ← collect (item (codes "invalid N3: ")) (parser.items base body)
    f ←
        read_description (record { inserts = none; deletes = none; conditions = none })
          (in_graph default_graph quads)
    conditions ← pattern_triples quads where_formula f.conditions
    deletes ← pattern_triples quads template f.deletes
    inserts ← pattern_triples quads template f.inserts
    guard (not (is_empty deletes && is_empty inserts)) (
        unprocessable_patch
          (codes "an N3 patch must specify at least one of solid:inserts / solid:deletes"))
    check_vars (collect_vars conditions) (collect_vars (deletes ++ inserts))
    ok (record { conditions = conditions; deletes = deletes; inserts = inserts })
