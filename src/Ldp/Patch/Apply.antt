-- ===== src/Ldp/Patch/Apply.antt =====
-- src/ldp/patch.rs: templates under a binding, and the patch of a set of triples.
pub mod Instances
pub mod Sets
pub mod Outcome
pub mod Failure
use solid_server_rs.Prelude.{
  Bool, true, false, Option, none, some, List, [], ◌∷◌, ◌++◌, Str, codes, any, if◌then◌else◌,
}
use solid_server_rs.Collections.{Eq, get, str_key}
use solid_server_rs.Error.{Result, ok, err, conflict, unprocessable_patch}
use solid_server_rs.Error.Results.{◌>>=◌, ◌>>◌, collect}
use solid_server_rs.Ldp.Patch.Terms.{
  NamedOrBlankNode, named, blank, Term, named_node, blank_node, literal, Triple, PatTerm, term, var,
  where_blank, PatTriple, N3Patch, triple_eq,
}
use solid_server_rs.Ldp.Patch.Solve.{Binding, solve_bgp}

module _ {Literal : Type 0} where
  abbrev pub bound : Str → Option (Term Literal) → Result (Term Literal)
  bound v (some t) = ok t
  bound v none = err (
      unprocessable_patch
        (codes "variable ?" ++ (v ++ codes " in a template was not bound by solid:where")))

  unfoldable pub resolve : PatTerm Literal → Binding Literal → Result (Term Literal)
  resolve (term t) b = ok t
  resolve (var v) b = bound v (get v b)
  resolve (where_blank label) b = err (
      unprocessable_patch (
        codes "blank node _:"
        ++ (label ++ codes " unexpectedly reached a template (internal invariant)")))

  -- the subject and the predicate that `instantiate` makes of a resolved term
  abbrev pub as_subject : Term Literal → Result NamedOrBlankNode
  as_subject (named_node n) = ok (named n)
  as_subject (blank_node b) = ok (blank b)
  as_subject (literal l) =
      err (unprocessable_patch (codes "a patch triple subject cannot be a literal"))

  abbrev pub as_predicate : Term Literal → Result Str
  as_predicate (named_node n) = ok n
  as_predicate (blank_node b) =
      err (unprocessable_patch (codes "a patch triple predicate must be an IRI"))
  as_predicate (literal l) =
      err (unprocessable_patch (codes "a patch triple predicate must be an IRI"))

  unfoldable pub instantiate : PatTriple Literal → Binding Literal → Result (Triple Literal)
  unfolding resolve
  instantiate p b = do
    s ← resolve p.subject b
    subject ← as_subject s
    q ← resolve p.predicate b
    predicate ← as_predicate q
    object ← resolve p.object b
    ok (record { subject = subject; predicate = predicate; object = object })

  unfoldable pub instantiate_all :
      List (PatTriple Literal) → Binding Literal → Result (List (Triple Literal))
  unfolding instantiate collect
  instantiate_all template b = collect (λ t. instantiate t b) template

module _ {Literal : Type 0} ⦃same : Eq Literal⦄ where
  -- `triples.contains(t)`
  unfoldable pub contains : List (Triple Literal) → Triple Literal → Bool
  unfolding triple_eq
  contains triples t = any (λ u. triple_eq u t) triples

  -- exactly one solution
  abbrev pub the_solution : List (Binding Literal) → Result (Binding Literal)
  the_solution [] =
      err (conflict (codes "the solid:where clause has no solution against the target graph"))
  the_solution (b ∷ []) = ok b
  the_solution (b ∷ c ∷ rest) =
      err
        (conflict (codes "the solid:where clause has multiple solutions; exactly one is required"))

  unfoldable pub resolve_binding :
      List (PatTriple Literal) → List (Triple Literal) → Result (Binding Literal)
  unfolding solve_bgp
  resolve_binding [] existing = ok []
  resolve_binding (p ∷ ps) existing = the_solution (solve_bgp (p ∷ ps) existing)

  unfoldable pub check_deletes : List (Triple Literal) → List (Triple Literal) → Result (Unit {0})
  unfolding contains
  check_deletes existing [] = ok tt
  check_deletes existing (d ∷ ds) =
      if contains existing d
      then check_deletes existing ds
      else err (conflict (codes "a solid:deletes triple is not present in the resource"))

  abbrev pub push_new : List (Triple Literal) → Triple Literal → List (Triple Literal)
  push_new result t = if contains result t then result else result ++ t ∷ []

  unfoldable pub keep_survivors :
      List (Triple Literal) → List (Triple Literal) → List (Triple Literal) → List (Triple Literal)
  unfolding contains
  keep_survivors deletes [] result = result
  keep_survivors deletes (t ∷ ts) result =
      keep_survivors deletes ts (if contains deletes t then result else push_new result t)

  unfoldable pub add_inserts : List (Triple Literal) → List (Triple Literal) → List (Triple Literal)
  unfolding contains
  add_inserts [] result = result
  add_inserts (i ∷ is) result = add_inserts is (push_new result i)

  unfoldable pub apply_patch :
      List (Triple Literal) → N3Patch Literal → Result (List (Triple Literal))
  unfolding resolve_binding instantiate_all check_deletes keep_survivors add_inserts
  apply_patch existing patch = do
    binding ← resolve_binding patch.conditions existing
    deletes ← instantiate_all patch.deletes binding
    inserts ← instantiate_all patch.inserts binding
    check_deletes existing deletes
    ok (add_inserts inserts (keep_survivors deletes existing []))
