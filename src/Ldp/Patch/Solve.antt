-- ===== src/Ldp/Patch/Solve.antt =====
-- src/ldp/patch.rs: the solver of basic graph patterns. A binding is a hash map; the two solutions of
-- which one is dropped are equal as maps.
pub mod Unify
pub mod Search
pub mod Mappings
pub mod Unique
use solid_server_rs.Prelude.{
  Bool, true, false, ◌&&◌, Option, none, some, List, [], ◌∷◌, ◌++◌, Str, length, any, all, ◌==◌,
  if◌then◌else◌,
}
use solid_server_rs.Collections.{Eq, HashMap, get, insert, str_key}
use solid_server_rs.Ldp.Patch.Terms.{
  Term, named_node, Triple, PatTerm, term, var, where_blank, PatTriple, term_eq, subject_as_term,
  binding_key,
}

abbrev pub Binding : Type 0 → Type 0
Binding Literal = HashMap Str (Term Literal)

-- `o?` and then `f`
infixl 5 ◌>>=◌
abbrev pub ◌>>=◌ : {A B : Type 0} → Option A → (A → Option B) → Option B
none >>= f = none
some a >>= f = f a

module _ {Literal : Type 0} ⦃same : Eq Literal⦄ where
  abbrev pub is_term : Option (Term Literal) → Term Literal → Bool
  is_term none t = false
  is_term (some u) t = term_eq u t

  -- what `unify_term` does with what the binding holds for the key
  abbrev pub bind :
      Option (Term Literal) → Str → Term Literal → Binding Literal → Option (Binding Literal)
  bind (some already) key concrete b = if term_eq already concrete then some b else none
  bind none key concrete b = some (insert key concrete b)

  unfoldable pub unify_term :
      PatTerm Literal → Term Literal → Binding Literal → Option (Binding Literal)
  unfolding binding_key
  unify_term (term expected) concrete b = if term_eq expected concrete then some b else none
  unify_term (var v) concrete b =
      let key = binding_key {Literal = Literal} (var v) in bind (get key b) key concrete b
  unify_term (where_blank label) concrete b =
      let key = binding_key {Literal = Literal} (where_blank label) in
      bind (get key b) key concrete b

  unfoldable pub unify_triple :
      PatTriple Literal → Triple Literal → Binding Literal → Option (Binding Literal)
  unfolding unify_term subject_as_term
  unify_triple p t b = do
    b1 ← unify_term p.subject (subject_as_term t.subject) b
    b2 ← unify_term p.predicate (named_node t.predicate) b1
    unify_term p.object t.object b2

  -- `==` on hash maps
  unfoldable pub map_eq : Binding Literal → Binding Literal → Bool
  map_eq a b = length a == length b && all (λ e. is_term (get e.0 b) e.1) a

  -- a complete mapping is added once
  unfoldable pub push_distinct : List (Binding Literal) → Binding Literal → List (Binding Literal)
  unfolding map_eq
  push_distinct out b = if any (λ o. map_eq o b) out then out else out ++ b ∷ []

  -- `solve_from`, its loop over the graph as a fold with the rest of the patterns as `next`
  abbrev pub continue_with :
      Option (Binding Literal)
      → (Binding Literal → List (Binding Literal) → List (Binding Literal))
      → List (Binding Literal)
      → List (Binding Literal)
  continue_with none next out = out
  continue_with (some extended) next out = next extended out

  unfoldable pub scan :
      (Binding Literal → List (Binding Literal) → List (Binding Literal))
      → PatTriple Literal
      → Binding Literal
      → List (Triple Literal)
      → List (Binding Literal)
      → List (Binding Literal)
  unfolding unify_triple
  scan next p b [] out = out
  scan next p b (t ∷ ts) out = scan next p b ts (continue_with (unify_triple p t b) next out)

  unfoldable pub solve_from :
      List (PatTriple Literal)
      → List (Triple Literal)
      → Binding Literal
      → List (Binding Literal)
      → List (Binding Literal)
  unfolding scan push_distinct
  solve_from [] graph b out = push_distinct out b
  solve_from (p ∷ ps) graph b out = scan (solve_from ps graph) p b graph out

  unfoldable pub solve_bgp :
      List (PatTriple Literal) → List (Triple Literal) → List (Binding Literal)
  unfolding solve_from
  solve_bgp patterns graph = solve_from patterns graph [] []
