-- ===== src/Ldp/Patch/Solve/Mappings.antt =====
-- src/ldp/patch.rs: the solutions of a graph pattern are the mappings under which it occurs in the
-- graph.
use mathlib.Core.Option.{some-injective}
use solid_server_rs.Prelude.{
  ◌≡◌, refl, sym, ◌∙◌, inl, inr, ◌↔◌, Bool, true, Option, none, some, List, [], ◌∷◌, Str, length,
  all, Any, All, Any-iff, Any-map, All-map, arith, Bool-cases, ◌==◌, str_eq_iff, &&_iff,
}
use solid_server_rs.Collections.{Eq, get, str_key}
use solid_server_rs.Collections.Distinct.{IsDistinct}
use solid_server_rs.Ldp.Patch.Terms.{Term, Triple, PatTriple, term_eq_iff}
use solid_server_rs.Ldp.Patch.Solve.{Binding, map_eq, is_term, solve_bgp}
use solid_server_rs.Ldp.Patch.Solve.Unify.{
  Mapping, value-Extends, value-Names, NamesIn, Matches, Extends, reads, Grows, unify_triple_sound,
  unify_triple_complete,
}
use solid_server_rs.Ldp.Patch.Solve.Search.{Leads, Step, solve_from-Adds, solve_from-Finds}

module _ {Literal : Type 0} where
  -- Under the mapping, every pattern occurs in the graph.
  abbrev pub Solves : Mapping Literal → List (PatTriple Literal) → List (Triple Literal) → Type 0
  Solves m ps graph = All (λ p. Any (λ t. Matches m p t) graph) ps

  abbrev pub IsNamed : Str → List (PatTriple Literal) → Type 0
  IsNamed k ps = Any (λ p. NamesIn k p) ps

  -- one mapping of the names of the patterns, and no other, solves them
  abbrev pub SolvesAlone :
      Mapping Literal → List (PatTriple Literal) → List (Triple Literal) → Type 0
  SolvesAlone m ps graph =
      Solves m ps graph
      × ((n : Mapping Literal) → Solves n ps graph → (k : Str) → IsNamed k ps → n k ≡ m k)

  Matches-Extends :
      (m n : Mapping Literal) (p : PatTriple Literal) (t : Triple Literal)
      → Extends m n
      → Matches m p t
      → Matches n p t
  Matches-Extends m n p t h (s, q, o) = (
    value-Extends m n p.subject _ h s,
    value-Extends m n p.predicate _ h q,
    value-Extends m n p.object _ h o,
  )

  Solves-Extends :
      (m n : Mapping Literal) (ps : List (PatTriple Literal)) (graph : List (Triple Literal))
      → Extends m n
      → Solves m ps graph
      → Solves n ps graph
  Solves-Extends m n ps graph h =
      All-map (λ p. Any-map {Q = λ t. Matches n p t} (λ t. Matches-Extends m n p t h) graph) ps

  NamesIn-bound :
      (m : Mapping Literal) (k : Str) (p : PatTriple Literal) (t : Triple Literal)
      → NamesIn k p
      → Matches m p t
      → (u : Term Literal) × (m k ≡ some u)
  NamesIn-bound m k p t (inl h) (s, q, o) = (_, sym (value-Names m k p.subject h) ∙ s)
  NamesIn-bound m k p t (inr (inl h)) (s, q, o) = (_, sym (value-Names m k p.predicate h) ∙ q)
  NamesIn-bound m k p t (inr (inr h)) (s, q, o) = (_, sym (value-Names m k p.object h) ∙ o)

  -- A solution maps every name.
  pub IsNamed-bound :
      (m : Mapping Literal) (k : Str) (ps : List (PatTriple Literal))
      (graph : List (Triple Literal))
      → IsNamed k ps
      → Solves m ps graph
      → (u : Term Literal) × (m k ≡ some u)
  IsNamed-bound m k [] graph h s = absurd h
  IsNamed-bound m k (p ∷ ps) graph (inl h) (s, rest) =
      let (t, _, found) = (Any-iff (λ t. Matches m p t) graph).0 s in NamesIn-bound m k p t h found
  IsNamed-bound m k (p ∷ ps) graph (inr h) (s, rest) = IsNamed-bound m k ps graph h rest

module _ {Literal : Type 0} ⦃same : Eq Literal⦄ where
  Leads-sound :
      (ps : List (PatTriple Literal)) (graph : List (Triple Literal)) (b o : Binding Literal)
      → Leads ps graph b o
      → Grows b o (λ k. IsNamed k ps) × Solves (reads o) ps graph
  Leads-sound [] graph b o h =
      rw h (record { kept = λ k t e. e; added = λ k t e. inl e; distinct = λ d. d }, tt)
  Leads-sound (p ∷ ps) graph b o h =
      let (t, listed, (b', e, more)) = (Any-iff (λ t. Step (Leads ps graph) p b o t) graph).0 h in
      let (matched, g) = unify_triple_sound p t b b' e in
      let (later, solved) = Leads-sound ps graph b' o more in
      (
        record {
          kept = λ k u a. later.kept k u (g.kept k u a);
          added = λ k u a. elim (later.added k u a) [
            | inr named ↦ inr (inr named)
            | inl old ↦ elim (g.added k u old) [ inl older ↦ inl older | inr n ↦ inr (inl n) ]
          ];
          distinct = λ d. later.distinct (g.distinct d);
        },
        (
          (Any-iff (λ t. Matches (reads o) p t) graph).1
              (t, listed, Matches-Extends (reads b') (reads o) p t later.kept matched),
          solved,
        ),
      )

  Leads-complete :
      (m : Mapping Literal) (ps : List (PatTriple Literal)) (graph : List (Triple Literal))
      (b : Binding Literal)
      → Extends (reads b) m
      → Solves m ps graph
      → (o : Binding Literal) × Leads ps graph b o × Extends (reads o) m
  Leads-complete m [] graph b h s = (b, refl, h)
  Leads-complete m (p ∷ ps) graph b h (s, rest) =
      let (t, listed, matched) = (Any-iff (λ t. Matches m p t) graph).0 s in
      let (b', e, h') = unify_triple_complete m p t b h matched in
      let (o, more, h'') = Leads-complete m ps graph b' h' rest in
      (o, (Any-iff (λ t. Step (Leads ps graph) p b o t) graph).1 (t, listed, (b', e, more)), h'')

  -- a solution that the solver lists
  pub record Answers (ps : List (PatTriple Literal)) (graph : List (Triple Literal))
      (o : Binding Literal) : Type 0 where
    pub solves : Solves (reads o) ps graph
    pub only : (k : Str) (t : Term Literal) → get k o ≡ some t → IsNamed k ps
    pub distinct : IsDistinct o

  pub solve_bgp-Answers :
      (ps : List (PatTriple Literal)) (graph : List (Triple Literal))
      → All (Answers ps graph) (solve_bgp ps graph)
  unfolding solve_bgp get
  solve_bgp-Answers ps graph =
      solve_from-Adds (Answers ps graph) ps graph [] []
        (λ o h.
          let (g, solved) = Leads-sound ps graph [] o h in
          record {
            solves = solved;
            only = λ k t e. elim (g.added k t e) [
              | inl nothing ↦ absurd (cc nothing)
              | inr named ↦ named
            ];
            distinct = g.distinct tt;
          })
        tt

  all-get :
      (test : Str × Term Literal → Bool) (k : Str) (t : Term Literal) (a : Binding Literal)
      → all test a ≡ true
      → get k a ≡ some t
      → test (k, t) ≡ true
  unfolding get
  all-get test k t [] h e = absurd (cc e)
  all-get test k t ((j, u) ∷ a) h e =
      let (first, rest) = (&&_iff (test (j, u)) (all test a)).0 h in
      elim (Bool-cases (str_key.beq j k)) [
        | inr n ↦ all-get test k t a rest (rw n at e)
        | inl y ↦ rw (← (str_eq_iff j k).0 y) (rw (← some-injective u t (rw y at e)) first)
      ]

  pub is_term_lem :
      (o : Option (Term Literal)) (t : Term Literal) → (is_term o t ≡ true) ↔ (o ≡ some t)
  is_term_lem none t = ground arith
  is_term_lem (some u) t = ground (arith, term_eq_iff u t)

  pub map_eq-Extends : (a b : Binding Literal) → map_eq a b ≡ true → Extends (reads a) (reads b)
  unfolding map_eq
  map_eq-Extends a b h k t e = (is_term_lem (get k b) t).0 (
      all-get (λ x. is_term (get x.0 b) x.1) k t a
        ((&&_iff (length a == length b) (all (λ x. is_term (get x.0 b) x.1) a)).0 h).1 e)

  -- Every mapping that solves the patterns extends a solution that is listed.
  pub solve_bgp_complete :
      (m : Mapping Literal) (ps : List (PatTriple Literal)) (graph : List (Triple Literal))
      → Solves m ps graph
      → Any (λ o. Extends (reads o) m) (solve_bgp ps graph)
  unfolding solve_bgp get
  solve_bgp_complete m ps graph s =
      let (o, leads, h) = Leads-complete m ps graph [] (λ k t e. absurd (cc e)) s in
      solve_from-Finds (λ x. Extends (reads x) m) o h
        (λ x e k t found. h k t (map_eq-Extends x o e k t found)) ps graph [] [] leads
