-- ===== src/Ldp/Patch/N3/Templates.antt =====
-- src/ldp/patch.rs: a parsed N3 patch is well-formed.
use solid_server_rs.Prelude.{
  ◌≡◌, ◌≢◌, ◌⊎◌, inl, inr, true, not, ◌&&◌, Option, none, some, List, [], ◌∷◌, Str, ℕ, All, codes,
  ◌++◌,
}
use solid_server_rs.Error.{ok, unprocessable_patch}
use solid_server_rs.Error.Results.{
  >>=-eq-ok, guard, guard-eq-ok, collect, collect-All, ok-injective,
}
use solid_server_rs.Ldp.Patch.Terms.{PatTerm, PatTriple, N3Patch}
use solid_server_rs.Ldp.Patch.Apply.Instances.{NotBlank, IsTemplate}
use solid_server_rs.Ldp.Patch.Apply.Outcome.{IsWellFormed}
use solid_server_rs.Ldp.Patch.N3
use solid_server_rs.Ldp.Patch.N3.{
  N3Term, N3Quad, Parser, GraphName, default_graph, where_formula, template, Position,
  subject_position, predicate_position, object_position, check_base, item, pat_term, pattern_triple,
  in_graph, pattern_triples, read_description, collect_vars, check_vars, is_empty, parse_n3_patch,
}
use solid_server_rs.Ldp.Patch.N3.Vars.{
  check_vars-In, collect_vars-IsNamed, NamesIn-collect_vars, collect_vars-append,
}

module _ {Literal : Type 0} where
  pat_term-NotBlank :
      (t : N3Term Literal) (pos : Position) (p : PatTerm Literal)
      → pat_term t template pos ≡ ok p
      → NotBlank p
  unfolding pat_term
  pat_term-NotBlank (N3.named_node n) pos (PatTerm.where_blank l) h = absurd (cc h)
  pat_term-NotBlank (N3.variable v) pos (PatTerm.where_blank l) h = absurd (cc h)
  pat_term-NotBlank (N3.blank_node b) pos p h = absurd (cc h)
  pat_term-NotBlank (N3.literal l) object_position (PatTerm.where_blank l') h = absurd (cc h)
  pat_term-NotBlank (N3.literal l) subject_position p h = absurd (cc h)
  pat_term-NotBlank (N3.literal l) predicate_position p h = absurd (cc h)
  pat_term-NotBlank (N3.named_node n) pos (PatTerm.term t) h = tt
  pat_term-NotBlank (N3.named_node n) pos (PatTerm.var t) h = tt
  pat_term-NotBlank (N3.variable v) pos (PatTerm.term t) h = tt
  pat_term-NotBlank (N3.variable v) pos (PatTerm.var t) h = tt
  pat_term-NotBlank (N3.literal l) object_position (PatTerm.term t) h = tt
  pat_term-NotBlank (N3.literal l) object_position (PatTerm.var t) h = tt

  pattern_triple-IsTemplate :
      (q : N3Quad Literal) (p : PatTriple Literal) → pattern_triple template q ≡ ok p → IsTemplate p
  unfolding pattern_triple
  pattern_triple-IsTemplate q p h =
      let (s, es, h1) = >>=-eq-ok (pat_term q.subject template subject_position) _ h in
      let (r, er, h2) = >>=-eq-ok (pat_term q.predicate template predicate_position) _ h1 in
      let (o, eo, h3) = >>=-eq-ok (pat_term q.object template object_position) _ h2 in
      rw (← ok-injective _ p h3) (
        pat_term-NotBlank q.subject subject_position s es,
        pat_term-NotBlank q.predicate predicate_position r er,
        pat_term-NotBlank q.object object_position o eo,
      )

  pattern_triples-IsTemplate :
      (quads : List (N3Quad Literal)) (g : Option GraphName) (ps : List (PatTriple Literal))
      → pattern_triples quads template g ≡ ok ps
      → All IsTemplate ps
  unfolding pattern_triples
  pattern_triples-IsTemplate quads none [] h = tt
  pattern_triples-IsTemplate quads none (p ∷ ps) h = absurd (cc h)
  pattern_triples-IsTemplate quads (some g) ps h =
      collect-All IsTemplate (pattern_triple template) pattern_triple-IsTemplate (in_graph g quads)
        ps h

  some_template :
      (deletes inserts : List (PatTriple Literal))
      → not (is_empty deletes && is_empty inserts) ≡ true
      → (deletes ≢ []) ⊎ (inserts ≢ [])
  some_template [] [] h = absurd (cc h)
  some_template [] (i ∷ is) h = inr (λ e. cc e)
  some_template (d ∷ ds) inserts h = inl (λ e. cc e)

  -- A patch that is parsed has a triple to delete or to insert; its templates hold no blank nodes, and
  -- only variables that its conditions hold.
  pub parse_n3_patch-IsWellFormed :
      (parser : Parser (List ℕ) (N3Quad Literal)) (body : List ℕ) (base : Str)
      (patch : N3Patch Literal)
      → parse_n3_patch parser body base ≡ ok patch
      → IsWellFormed patch × ((patch.deletes ≢ []) ⊎ (patch.inserts ≢ []))
  unfolding parse_n3_patch
  parse_n3_patch-IsWellFormed parser body base patch h =
      let (_, _, h1) = >>=-eq-ok (check_base parser base) _ h in
      let (quads, _, h2) =
        >>=-eq-ok (collect (item (codes "invalid N3: ")) (parser.items base body)) _ h1 in
      let (f, _, h3) =
        >>=-eq-ok
          (read_description (record { inserts = none; deletes = none; conditions = none })
            (in_graph default_graph quads))
          _ h2 in
      let (conditions, _, h4) = >>=-eq-ok (pattern_triples quads where_formula f.conditions) _ h3 in
      let (deletes, ed, h5) = >>=-eq-ok (pattern_triples quads template f.deletes) _ h4 in
      let (inserts, ei, h6) = >>=-eq-ok (pattern_triples quads template f.inserts) _ h5 in
      let (_, filled, h7) =
        >>=-eq-ok
          (guard (not (is_empty deletes && is_empty inserts)) (
            unprocessable_patch
              (codes "an N3 patch must specify at least one of solid:inserts / solid:deletes")))
          _ h6 in
      let (_, checked, h8) =
        >>=-eq-ok (check_vars (collect_vars conditions) (collect_vars (deletes ++ inserts))) _ h7 in
      let plain_deletes = pattern_triples-IsTemplate quads f.deletes deletes ed in
      let plain_inserts = pattern_triples-IsTemplate quads f.inserts inserts ei in
      let known = check_vars-In (collect_vars conditions) (collect_vars (deletes ++ inserts)) in
      rw (← ok-injective _ patch h8) (
        record {
          deletes_plain = plain_deletes;
          inserts_plain = plain_inserts;
          deletes_named = λ k n. collect_vars-IsNamed k conditions (
              known k checked (
                collect_vars-append k deletes inserts
                  (inl (NamesIn-collect_vars k deletes plain_deletes n))));
          inserts_named = λ k n. collect_vars-IsNamed k conditions (
              known k checked (
                collect_vars-append k deletes inserts
                  (inr (NamesIn-collect_vars k inserts plain_inserts n))));
        },
        some_template deletes inserts (guard-eq-ok _ _ filled),
      )
