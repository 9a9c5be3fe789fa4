-- ===== src/Ldp/Patch/Apply/Instances.antt =====
-- src/ldp/patch.rs: the triples of an instantiated template.
use mathlib.Core.Option.{some-injective}
use solid_server_rs.Prelude.{
  ◌≡◌, refl, sym, ◌∙◌, ap, ◌⊎◌, inl, inr, Option, none, some, List, [], ◌∷◌, Str, codes, All, Any,
  ◌≢◌,
}
use solid_server_rs.Collections.{get, str_key}
use solid_server_rs.Error.{ServerError, ok, err, unprocessable_patch}
use solid_server_rs.Error.Results.{>>=-eq-ok, >>=-eq-err, collect, ok-injective}
use solid_server_rs.Ldp.Patch.Terms.{
  NamedOrBlankNode, Term, named_node, blank_node, literal, Triple, PatTerm, term, var, where_blank,
  PatTriple, subject_as_term,
}
use solid_server_rs.Ldp.Patch.Solve.{Binding}
use solid_server_rs.Ldp.Patch.Solve.Unify.{Mapping, value, Names, NamesIn, Matches, reads}
use solid_server_rs.Ldp.Patch.Apply.{
  bound, resolve, as_subject, as_predicate, instantiate, instantiate_all,
}

as_subject_of_node :
    (Literal : Type 0) (s : NamedOrBlankNode)
    → as_subject (subject_as_term {Literal = Literal} s) ≡ ok s
unfolding subject_as_term
as_subject_of_node Literal (NamedOrBlankNode.named n) = refl
as_subject_of_node Literal (NamedOrBlankNode.blank b) = refl

module _ {Literal : Type 0} where
  -- Under the mapping, each pattern of the template is the triple at its place.
  abbrev pub Instances : Mapping Literal → List (PatTriple Literal) → List (Triple Literal) → Type 0
  Instances m [] [] = Unit
  Instances m [] (t ∷ ts) = ⊥
  Instances m (p ∷ ps) [] = ⊥
  Instances m (p ∷ ps) (t ∷ ts) = Matches m p t × Instances m ps ts

  abbrev pub NotBlank : PatTerm Literal → Type 0
  NotBlank (term t) = Unit
  NotBlank (var v) = Unit
  NotBlank (where_blank label) = ⊥

  -- A pattern of a template: it has no blank node of a formula.
  abbrev pub IsTemplate : PatTriple Literal → Type 0
  IsTemplate p = NotBlank p.subject × NotBlank p.predicate × NotBlank p.object

  abbrev pub Binds : Binding Literal → (Str → Type 0) → Type 0
  Binds b Name = (k : Str) → Name k → (t : Term Literal) × (get k b ≡ some t)

  bound-eq-ok :
      (v : Str) (o : Option (Term Literal)) (t : Term Literal) → bound v o ≡ ok t → o ≡ some t
  bound-eq-ok v none t h = absurd (cc h)
  bound-eq-ok v (some u) t h = cc h

  resolve-eq-ok :
      (p : PatTerm Literal) (b : Binding Literal) (t : Term Literal)
      → resolve p b ≡ ok t
      → value (reads b) p ≡ some t
  unfolding resolve
  resolve-eq-ok (term u) b t h = cc h
  resolve-eq-ok (var v) b t h = bound-eq-ok v (get v b) t h
  resolve-eq-ok (where_blank l) b t h = absurd (cc h)

  resolve_of_value :
      (p : PatTerm Literal) (b : Binding Literal) (t : Term Literal)
      → NotBlank p
      → value (reads b) p ≡ some t
      → resolve p b ≡ ok t
  unfolding resolve
  resolve_of_value (term u) b t n h = ap ok (some-injective u t h)
  resolve_of_value (var v) b t n h = rw h refl
  resolve_of_value (where_blank l) b t n h = absurd n

  -- A name of a template that is bound resolves.
  resolve-total :
      (p : PatTerm Literal) (b : Binding Literal)
      → NotBlank p
      → Binds b (λ k. Names k p)
      → (t : Term Literal) × (resolve p b ≡ ok t)
  unfolding resolve
  resolve-total (term u) b n h = (u, refl)
  resolve-total (var v) b n h = let (t, e) = h v refl in (t, rw e refl)
  resolve-total (where_blank l) b n h = absurd n

  as_subject-eq-ok :
      (t : Term Literal) (s : NamedOrBlankNode) → as_subject t ≡ ok s → subject_as_term s ≡ t
  unfolding subject_as_term
  as_subject-eq-ok (named_node n) s h = rw (← ok-injective _ s h) refl
  as_subject-eq-ok (blank_node b) s h = rw (← ok-injective _ s h) refl
  as_subject-eq-ok (literal l) s h = absurd (cc h)

  as_predicate-eq-ok : (t : Term Literal) (q : Str) → as_predicate t ≡ ok q → t ≡ named_node q
  as_predicate-eq-ok (named_node n) q h = ap named_node (ok-injective n q h)
  as_predicate-eq-ok (blank_node b) q h = absurd (cc h)
  as_predicate-eq-ok (literal l) q h = absurd (cc h)

  instantiate-eq-ok :
      (p : PatTriple Literal) (b : Binding Literal) (t : Triple Literal)
      → instantiate p b ≡ ok t
      → Matches (reads b) p t
  unfolding instantiate
  instantiate-eq-ok p b t h =
      let (s, es, h1) = >>=-eq-ok (resolve p.subject b) _ h in
      let (subject, esub, h2) = >>=-eq-ok (as_subject s) _ h1 in
      let (q, eq, h3) = >>=-eq-ok (resolve p.predicate b) _ h2 in
      let (predicate, ep, h4) = >>=-eq-ok (as_predicate q) _ h3 in
      let (object, eo, h5) = >>=-eq-ok (resolve p.object b) _ h4 in
      rw (← ok-injective _ t h5) (
        resolve-eq-ok p.subject b s es ∙ ap some (sym (as_subject-eq-ok s subject esub)),
        resolve-eq-ok p.predicate b q eq ∙ ap some (as_predicate-eq-ok q predicate ep),
        resolve-eq-ok p.object b object eo,
      )

  instantiate_of_Matches :
      (p : PatTriple Literal) (b : Binding Literal) (t : Triple Literal)
      → IsTemplate p
      → Matches (reads b) p t
      → instantiate p b ≡ ok t
  unfolding instantiate
  instantiate_of_Matches p b t (ns, nq, no') (s, q, o) =
      rw (resolve_of_value p.subject b (subject_as_term t.subject) ns s) (
        rw (as_subject_of_node Literal t.subject) (
          rw (resolve_of_value p.predicate b (named_node t.predicate) nq q)
            (rw (resolve_of_value p.object b t.object no' o) refl)))

  -- Under the mapping the pattern has a literal as its subject, or its predicate is no IRI; the error
  -- says which.
  abbrev pub IsIllKinded : ServerError → Mapping Literal → PatTriple Literal → Type 0
  IsIllKinded e m p =
      ((e ≡ unprocessable_patch (codes "a patch triple subject cannot be a literal"))
        × (l : Literal) × (value m p.subject ≡ some (literal l)))
      ⊎ ((e ≡ unprocessable_patch (codes "a patch triple predicate must be an IRI"))
          × (t : Term Literal) × (value m p.predicate ≡ some t)
          × ((n : Str) → t ≢ named_node n))

  as_subject-eq-err :
      (t : Term Literal) (e : ServerError)
      → as_subject t ≡ err e
      → (e ≡ unprocessable_patch (codes "a patch triple subject cannot be a literal"))
        × (l : Literal) × (t ≡ literal l)
  as_subject-eq-err (named_node n) e h = absurd (cc h)
  as_subject-eq-err (blank_node b) e h = absurd (cc h)
  as_subject-eq-err (literal l) e h = (cc h, l, refl)

  as_predicate-eq-err :
      (t : Term Literal) (e : ServerError)
      → as_predicate t ≡ err e
      → (e ≡ unprocessable_patch (codes "a patch triple predicate must be an IRI"))
        × ((n : Str) → t ≢ named_node n)
  as_predicate-eq-err (named_node n) e h = absurd (cc h)
  as_predicate-eq-err (blank_node b) e h = (cc h, λ n d. cc d)
  as_predicate-eq-err (literal l) e h = (cc h, λ n d. cc d)

  instantiate-eq-err :
      (p : PatTriple Literal) (b : Binding Literal) (e : ServerError)
      → IsTemplate p
      → Binds b (λ k. NamesIn k p)
      → instantiate p b ≡ err e
      → IsIllKinded e (reads b) p
  unfolding instantiate
  instantiate-eq-err p b e (ns, nq, no') h f =
      let (s, es) = resolve-total p.subject b ns (λ k n. h k (inl n)) in
      let (q, eq) = resolve-total p.predicate b nq (λ k n. h k (inr (inl n))) in
      let (o, eo) = resolve-total p.object b no' (λ k n. h k (inr (inr n))) in
      elim (>>=-eq-err (as_subject s) _ (rw es at f)) [
        | inl bad ↦
            let (says, l, is_literal) = as_subject-eq-err s e bad in
            inl (says, l, resolve-eq-ok p.subject b s es ∙ ap some is_literal)
        | inr (subject, _, f1) ↦ elim (>>=-eq-err (as_predicate q) _ (rw eq at f1)) [
          | inl bad ↦
              let (says, no_iri) = as_predicate-eq-err q e bad in
              inr (says, q, resolve-eq-ok p.predicate b q eq, no_iri)
          | inr (predicate, _, f2) ↦ absurd (cc (rw eo at f2))
        ]
      ]

  pub instantiate_all-eq-ok :
      (ps : List (PatTriple Literal)) (b : Binding Literal) (ts : List (Triple Literal))
      → instantiate_all ps b ≡ ok ts
      → Instances (reads b) ps ts
  unfolding instantiate_all collect
  instantiate_all-eq-ok [] b [] h = tt
  instantiate_all-eq-ok [] b (t ∷ ts) h = absurd (cc h)
  instantiate_all-eq-ok (p ∷ ps) b ts h =
      let (t, e, h1) = >>=-eq-ok (instantiate p b) _ h in
      let (rest, e', h2) = >>=-eq-ok (instantiate_all ps b) _ h1 in
      rw (← ok-injective (t ∷ rest) ts h2)
        (instantiate-eq-ok p b t e, instantiate_all-eq-ok ps b rest e')

  pub instantiate_all_of_Instances :
      (ps : List (PatTriple Literal)) (b : Binding Literal) (ts : List (Triple Literal))
      → All IsTemplate ps
      → Instances (reads b) ps ts
      → instantiate_all ps b ≡ ok ts
  unfolding instantiate_all collect
  instantiate_all_of_Instances [] b [] n h = refl
  instantiate_all_of_Instances [] b (t ∷ ts) n h = absurd h
  instantiate_all_of_Instances (p ∷ ps) b [] n h = absurd h
  instantiate_all_of_Instances (p ∷ ps) b (t ∷ ts) (n, ns) (h, hs) =
      rw (instantiate_of_Matches p b t n h) (rw (instantiate_all_of_Instances ps b ts ns hs) refl)

  pub instantiate_all-eq-err :
      (ps : List (PatTriple Literal)) (b : Binding Literal) (e : ServerError)
      → All IsTemplate ps
      → All (λ p. Binds b (λ k. NamesIn k p)) ps
      → instantiate_all ps b ≡ err e
      → Any (λ p. IsIllKinded e (reads b) p) ps
  unfolding instantiate_all collect
  instantiate_all-eq-err [] b e n h f = absurd (cc f)
  instantiate_all-eq-err (p ∷ ps) b e (n, ns) (h, hs) f = elim (>>=-eq-err (instantiate p b) _ f) [
    | inl bad ↦ inl (instantiate-eq-err p b e n h bad)
    | inr (t, _, f1) ↦ elim (>>=-eq-err (instantiate_all ps b) _ f1) [
      | inl bad ↦ inr (instantiate_all-eq-err ps b e ns hs bad)
      | inr (rest, _, f2) ↦ absurd (cc f2)
    ]
  ]
