-- ===== src/Ldp/Patch/Apply/Outcome.antt =====
-- src/ldp/patch.rs: when a patch is applied, and what the graph is then.
use mathlib.Core.Path.{subst}
use solid_server_rs.Prelude.{◌≡◌, refl, ◌∙◌, ap, ◌⊎◌, inl, inr, ◌↔◌, List, [], ◌∷◌, Str, Any, All}
use solid_server_rs.Collections.{Eq, get, str_key}
use solid_server_rs.Error.{ok}
use solid_server_rs.Error.Results.{>>=-eq-ok, ok-injective}
use solid_server_rs.Ldp.Patch.Terms.{Triple, PatTerm, term, var, where_blank, PatTriple, N3Patch}
use solid_server_rs.Ldp.Patch.Solve.{Binding, solve_bgp}
use solid_server_rs.Ldp.Patch.Solve.Unify.{Mapping, value, Names, NamesIn, Matches, reads}
use solid_server_rs.Ldp.Patch.Solve.Mappings.{SolvesAlone, IsNamed}
use solid_server_rs.Ldp.Patch.Solve.Unique.{alone_of_one, solve_bgp-one_iff}
use solid_server_rs.Ldp.Patch.Apply.{
  the_solution, resolve_binding, instantiate_all, check_deletes, apply_patch, keep_survivors,
  add_inserts,
}
use solid_server_rs.Ldp.Patch.Apply.Instances.{
  Instances, IsTemplate, instantiate_all-eq-ok, instantiate_all_of_Instances,
}
use solid_server_rs.Ldp.Patch.Apply.Sets.{
  In, IsUnique, patched-In, patched-IsUnique, check_deletes_iff,
}

module _ {Literal : Type 0} where
  -- What the parser guarantees: the templates have no blank nodes, and no variables but those of the
  -- conditions.
  pub record IsWellFormed (patch : N3Patch Literal) : Type 0 where
    pub deletes_plain : All IsTemplate patch.deletes
    pub inserts_plain : All IsTemplate patch.inserts
    pub deletes_named :
        (k : Str) → Any (λ p. NamesIn k p) patch.deletes → IsNamed k patch.conditions
    pub inserts_named :
        (k : Str) → Any (λ p. NamesIn k p) patch.inserts → IsNamed k patch.conditions

  value_of_agree :
      (m n : Mapping Literal) (p : PatTerm Literal)
      → ((k : Str) → Names k p → n k ≡ m k)
      → value n p ≡ value m p
  value_of_agree m n (term t) h = refl
  value_of_agree m n (var v) h = h v refl
  value_of_agree m n (where_blank l) h = h _ refl

  Matches-of_agree :
      (m n : Mapping Literal) (p : PatTriple Literal) (t : Triple Literal)
      → ((k : Str) → NamesIn k p → n k ≡ m k)
      → Matches m p t
      → Matches n p t
  Matches-of_agree m n p t h (s, q, o) = (
    value_of_agree m n p.subject (λ k i. h k (inl i)) ∙ s,
    value_of_agree m n p.predicate (λ k i. h k (inr (inl i))) ∙ q,
    value_of_agree m n p.object (λ k i. h k (inr (inr i))) ∙ o,
  )

  Instances-of_agree :
      (m n : Mapping Literal) (ps : List (PatTriple Literal)) (ts : List (Triple Literal))
      → ((k : Str) → Any (λ p. NamesIn k p) ps → n k ≡ m k)
      → Instances m ps ts
      → Instances n ps ts
  Instances-of_agree m n [] [] h i = tt
  Instances-of_agree m n [] (t ∷ ts) h i = i
  Instances-of_agree m n (p ∷ ps) [] h i = i
  Instances-of_agree m n (p ∷ ps) (t ∷ ts) h (i, is) = (
    Matches-of_agree m n p t (λ k j. h k (inl j)) i,
    Instances-of_agree m n ps ts (λ k j. h k (inr j)) is,
  )

  -- The conditions have one solution; the triples to delete and to insert are the instances of the
  -- templates under it, and those to delete are all there.
  pub record Applies (existing : List (Triple Literal)) (patch : N3Patch Literal)
      (m : Mapping Literal) (deletes inserts : List (Triple Literal)) : Type 0 where
    pub alone : SolvesAlone m patch.conditions existing
    pub deleted : Instances m patch.deletes deletes
    pub inserted : Instances m patch.inserts inserts
    pub present : All (λ d. In d existing) deletes

module _ {Literal : Type 0} ⦃same : Eq Literal⦄ where
  the_solution-eq-ok :
      (out : List (Binding Literal)) (b : Binding Literal) → the_solution out ≡ ok b → out ≡ b ∷ []
  the_solution-eq-ok [] b h = absurd (cc h)
  the_solution-eq-ok (c ∷ []) b h = ap (λ (c : Binding Literal). c ∷ []) (ok-injective c b h)
  the_solution-eq-ok (c ∷ d ∷ out) b h = absurd (cc h)

  pub resolve_binding-alone :
      (ps : List (PatTriple Literal)) (existing : List (Triple Literal)) (b : Binding Literal)
      → resolve_binding ps existing ≡ ok b
      → SolvesAlone (reads b) ps existing
  unfolding resolve_binding
  resolve_binding-alone [] existing b h = (tt, λ n s k named. absurd named)
  resolve_binding-alone (p ∷ ps) existing b h =
      alone_of_one (p ∷ ps) existing b (the_solution-eq-ok (solve_bgp (p ∷ ps) existing) b h)

  pub resolve_binding_of_alone :
      (ps : List (PatTriple Literal)) (existing : List (Triple Literal)) (m : Mapping Literal)
      → SolvesAlone m ps existing
      → (b : Binding Literal) × (resolve_binding ps existing ≡ ok b)
  unfolding resolve_binding
  resolve_binding_of_alone [] existing m h = ([], refl)
  resolve_binding_of_alone (p ∷ ps) existing m h =
      let (b, one) = (solve_bgp-one_iff (p ∷ ps) existing).1 (m, h) in (b, rw one refl)

  -- If a patch is applied, its conditions have exactly one solution in the graph, the triples that its
  -- deletes become under the solution are all in the graph, and the new graph lists, each once, the old
  -- triples but these and the triples that its inserts become.
  pub apply_patch-Applies :
      (existing : List (Triple Literal)) (patch : N3Patch Literal) (result : List (Triple Literal))
      → apply_patch existing patch ≡ ok result
      → (m : Mapping Literal) × (deletes : List (Triple Literal)) × (inserts : List
          (Triple Literal))
        × Applies existing patch m deletes inserts
        × ((t : Triple Literal) → In t result ↔ ((In t existing × ¬ In t deletes) ⊎ In t inserts))
        × IsUnique result
  unfolding apply_patch
  apply_patch-Applies existing patch result h =
      let (b, eb, h1) = >>=-eq-ok (resolve_binding patch.conditions existing) _ h in
      let (deletes, ed, h2) = >>=-eq-ok (instantiate_all patch.deletes b) _ h1 in
      let (inserts, ei, h3) = >>=-eq-ok (instantiate_all patch.inserts b) _ h2 in
      let (_, ec, h4) = >>=-eq-ok (check_deletes existing deletes) _ h3 in
      let there = ok-injective _ result h4 in
      (
        reads b,
        deletes,
        inserts,
        record {
          alone = resolve_binding-alone patch.conditions existing b eb;
          deleted = instantiate_all-eq-ok patch.deletes b deletes ed;
          inserted = instantiate_all-eq-ok patch.inserts b inserts ei;
          present = (check_deletes_iff existing deletes).0 ec;
        },
        subst
            (λ (r : List (Triple Literal)).
              (t : Triple Literal) → In t r ↔ ((In t existing × ¬ In t deletes) ⊎ In t inserts))
            there (patched-In deletes inserts existing),
        subst (λ (r : List (Triple Literal)). IsUnique r) there
            (patched-IsUnique deletes inserts existing),
      )

  -- A well-formed patch is applied exactly when its conditions have exactly one solution in the graph,
  -- its templates become triples under it, and all those to delete are in the graph.
  pub apply_patch_iff :
      (existing : List (Triple Literal)) (patch : N3Patch Literal)
      → IsWellFormed patch
      → ((result : List (Triple Literal)) × (apply_patch existing patch ≡ ok result)) ↔ (
          (m : Mapping Literal) × (deletes : List (Triple Literal)) × (inserts : List
            (Triple Literal))
          × Applies existing patch m deletes inserts)
  unfolding apply_patch
  apply_patch_iff existing patch w = (
    λ h. let (m, ds, is, a, _, _) = apply_patch-Applies existing patch h.0 h.1 in (m, ds, is, a),
    λ h.
        let (m, ds, is, a) = h in
        let (b, eb) = resolve_binding_of_alone patch.conditions existing m a.alone in
        let solved = resolve_binding-alone patch.conditions existing b eb in
        let agrees : (k : Str) → IsNamed k patch.conditions → get k b ≡ m k =
          λ k named. a.alone.1 (reads b) solved.0 k named in
        let ed = instantiate_all_of_Instances patch.deletes b ds w.deletes_plain (
          Instances-of_agree m (reads b) patch.deletes ds (λ k n. agrees k (w.deletes_named k n))
            a.deleted) in
        let ei = instantiate_all_of_Instances patch.inserts b is w.inserts_plain (
          Instances-of_agree m (reads b) patch.inserts is (λ k n. agrees k (w.inserts_named k n))
            a.inserted) in
        (
          add_inserts is (keep_survivors ds existing []),
          rw eb (rw ed (rw ei (rw ((check_deletes_iff existing ds).1 a.present) refl))),
        ),
  )
