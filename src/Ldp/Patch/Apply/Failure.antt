-- ===== src/Ldp/Patch/Apply/Failure.antt =====
-- src/ldp/patch.rs: why a patch is refused.
use solid_server_rs.Prelude.{◌≡◌, ◌⊎◌, inl, inr, List, [], ◌∷◌, Str, Any, All, Bool-cases}
use solid_server_rs.Collections.{Eq, str_key}
use solid_server_rs.Error.{ServerError, err, conflict}
use solid_server_rs.Error.Results.{>>=-eq-err, error_of_err}
use solid_server_rs.Ldp.Patch.Terms.{Triple, PatTriple, N3Patch}
use solid_server_rs.Ldp.Patch.Solve.{Binding, solve_bgp}
use solid_server_rs.Ldp.Patch.Solve.Unify.{Mapping, NamesIn, reads}
use solid_server_rs.Ldp.Patch.Solve.Mappings.{SolvesAlone, IsNamed, IsNamed-bound}
use solid_server_rs.Ldp.Patch.Apply.{
  the_solution, resolve_binding, instantiate_all, check_deletes, contains, apply_patch,
}
use solid_server_rs.Ldp.Patch.Apply.Instances.{
  Instances, IsIllKinded, Binds, instantiate_all-eq-ok, instantiate_all-eq-err,
}
use solid_server_rs.Ldp.Patch.Apply.Sets.{In, not_contains}
use solid_server_rs.Ldp.Patch.Apply.Outcome.{
  IsWellFormed, resolve_binding-alone, resolve_binding_of_alone,
}

abbrev pub IsConflict : ServerError → Type 0
IsConflict e = (message : Str) × (e ≡ conflict message)

module _ {Literal : Type 0} where
  -- Under the one solution of the conditions, a triple to delete is not there.
  abbrev pub LacksDelete : List (Triple Literal) → N3Patch Literal → Type 0
  LacksDelete existing patch =
      (m : Mapping Literal) × SolvesAlone m patch.conditions existing
      × (deletes : List (Triple Literal)) × Instances m patch.deletes deletes
      × Any (λ d. ¬ In d existing) deletes

  -- Under the one solution of the conditions, a template has a triple of the wrong kind.
  abbrev pub HasIllKinded : ServerError → List (Triple Literal) → N3Patch Literal → Type 0
  HasIllKinded e existing patch =
      (m : Mapping Literal) × SolvesAlone m patch.conditions existing
      × (Any (λ p. IsIllKinded e m p) patch.deletes ⊎ Any (λ p. IsIllKinded e m p) patch.inserts)

  Binds_of_names :
      (ps conditions : List (PatTriple Literal)) (existing : List (Triple Literal))
      (b : Binding Literal)
      → SolvesAlone (reads b) conditions existing
      → ((k : Str) → Any (λ p. NamesIn k p) ps → IsNamed k conditions)
      → All (λ p. Binds b (λ k. NamesIn k p)) ps
  Binds_of_names [] conditions existing b s h = tt
  Binds_of_names (p ∷ ps) conditions existing b s h = (
    λ k n. IsNamed-bound (reads b) k conditions existing (h k (inl n)) s.0,
    Binds_of_names ps conditions existing b s (λ k n. h k (inr n)),
  )

module _ {Literal : Type 0} ⦃same : Eq Literal⦄ where
  the_solution-eq-err :
      (out : List (Binding Literal)) (e : ServerError) → the_solution out ≡ err e → IsConflict e
  the_solution-eq-err [] e h = (_, error_of_err _ e h)
  the_solution-eq-err (b ∷ []) e h = absurd (cc h)
  the_solution-eq-err (b ∷ c ∷ out) e h = (_, error_of_err _ e h)

  resolve_binding-eq-err :
      (ps : List (PatTriple Literal)) (existing : List (Triple Literal)) (e : ServerError)
      → resolve_binding ps existing ≡ err e
      → IsConflict e × ¬ ((m : Mapping Literal) × SolvesAlone m ps existing)
  unfolding resolve_binding
  resolve_binding-eq-err [] existing e h = absurd (cc h)
  resolve_binding-eq-err (p ∷ ps) existing e h = (
    the_solution-eq-err (solve_bgp (p ∷ ps) existing) e h,
    λ one. let (b, found) = resolve_binding_of_alone (p ∷ ps) existing one.0 one.1 in cc (found, h),
  )

  check_deletes-eq-err :
      (existing ds : List (Triple Literal)) (e : ServerError)
      → check_deletes existing ds ≡ err e
      → IsConflict e × Any (λ d. ¬ In d existing) ds
  unfolding check_deletes
  check_deletes-eq-err existing [] e h = absurd (cc h)
  check_deletes-eq-err existing (d ∷ ds) e h = elim (Bool-cases (contains existing d)) [
    | inl y ↦ let (c, lacks) = check_deletes-eq-err existing ds e (rw y at h) in (c, inr lacks)
    | inr n ↦ let h' = rw n at h in ((_, error_of_err _ e h'), inl (not_contains existing d n))
  ]

  -- A well-formed patch that is refused is refused with 409, where its conditions have no solution or
  -- several or where a triple to delete is not in the graph, or with 422, where under the one solution
  -- a pattern of a template has a literal as its subject or a predicate that is no IRI. No variable is ever left
  -- unbound, and no blank node reaches a template.
  pub apply_patch-refused :
      (existing : List (Triple Literal)) (patch : N3Patch Literal) (e : ServerError)
      → IsWellFormed patch
      → apply_patch existing patch ≡ err e
      → (IsConflict e
          × (¬ ((m : Mapping Literal) × SolvesAlone m patch.conditions existing)
              ⊎ LacksDelete existing patch))
        ⊎ HasIllKinded e existing patch
  unfolding apply_patch
  apply_patch-refused existing patch e w h =
      elim (>>=-eq-err (resolve_binding patch.conditions existing) _ h) [
        | inl bad ↦
            let (c, n) = resolve_binding-eq-err patch.conditions existing e bad in inl (c, inl n)
        | inr (b, eb, h1) ↦
            let alone = resolve_binding-alone patch.conditions existing b eb in
            elim (>>=-eq-err (instantiate_all patch.deletes b) _ h1) [
              | inl bad ↦ inr (
                reads b,
                alone,
                inl (
                    instantiate_all-eq-err patch.deletes b e w.deletes_plain
                      (Binds_of_names patch.deletes patch.conditions existing b alone
                        w.deletes_named)
                      bad),
              )
              | inr (ds, ed, h2) ↦ elim (>>=-eq-err (instantiate_all patch.inserts b) _ h2) [
                | inl bad ↦ inr (
                  reads b,
                  alone,
                  inr (
                      instantiate_all-eq-err patch.inserts b e w.inserts_plain
                        (Binds_of_names patch.inserts patch.conditions existing b alone
                          w.inserts_named)
                        bad),
                )
                | inr (is, ei, h3) ↦ elim (>>=-eq-err (check_deletes existing ds) _ h3) [
                  | inl bad ↦
                      let (c, lacks) = check_deletes-eq-err existing ds e bad in
                      inl (
                        c,
                        inr (
                          reads b,
                          alone,
                          ds,
                          instantiate_all-eq-ok patch.deletes b ds ed,
                          lacks,
                        ),
                      )
                  | inr (_, ec, h4) ↦ absurd (cc h4)
                ]
              ]
            ]
      ]
