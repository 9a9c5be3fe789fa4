-- ===== src/Ldp/Patch/Solve/Unique.antt =====
-- src/ldp/patch.rs: a graph pattern has exactly one solution, or the patch is refused.
use mathlib.Core.Path.{subst}
use solid_server_rs.Prelude.{
  ◌≡◌, refl, sym, ◌∙◌, inl, inr, ◌↔◌, Bool, true, false, some, List, [], ◌∷◌, ◌++◌, Str, length,
  any, all, Any, All, arith, ◌≤◌, Bool-cases, ◌==◌, ==_iff, str_eq_iff, str_eq, &&_iff, str_eq_self,
}
use solid_server_rs.Collections.{Eq, get, remove, str_key}
use solid_server_rs.Collections.Laws.{get-remove, length-remove-lt, contains_of_get}
use solid_server_rs.Collections.Distinct.{IsDistinct}
use solid_server_rs.Ldp.Patch.Terms.{Term, Triple, PatTriple}
use solid_server_rs.Ldp.Patch.Solve.{Binding, map_eq, is_term, push_distinct, solve_bgp}
use solid_server_rs.Ldp.Patch.Solve.Unify.{Mapping, Extends, reads}
use solid_server_rs.Ldp.Patch.Solve.Search.{solve_from-Keeps}
use solid_server_rs.Ldp.Patch.Solve.Mappings.{
  SolvesAlone, IsNamed-bound, Answers, solve_bgp-Answers, solve_bgp_complete, is_term_lem,
}

module _ {Literal : Type 0} ⦃same : Eq Literal⦄ where
  -- A map without duplicates is no longer than one that extends it.
  Extends-length :
      (a b : Binding Literal) → IsDistinct a → Extends (reads a) (reads b) → length a ≤ length b
  unfolding get
  Extends-length [] b d h = omega arith
  Extends-length ((k, t) ∷ a) b (fresh, d) h =
      let there : get k b ≡ some t = h k t (rw (str_eq_self k) refl) in
      let rest : Extends (reads a) (reads (remove k b)) = λ j u e. elim (Bool-cases (str_eq k j)) [
        | inl y ↦ absurd (cc (e, rw ((str_eq_iff k j).0 y) at fresh))
        | inr n ↦ rw (get-remove k j b, n) (h j u (rw n e))
      ] in
      omega (
        arith,
        Extends-length a (remove k b) d rest,
        length-remove-lt k b (contains_of_get k b t there),
      )

  all_of_get :
      (test : Str × Term Literal → Bool) (a : Binding Literal)
      → IsDistinct a
      → ((k : Str) (t : Term Literal) → get k a ≡ some t → test (k, t) ≡ true)
      → all test a ≡ true
  unfolding get
  all_of_get test [] d h = refl
  all_of_get test ((k, t) ∷ a) (fresh, d) h = rw (h k t (rw (str_eq_self k) refl)) (
      all_of_get test a d (λ j u e. elim (Bool-cases (str_eq k j)) [
        | inl y ↦ absurd (cc (e, rw ((str_eq_iff k j).0 y) at fresh))
        | inr n ↦ h j u (rw n e)
      ]))

  map_eq_of_agree :
      (a b : Binding Literal)
      → IsDistinct a
      → IsDistinct b
      → Extends (reads a) (reads b)
      → Extends (reads b) (reads a)
      → map_eq a b ≡ true
  unfolding map_eq
  map_eq_of_agree a b da db ab ba =
      (&&_iff (length a == length b) (all (λ x. is_term (get x.0 b) x.1) a)).1 (
        (==_iff (length a) (length b)).1
            (omega (arith, Extends-length a b da ab, Extends-length b a db ba)),
        all_of_get (λ x. is_term (get x.0 b) x.1) a da
            (λ k t e. (is_term_lem (get k b) t).1 (ab k t e)),
      )

  -- No two of the solutions are equal as maps.
  abbrev NoTwins : List (Binding Literal) → Type 0
  NoTwins [] = Unit
  NoTwins (o ∷ os) = All (λ b. map_eq o b ≡ false) os × NoTwins os

  NoTwins-append :
      (out : List (Binding Literal)) (b : Binding Literal)
      → any (λ o. map_eq o b) out ≡ false
      → NoTwins out
      → NoTwins (out ++ b ∷ [])
  NoTwins-append [] b n h = (tt, tt)
  NoTwins-append (o ∷ out) b n (apart, h) = elim (Bool-cases (map_eq o b)) [
    | inl y ↦ absurd (cc (rw y at n))
    | inr other ↦ (All-snoc other out apart, NoTwins-append out b (rw other at n) h)
  ]
    where
      All-snoc :
          map_eq o b ≡ false
          → (out : List (Binding Literal)) → All (λ c. map_eq o c ≡ false) out
          → All (λ c. map_eq o c ≡ false) (out ++ b ∷ [])
      All-snoc other [] a = (other, tt)
      All-snoc other (x ∷ out) (a, rest) = (a, All-snoc other out rest)

  solve_bgp-NoTwins :
      (ps : List (PatTriple Literal)) (graph : List (Triple Literal)) → NoTwins (solve_bgp ps graph)
  unfolding solve_bgp push_distinct
  solve_bgp-NoTwins ps graph =
      solve_from-Keeps NoTwins
        (λ b out h. elim (Bool-cases (any (λ o. map_eq o b) out)) [
          | inl y ↦ rw y h
          | inr n ↦ rw n (NoTwins-append out b n h)
        ])
        ps graph [] [] tt

  agree :
      (m : Mapping Literal) (ps : List (PatTriple Literal)) (graph : List (Triple Literal))
      (a b : Binding Literal)
      → SolvesAlone m ps graph
      → Answers ps graph a
      → Answers ps graph b
      → Extends (reads a) (reads b)
  agree m ps graph a b (_, alone) ra rb k t e =
      let named = ra.only k t e in
      alone (reads b) rb.solves k named ∙ sym (alone (reads a) ra.solves k named) ∙ e

  one_of_alone :
      (m : Mapping Literal) (ps : List (PatTriple Literal)) (graph : List (Triple Literal))
      (out : List (Binding Literal))
      → SolvesAlone m ps graph
      → Any (λ o. Extends (reads o) m) out
      → All (Answers ps graph) out
      → NoTwins out
      → (b : Binding Literal) × (out ≡ b ∷ [])
  one_of_alone m ps graph [] alone h a n = absurd h
  one_of_alone m ps graph (b ∷ []) alone h a n = (b, refl)
  one_of_alone m ps graph (b ∷ c ∷ out) alone h (rb, (rc, _)) ((apart, _), _) = absurd (
      cc (
        map_eq_of_agree b c rb.distinct rc.distinct (agree m ps graph b c alone rb rc)
            (agree m ps graph c b alone rc rb),
        apart,
      ))

  pub alone_of_one :
      (ps : List (PatTriple Literal)) (graph : List (Triple Literal)) (b : Binding Literal)
      → solve_bgp ps graph ≡ b ∷ []
      → SolvesAlone (reads b) ps graph
  alone_of_one ps graph b h =
      let (answer, _) = subst (λ out. All (Answers ps graph) out) h (solve_bgp-Answers ps graph) in
      (
        answer.solves,
        λ n s k named.
            let (u, bound) = IsNamed-bound (reads b) k ps graph named answer.solves in
            let found =
              subst (λ out. Any (λ o. Extends (reads o) n) out) h
                (solve_bgp_complete n ps graph s) in
            elim found [ inl e ↦ e k u bound ∙ sym bound | inr nothing ↦ absurd nothing ],
      )

  -- The solver finds exactly one binding exactly when one mapping of the variables and blank nodes of
  -- the patterns, and no other, makes every pattern a triple of the graph.
  pub solve_bgp-one_iff :
      (ps : List (PatTriple Literal)) (graph : List (Triple Literal))
      → ((b : Binding Literal) × (solve_bgp ps graph ≡ b ∷ []))
        ↔ ((m : Mapping Literal) × SolvesAlone m ps graph)
  solve_bgp-one_iff ps graph = (
    λ h. (reads h.0, alone_of_one ps graph h.0 h.1),
    λ h.
        one_of_alone h.0 ps graph (solve_bgp ps graph) h.1 (solve_bgp_complete h.0 ps graph h.1.0)
          (solve_bgp-Answers ps graph) (solve_bgp-NoTwins ps graph),
  )
