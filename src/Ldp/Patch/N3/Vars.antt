-- ===== src/Ldp/Patch/N3/Vars.antt =====
-- src/ldp/patch.rs: the variables of the templates are among those of the conditions.
use solid_server_rs.Prelude.{
  ◌≡◌, sym, ◌∙◌, ◌⊎◌, inl, inr, List, [], ◌∷◌, ◌++◌, Str, Any, All, any, Any-map, any_iff, str_eq,
  str_eq_iff, Bool-cases,
}
use solid_server_rs.Error.{ok}
use solid_server_rs.Ldp.Patch.Terms.{PatTerm, term, var, where_blank, PatTriple}
use solid_server_rs.Ldp.Patch.Solve.Unify.{Names, NamesIn}
use solid_server_rs.Ldp.Patch.Solve.Search.{Any-append_left, Any-append_right}
use solid_server_rs.Ldp.Patch.Solve.Mappings.{IsNamed}
use solid_server_rs.Ldp.Patch.Apply.Instances.{NotBlank, IsTemplate}
use solid_server_rs.Ldp.Patch.Apply.Sets.{In}
use solid_server_rs.Ldp.Patch.N3.{var_of, pat_triple_vars, collect_vars, check_vars}

Any-append_cases :
    {A : Type 0} (P : A → Type 0) (xs ys : List A) → Any P (xs ++ ys) → Any P xs ⊎ Any P ys
Any-append_cases P [] ys h = inr h
Any-append_cases P (x ∷ xs) ys (inl p) = inl (inl p)
Any-append_cases P (x ∷ xs) ys (inr h) = elim (Any-append_cases P xs ys h) [
  | inl l ↦ inl (inr l)
  | inr r ↦ inr r
]

-- a variable that is checked is known
pub check_vars-In :
    (known vs : List Str) (v : Str) → check_vars known vs ≡ ok tt → In v vs → In v known
unfolding check_vars
check_vars-In known [] v h i = absurd i
check_vars-In known (u ∷ vs) v h i = elim (Bool-cases (any (str_eq u) known)) [
  | inr n ↦ absurd (cc (rw n at h))
  | inl y ↦
      let rest = check_vars-In known vs v (rw y at h) in
      elim i [
        | inr later ↦ rest later
        | inl e ↦
            Any-map {P = λ w. u ≡ w} {Q = λ w. w ≡ v} (λ w p. sym p ∙ e) known
              ((any_iff {P = λ w. u ≡ w} (str_eq u) (λ w. str_eq_iff u w) known).0 y)
      ]
]

module _ {Literal : Type 0} where
  var_of-Names : (k : Str) (p : PatTerm Literal) → In k (var_of p) → Names k p
  var_of-Names k (term t) h = h
  var_of-Names k (var v) (inl e) = sym e
  var_of-Names k (var v) (inr h) = absurd h
  var_of-Names k (where_blank l) h = absurd h

  Names-var_of : (k : Str) (p : PatTerm Literal) → NotBlank p → Names k p → In k (var_of p)
  Names-var_of k (term t) n h = h
  Names-var_of k (var v) n h = inl (sym h)
  Names-var_of k (where_blank l) n h = n

  pub collect_vars-IsNamed :
      (k : Str) (ps : List (PatTriple Literal)) → In k (collect_vars ps) → IsNamed k ps
  unfolding collect_vars pat_triple_vars
  collect_vars-IsNamed k [] h = h
  collect_vars-IsNamed k (p ∷ ps) h =
      elim (Any-append_cases (λ u. u ≡ k) (pat_triple_vars p) (collect_vars ps) h) [
        | inr later ↦ inr (collect_vars-IsNamed k ps later)
        | inl here ↦ inl (elim (Any-append_cases (λ u. u ≡ k) (var_of p.subject) _ here) [
          | inl s ↦ inl (var_of-Names k p.subject s)
          | inr r ↦ inr (elim (Any-append_cases (λ u. u ≡ k) (var_of p.predicate) _ r) [
            | inl q ↦ inl (var_of-Names k p.predicate q)
            | inr o ↦ inr (var_of-Names k p.object o)
          ])
        ])
      ]

  pub NamesIn-collect_vars :
      (k : Str) (ps : List (PatTriple Literal))
      → All IsTemplate ps
      → Any (λ p. NamesIn k p) ps
      → In k (collect_vars ps)
  unfolding collect_vars pat_triple_vars
  NamesIn-collect_vars k [] n h = h
  NamesIn-collect_vars k (p ∷ ps) (n, ns) (inr h) =
      Any-append_right (λ u. u ≡ k) (pat_triple_vars p) (collect_vars ps)
        (NamesIn-collect_vars k ps ns h)
  NamesIn-collect_vars k (p ∷ ps) ((ns, nq, no'), _) (inl h) =
      let E = λ (u : Str). u ≡ k in
      Any-append_left E (pat_triple_vars p) (collect_vars ps) (elim h [
        | inl s ↦ Any-append_left E (var_of p.subject) _ (Names-var_of k p.subject ns s)
        | inr r ↦ Any-append_right E (var_of p.subject) _ (elim r [
          | inl q ↦ Any-append_left E (var_of p.predicate) _ (Names-var_of k p.predicate nq q)
          | inr o ↦ Any-append_right E (var_of p.predicate) _ (Names-var_of k p.object no' o)
        ])
      ])

  pub collect_vars-append :
      (k : Str) (ps qs : List (PatTriple Literal))
      → In k (collect_vars ps) ⊎ In k (collect_vars qs)
      → In k (collect_vars (ps ++ qs))
  unfolding collect_vars
  collect_vars-append k [] qs h = elim h [ inl e ↦ absurd e | inr i ↦ i ]
  collect_vars-append k (p ∷ ps) qs (inr h) =
      Any-append_right (λ u. u ≡ k) (pat_triple_vars p) (collect_vars (ps ++ qs))
        (collect_vars-append k ps qs (inr h))
  collect_vars-append k (p ∷ ps) qs (inl h) =
      elim (Any-append_cases (λ u. u ≡ k) (pat_triple_vars p) (collect_vars ps) h) [
        | inl here ↦ Any-append_left (λ u. u ≡ k) (pat_triple_vars p) (collect_vars (ps ++ qs)) here
        | inr later ↦
            Any-append_right (λ u. u ≡ k) (pat_triple_vars p) (collect_vars (ps ++ qs))
              (collect_vars-append k ps qs (inl later))
      ]
