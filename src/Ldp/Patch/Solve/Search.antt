-- ===== src/Ldp/Patch/Solve/Search.antt =====
-- src/ldp/patch.rs: what the backtracking search of `solve_from` collects.
use solid_server_rs.Prelude.{
  ◌≡◌, refl, inl, inr, Bool, true, some, List, [], ◌∷◌, ◌++◌, any, Any, All, All-append, Bool-cases,
  Option-cases, ||_iff,
}
use solid_server_rs.Collections.{Eq}
use solid_server_rs.Ldp.Patch.Terms.{Triple, PatTriple}
use solid_server_rs.Ldp.Patch.Solve.{
  Binding, unify_triple, map_eq, push_distinct, scan, solve_from, continue_with,
}

pub Any-append_left : {A : Type 0} (P : A → Type 0) (xs ys : List A) → Any P xs → Any P (xs ++ ys)
Any-append_left P [] ys h = absurd h
Any-append_left P (x ∷ xs) ys (inl p) = inl p
Any-append_left P (x ∷ xs) ys (inr h) = inr (Any-append_left P xs ys h)

pub Any-append_right : {A : Type 0} (P : A → Type 0) (xs ys : List A) → Any P ys → Any P (xs ++ ys)
Any-append_right P [] ys h = h
Any-append_right P (x ∷ xs) ys h = inr (Any-append_right P xs ys h)

abbrev Next : Type 0 → Type 0
Next Literal = Binding Literal → List (Binding Literal) → List (Binding Literal)

module _ {Literal : Type 0} ⦃same : Eq Literal⦄ where
  -- One triple matches the pattern, and the rest is met from there.
  abbrev pub Step :
      (Binding Literal → Binding Literal → Type 0)
      → PatTriple Literal
      → Binding Literal
      → Binding Literal
      → Triple Literal
      → Type 0
  Step Rest p b o t = (b' : Binding Literal) × (unify_triple p t b ≡ some b') × Rest b' o

  -- The binding grows to `o` as the patterns are matched one after the other.
  abbrev pub Leads :
      List (PatTriple Literal) → List (Triple Literal) → Binding Literal → Binding Literal → Type 0
  Leads [] graph b o = o ≡ b
  Leads (p ∷ ps) graph b o = Any (Step (Leads ps graph) p b o) graph

  abbrev Keeps : (List (Binding Literal) → Type 0) → Next Literal → Type 0
  Keeps P next = (b : Binding Literal) (out : List (Binding Literal)) → P out → P (next b out)

  -- A property of the solutions so far that the rest of the search keeps is kept by the loop.
  scan-Keeps :
      (P : List (Binding Literal) → Type 0) (next : Next Literal) (p : PatTriple Literal)
      (b : Binding Literal) (ts : List (Triple Literal)) (out : List (Binding Literal))
      → Keeps P next
      → P out
      → P (scan next p b ts out)
  unfolding scan
  scan-Keeps P next p b [] out keeps h = h
  scan-Keeps P next p b (t ∷ ts) out keeps h =
      scan-Keeps P next p b ts (continue_with (unify_triple p t b) next out) keeps
        (elim (Option-cases (unify_triple p t b)) [
          | inl e ↦ rw e h
          | inr (b', e) ↦ rw e (keeps b' out h)
        ])

  pub solve_from-Keeps :
      (P : List (Binding Literal) → Type 0)
      → Keeps P (λ b out. push_distinct out b)
      → (ps : List (PatTriple Literal)) (graph : List (Triple Literal))
      → Keeps P (solve_from ps graph)
  unfolding solve_from
  solve_from-Keeps P last [] graph b out h = last b out h
  solve_from-Keeps P last (p ∷ ps) graph b out h =
      scan-Keeps P (solve_from ps graph) p b graph out (solve_from-Keeps P last ps graph) h

  -- Only what is led to is added.
  abbrev Adds :
      (Binding Literal → Type 0)
      → (Binding Literal → Binding Literal → Type 0)
      → Next Literal
      → Type 0
  Adds P Rest next =
      (b : Binding Literal) (out : List (Binding Literal))
      → ((o : Binding Literal) → Rest b o → P o)
      → All P out
      → All P (next b out)

  scan-Adds :
      (P : Binding Literal → Type 0) (Rest : Binding Literal → Binding Literal → Type 0)
      (next : Next Literal) (p : PatTriple Literal) (b : Binding Literal)
      (ts : List (Triple Literal)) (out : List (Binding Literal))
      → Adds P Rest next
      → ((o : Binding Literal) → Any (Step Rest p b o) ts → P o)
      → All P out
      → All P (scan next p b ts out)
  unfolding scan
  scan-Adds P Rest next p b [] out adds h a = a
  scan-Adds P Rest next p b (t ∷ ts) out adds h a =
      scan-Adds P Rest next p b ts (continue_with (unify_triple p t b) next out) adds
        (λ o later. h o (inr later))
        (elim (Option-cases (unify_triple p t b)) [
          | inl e ↦ rw e a
          | inr (b', e) ↦ rw e (adds b' out (λ o r. h o (inl (b', e, r))) a)
        ])

  push_distinct-All :
      (P : Binding Literal → Type 0) (b : Binding Literal) (out : List (Binding Literal))
      → P b
      → All P out
      → All P (push_distinct out b)
  unfolding push_distinct
  push_distinct-All P b out p a = elim (Bool-cases (any (λ o. map_eq o b) out)) [
    | inl y ↦ rw y a
    | inr n ↦ rw n (All-append P out (b ∷ []) a (p, tt))
  ]

  pub solve_from-Adds :
      (P : Binding Literal → Type 0) (ps : List (PatTriple Literal)) (graph : List (Triple Literal))
      (b : Binding Literal) (out : List (Binding Literal))
      → ((o : Binding Literal) → Leads ps graph b o → P o)
      → All P out
      → All P (solve_from ps graph b out)
  unfolding solve_from
  solve_from-Adds P [] graph b out h a = push_distinct-All P b out (h b refl) a
  solve_from-Adds P (p ∷ ps) graph b out h a =
      scan-Adds P (Leads ps graph) (solve_from ps graph) p b graph out (solve_from-Adds P ps graph)
        h a

  push_distinct-Keeps-Any :
      (Q : Binding Literal → Type 0) → Keeps (Any Q) (λ b out. push_distinct out b)
  unfolding push_distinct
  push_distinct-Keeps-Any Q b out h = elim (Bool-cases (any (λ o. map_eq o b) out)) [
    | inl y ↦ rw y h
    | inr n ↦ rw n (Any-append_left Q out (b ∷ []) h)
  ]

  -- What is led to is found, if what equals it as a map serves as well.
  abbrev Finds : (Binding Literal → Type 0) → (Binding Literal → Type 0) → Next Literal → Type 0
  Finds Q Rest next =
      (b : Binding Literal) (out : List (Binding Literal)) → Rest b → Any Q (next b out)

  scan-Finds :
      (Q : Binding Literal → Type 0) (Rest : Binding Literal → Binding Literal → Type 0)
      (next : Next Literal) (p : PatTriple Literal) (b o : Binding Literal)
      (ts : List (Triple Literal)) (out : List (Binding Literal))
      → Finds Q (λ b'. Rest b' o) next
      → Keeps (Any Q) next
      → Any (Step Rest p b o) ts
      → Any Q (scan next p b ts out)
  unfolding scan
  scan-Finds Q Rest next p b o [] out finds keeps h = absurd h
  scan-Finds Q Rest next p b o (t ∷ ts) out finds keeps (inl (b', e, r)) =
      scan-Keeps (Any Q) next p b ts (continue_with (unify_triple p t b) next out) keeps
        (rw e (finds b' out r))
  scan-Finds Q Rest next p b o (t ∷ ts) out finds keeps (inr h) =
      scan-Finds Q Rest next p b o ts (continue_with (unify_triple p t b) next out) finds keeps h

  Any-any :
      (Q : Binding Literal → Type 0) (test : Binding Literal → Bool) (out : List (Binding Literal))
      → ((x : Binding Literal) → test x ≡ true → Q x)
      → any test out ≡ true
      → Any Q out
  Any-any Q test [] h e = absurd (cc e)
  Any-any Q test (x ∷ out) h e = elim ((||_iff (test x) (any test out)).0 e) [
    | inl y ↦ inl (h x y)
    | inr later ↦ inr (Any-any Q test out h later)
  ]

  pub solve_from-Finds :
      (Q : Binding Literal → Type 0) (o : Binding Literal)
      → Q o
      → ((x : Binding Literal) → map_eq x o ≡ true → Q x)
      → (ps : List (PatTriple Literal)) (graph : List (Triple Literal)) (b : Binding Literal)
        (out : List (Binding Literal))
      → Leads ps graph b o
      → Any Q (solve_from ps graph b out)
  unfolding solve_from push_distinct
  solve_from-Finds Q o q like [] graph b out h = elim (Bool-cases (any (λ x. map_eq x b) out)) [
    | inl y ↦ rw y (Any-any Q (λ x. map_eq x b) out (λ x e. like x (rw h e)) y)
    | inr n ↦ rw n (Any-append_right Q out (b ∷ []) (inl (rw (← h) q)))
  ]
  solve_from-Finds Q o q like (p ∷ ps) graph b out h =
      scan-Finds Q (Leads ps graph) (solve_from ps graph) p b o graph out
        (solve_from-Finds Q o q like ps graph)
        (solve_from-Keeps (Any Q) (push_distinct-Keeps-Any Q) ps graph) h
