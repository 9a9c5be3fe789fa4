-- ===== src/Ldp/Patch/Solve/Unify.antt =====
-- src/ldp/patch.rs: unification of one pattern with one triple, against mappings as functions.
use mathlib.Core.Option.{some-injective}
use solid_server_rs.Prelude.{
  ◌≡◌, refl, sym, ◌∙◌, ap, ◌⊎◌, inl, inr, Option, none, some, Str, codes, ◌++◌, str_eq, str_eq_iff,
  Bool-cases, Option-cases,
}
use solid_server_rs.Collections.{Eq, get, insert, str_key}
use solid_server_rs.Collections.Laws.{get-insert, get-insert_cases}
use solid_server_rs.Collections.Distinct.{IsDistinct, insert-IsDistinct}
use solid_server_rs.Ldp.Patch.Terms.{
  Term, named_node, Triple, PatTerm, term, var, where_blank, PatTriple, term_eq, term_eq_iff,
  subject_as_term,
}
use solid_server_rs.Ldp.Patch.Solve.{Binding, bind, unify_term, unify_triple, ◌>>=◌}

pub >>=-eq-some :
    {A B : Type 0} (m : Option A) (f : A → Option B) {b : B}
    → (m >>= f) ≡ some b
    → (a : A) × (m ≡ some a) × (f a ≡ some b)
>>=-eq-some none f h = absurd (cc h)
>>=-eq-some (some a) f h = (a, refl, h)

-- A mapping of names to terms; the names of blank nodes are prefixed as in the code.
abbrev pub Mapping : Type 0 → Type 0
Mapping Literal = Str → Option (Term Literal)

module _ {Literal : Type 0} where
  abbrev pub value : Mapping Literal → PatTerm Literal → Option (Term Literal)
  value m (term t) = some t
  value m (var v) = m v
  value m (where_blank label) = m (codes "_: " ++ label)

  -- the term is a name, and is spelled so in a mapping
  abbrev pub Names : Str → PatTerm Literal → Type 0
  Names k (term t) = ⊥
  Names k (var v) = k ≡ v
  Names k (where_blank label) = k ≡ codes "_: " ++ label

  abbrev pub NamesIn : Str → PatTriple Literal → Type 0
  NamesIn k p = Names k p.subject ⊎ Names k p.predicate ⊎ Names k p.object

  -- Under the mapping, the pattern is the triple.
  abbrev pub Matches : Mapping Literal → PatTriple Literal → Triple Literal → Type 0
  Matches m p t =
      (value m p.subject ≡ some (subject_as_term t.subject))
      × (value m p.predicate ≡ some (named_node t.predicate))
      × (value m p.object ≡ some t.object)

  abbrev pub Extends : Mapping Literal → Mapping Literal → Type 0
  Extends m n = (k : Str) (t : Term Literal) → m k ≡ some t → n k ≡ some t

  abbrev pub reads : Binding Literal → Mapping Literal
  reads b k = get k b

  pub value-Extends :
      (m n : Mapping Literal) (p : PatTerm Literal) (t : Term Literal)
      → Extends m n
      → value m p ≡ some t
      → value n p ≡ some t
  value-Extends m n (term u) t h e = e
  value-Extends m n (var v) t h e = h v t e
  value-Extends m n (where_blank l) t h e = h (codes "_: " ++ l) t e

  pub value-Names :
      (m : Mapping Literal) (k : Str) (p : PatTerm Literal) → Names k p → value m p ≡ m k
  value-Names m k (term t) h = absurd h
  value-Names m k (var v) h = ap m (sym h)
  value-Names m k (where_blank l) h = ap m (sym h)

module _ {Literal : Type 0} ⦃same : Eq Literal⦄ where
  -- what a step from one binding to the next does, with the names that it may add
  pub record Grows (b b' : Binding Literal) (Added : Str → Type 0) : Type 0 where
    pub kept : Extends (reads b) (reads b')
    pub added : (k : Str) (t : Term Literal) → get k b' ≡ some t → (get k b ≡ some t) ⊎ Added k
    pub distinct : IsDistinct b → IsDistinct b'

  bind_lem :
      (key : Str) (c : Term Literal) (b b' : Binding Literal)
      → bind (get key b) key c b ≡ some b'
      → (get key b' ≡ some c) × Grows b b' (λ k. k ≡ key)
  bind_lem key c b b' h = elim (Option-cases (get key b)) [
    | inr (already, e) ↦ elim (Bool-cases (term_eq already c)) [
      | inr n ↦ absurd (cc (rw n at (rw e at h)))
      | inl y ↦
          let there : b ≡ b' = some-injective b b' (rw y at (rw e at h)) in
          let is_c : already ≡ c = (term_eq_iff already c).0 y in
          rw (← there) (
            e ∙ ap some is_c,
            record { kept = λ k t p. p; added = λ k t p. inl p; distinct = λ d. d },
          )
    ]
    | inl e ↦
        let there : insert key c b ≡ b' = some-injective (insert key c b) b' (rw e at h) in
        rw (← there) (
          rw (get-insert key key c b, (str_eq_iff key key).1 refl) refl,
          record {
            kept = λ k t p. elim (Bool-cases (str_eq key k)) [
              | inl y ↦ absurd (cc (ap (λ (i : Str). get i b) ((str_eq_iff key k).0 y), e, p))
              | inr n ↦ rw (get-insert key k c b, n) p
            ];
            added = λ k t p. elim (get-insert_cases key k c t b p) [
              | inl (e, _) ↦ inr (sym e)
              | inr (_, old) ↦ inl old
            ];
            distinct = λ d. insert-IsDistinct key c b d;
          },
        )
  ]

  pub unify_term_sound :
      (p : PatTerm Literal) (c : Term Literal) (b b' : Binding Literal)
      → unify_term p c b ≡ some b'
      → (value (reads b') p ≡ some c) × Grows b b' (λ k. Names k p)
  unfolding unify_term
  unify_term_sound (term t) c b b' h = elim (Bool-cases (term_eq t c)) [
    | inr n ↦ absurd (cc (rw n at h))
    | inl y ↦
        let there : b ≡ b' = some-injective b b' (rw y at h) in
        rw (← there) (
          ap some ((term_eq_iff t c).0 y),
          record { kept = λ k t p. p; added = λ k t p. inl p; distinct = λ d. d },
        )
  ]
  unify_term_sound (var v) c b b' h = bind_lem v c b b' h
  unify_term_sound (where_blank l) c b b' h = bind_lem (codes "_: " ++ l) c b b' h

  bind_complete :
      (m : Mapping Literal) (key : Str) (c : Term Literal) (b : Binding Literal)
      → Extends (reads b) m
      → m key ≡ some c
      → (b' : Binding Literal) × (bind (get key b) key c b ≡ some b') × Extends (reads b') m
  bind_complete m key c b h e = elim (Option-cases (get key b)) [
    | inr (already, found) ↦
        let is_c : already ≡ c = some-injective already c (sym (h key already found) ∙ e) in
        (b, rw (found, (term_eq_iff already c).1 is_c) refl, h)
    | inl fresh ↦ (
      insert key c b,
      rw fresh refl,
      λ k t p. elim (get-insert_cases key k c t b p) [
        | inl (e', e'') ↦ ap m (sym e') ∙ e ∙ ap some e''
        | inr (_, old) ↦ h k t old
      ],
    )
  ]

  pub unify_term_complete :
      (m : Mapping Literal) (p : PatTerm Literal) (c : Term Literal) (b : Binding Literal)
      → Extends (reads b) m
      → value m p ≡ some c
      → (b' : Binding Literal) × (unify_term p c b ≡ some b') × Extends (reads b') m
  unfolding unify_term
  unify_term_complete m (term t) c b h e =
      (b, rw ((term_eq_iff t c).1 (some-injective t c e)) refl, h)
  unify_term_complete m (var v) c b h e = bind_complete m v c b h e
  unify_term_complete m (where_blank l) c b h e = bind_complete m (codes "_: " ++ l) c b h e

  Grows-trans :
      (a b c : Binding Literal) (P Q : Str → Type 0)
      → Grows a b P
      → Grows b c Q
      → Grows a c (λ k. P k ⊎ Q k)
  Grows-trans a b c P Q g h = record {
    kept = λ k t p. h.kept k t (g.kept k t p);
    added = λ k t p. elim (h.added k t p) [
      | inr q ↦ inr (inr q)
      | inl old ↦ elim (g.added k t old) [ inl older ↦ inl older | inr q ↦ inr (inl q) ]
    ];
    distinct = λ d. h.distinct (g.distinct d);
  }

  pub unify_triple_sound :
      (p : PatTriple Literal) (t : Triple Literal) (b b' : Binding Literal)
      → unify_triple p t b ≡ some b'
      → Matches (reads b') p t × Grows b b' (λ k. NamesIn k p)
  unfolding unify_triple
  unify_triple_sound p t b b' h =
      let (b1, e1, h1) = >>=-eq-some (unify_term p.subject (subject_as_term t.subject) b) _ h in
      let (b2, e2, e3) = >>=-eq-some (unify_term p.predicate (named_node t.predicate) b1) _ h1 in
      let (s, g1) = unify_term_sound p.subject (subject_as_term t.subject) b b1 e1 in
      let (q, g2) = unify_term_sound p.predicate (named_node t.predicate) b1 b2 e2 in
      let (o, g3) = unify_term_sound p.object t.object b2 b' e3 in
      let later = Grows-trans b1 b2 b' (λ k. Names k p.predicate) (λ k. Names k p.object) g2 g3 in
      (
        (
          value-Extends (reads b1) (reads b') p.subject _ later.kept s,
          value-Extends (reads b2) (reads b') p.predicate _ g3.kept q,
          o,
        ),
        Grows-trans b b1 b' (λ k. Names k p.subject) (λ k. Names k p.predicate ⊎ Names k p.object)
            g1 later,
      )

  pub unify_triple_complete :
      (m : Mapping Literal) (p : PatTriple Literal) (t : Triple Literal) (b : Binding Literal)
      → Extends (reads b) m
      → Matches m p t
      → (b' : Binding Literal) × (unify_triple p t b ≡ some b') × Extends (reads b') m
  unfolding unify_triple
  unify_triple_complete m p t b h (s, q, o) =
      let (b1, e1, h1) = unify_term_complete m p.subject (subject_as_term t.subject) b h s in
      let (b2, e2, h2) = unify_term_complete m p.predicate (named_node t.predicate) b1 h1 q in
      let (b3, e3, h3) = unify_term_complete m p.object t.object b2 h2 o in
      (b3, rw e1 (rw e2 e3), h3)
