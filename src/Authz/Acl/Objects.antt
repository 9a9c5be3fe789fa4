-- ===== src/Authz/Acl/Objects.antt =====
-- src/authz/acl.rs: the objects that a rule lists, and the statements of a document.
use mathlib.Core.Path.{subst}
use mathlib.Core.Option.{some-injective}
use solid_server_rs.Prelude.{
  ◌≡◌, refl, sym, ◌↔◌, ◌⊎◌, inl, inr, Bool, true, Option, none, some, List, [], ◌∷◌, Str, str_eq,
  str_eq_iff, any, any_iff, Any, Bool-cases, Option-cases, arith,
}
use solid_server_rs.Authz.Mode.{AccessMode, acl_iri, from_acl_iri}
use solid_server_rs.Authz.Mode.Laws.{from_acl_iri-eq-some_iff}
use solid_server_rs.Authz.Acl.{
  Subject, named, blank, Term, named_node, other, Triple, subject_eq, Requester, is_authenticated,
  object_iri, named_objects, origin_allowed, modes_of,
}

pub subject_eq_iff : (s t : Subject) → (subject_eq s t ≡ true) ↔ (s ≡ t)
unfolding subject_eq
subject_eq_iff (named s) (named t) = ground (arith, str_eq_iff s t)
subject_eq_iff (named s) (blank t) = ground arith
subject_eq_iff (blank s) (named t) = ground arith
subject_eq_iff (blank s) (blank t) = ground (arith, str_eq_iff s t)

abbrev pub States : Triple → Subject → Str → Str → Type 0
States t s p o = (t.subject ≡ s) × (t.predicate ≡ p) × (t.object ≡ named_node o)

-- The document states a triple whose object is a named node.
abbrev pub Says : List Triple → Subject → Str → Str → Type 0
Says triples s p o = Any (λ t. States t s p o) triples

Term-cases : (o : Term) → ((iri : Str) × (o ≡ named_node iri)) ⊎ (object_iri o ≡ none)
Term-cases (named_node iri) = inl (iri, refl)
Term-cases (other s) = inr refl

-- One triple adds its object, or states nothing that is asked for.
named_objects-cons :
    (t : Triple) (ts : List Triple) (s : Subject) (p : Str)
    → ((named_objects (t ∷ ts) s p ≡ named_objects ts s p) × ((o : Str) → ¬ States t s p o))
      ⊎ ((o : Str) × States t s p o × (named_objects (t ∷ ts) s p ≡ o ∷ named_objects ts s p))
unfolding named_objects
named_objects-cons t ts s p =
    let sub = subject_eq_iff t.subject s in
    let pre = str_eq_iff t.predicate p in
    elim (Bool-cases (subject_eq t.subject s)) [
      | inr n ↦ inl (rw n refl, λ o h. ground (arith, sub))
      | inl y ↦ elim (Bool-cases (str_eq t.predicate p)) [
        | inr n ↦ inl (rw (y, n) refl, λ o h. ground (arith, pre))
        | inl z ↦ elim (Term-cases t.object) [
          | inl (iri, e) ↦ inr (iri, (sub.0 y, pre.0 z, e), rw (y, z, e) refl)
          | inr e ↦ inl (rw (y, z, e) refl, λ o h. ground arith)
        ]
      ]
    ]

pub named_objects-to :
    (Q : Str → Type 0) (ts : List Triple) (s : Subject) (p : Str)
    → Any Q (named_objects ts s p)
    → (o : Str) × Says ts s p o × Q o
unfolding named_objects
named_objects-to Q [] s p h = absurd h
named_objects-to Q (t ∷ ts) s p h =
    let ih = named_objects-to Q ts s p in
    elim (named_objects-cons t ts s p) [
      | inl (same, _) ↦ let (o, says, q) = ih (subst (Any Q) same h) in (o, inr says, q)
      | inr (o, states, more) ↦ first ih o states (subst (Any Q) more h)
    ]
  where
    first :
        (Any Q (named_objects ts s p) → (o : Str) × Says ts s p o × Q o)
        → (o : Str) → States t s p o
        → Q o ⊎ Any Q (named_objects ts s p)
        → (o : Str) × Says (t ∷ ts) s p o × Q o
    first ih o states (inl q) = (o, inl states, q)
    first ih o states (inr h) = let (o', says, q) = ih h in (o', inr says, q)

pub named_objects-from :
    (Q : Str → Type 0) (ts : List Triple) (s : Subject) (p o : Str)
    → Says ts s p o
    → Q o
    → Any Q (named_objects ts s p)
unfolding named_objects
named_objects-from Q [] s p o h q = absurd h
named_objects-from Q (t ∷ ts) s p o (inl states) q = elim (named_objects-cons t ts s p) [
  | inl (same, never) ↦ absurd (never o states)
  | inr (o', states', more) ↦ let e : o ≡ o' = cc in subst (Any Q) (sym more) (inl (subst Q e q))
]
named_objects-from Q (t ∷ ts) s p o (inr h) q =
    let rest = named_objects-from Q ts s p o h q in
    elim (named_objects-cons t ts s p) [
      | inl (same, _) ↦ subst (Any Q) (sym same) rest
      | inr (_, _, more) ↦ subst (Any Q) (sym more) (inr rest)
    ]

-- What is asked of the objects of a property is asked of what the document says.
pub any-named_objects_iff :
    (q : Str → Bool) (Q : Str → Type 0)
    → ((x : Str) → (q x ≡ true) ↔ Q x)
    → (ts : List Triple) (s : Subject) (p : Str)
    → (any q (named_objects ts s p) ≡ true) ↔ ((o : Str) × Says ts s p o × Q o)
any-named_objects_iff q Q h ts s p =
    let (to, from) = any_iff q h (named_objects ts s p) in
    (λ e. named_objects-to Q ts s p (to e), λ t. from (named_objects-from Q ts s p t.0 t.1 t.2))

pub Says-iff :
    (ts : List Triple) (s : Subject) (p o : Str)
    → (any (λ a. str_eq a o) (named_objects ts s p) ≡ true) ↔ Says ts s p o
Says-iff ts s p o =
    let (to, from) =
      any-named_objects_iff (λ a. str_eq a o) (λ a. a ≡ o) (λ a. str_eq_iff a o) ts s p in
    (λ e. let (a, says, same) = to e in subst (Says ts s p) same says, λ h. from (o, h, refl))

pub origin_allowed_iff :
    (allowed : List Str) (origin : Option Str)
    → (origin_allowed allowed origin ≡ true)
      ↔ ((allowed ≡ []) ⊎ ((o : Str) × (origin ≡ some o) × (any (λ a. str_eq a o) allowed ≡ true)))
origin_allowed_iff [] origin = (λ _. inl refl, λ _. refl)
origin_allowed_iff (a ∷ allowed) none = ground arith
origin_allowed_iff (a ∷ allowed) (some o) = (
  λ h. inr (o, refl, h),
  λ h. elim h [
    | inl empty ↦ absurd (cc empty)
    | inr (o', same, found) ↦
        subst (λ x. any (λ c. str_eq c x) (a ∷ allowed) ≡ true) (sym (some-injective _ _ same))
          found
  ],
)

pub modes_of-to :
    (iris : List Str) (m : AccessMode)
    → Any (λ n. n ≡ m) (modes_of iris)
    → Any (λ iri. iri ≡ acl_iri m) iris
unfolding modes_of
modes_of-to [] m h = absurd h
modes_of-to (iri ∷ iris) m h =
    let ih = modes_of-to iris m in
    elim (Option-cases (from_acl_iri iri)) [
      | inl unknown ↦ inr (ih (rw unknown at h))
      | inr (n, known) ↦
          let h' : (n ≡ m) ⊎ Any (λ n. n ≡ m) (modes_of iris) = rw known at h in
          elim h' [
            | inl e ↦ inl ((from_acl_iri-eq-some_iff iri m).0 (rw (← e) known))
            | inr later ↦ inr (ih later)
          ]
    ]

pub modes_of-from :
    (iris : List Str) (m : AccessMode)
    → Any (λ iri. iri ≡ acl_iri m) iris
    → Any (λ n. n ≡ m) (modes_of iris)
unfolding modes_of
modes_of-from [] m h = absurd h
modes_of-from (iri ∷ iris) m (inl e) = rw ((from_acl_iri-eq-some_iff iri m).1 e) (inl refl)
modes_of-from (iri ∷ iris) m (inr h) =
    let ih = modes_of-from iris m h in
    elim (Option-cases (from_acl_iri iri)) [
      | inl unknown ↦ rw unknown ih
      | inr (n, known) ↦ rw known (inr ih)
    ]

pub authenticated_iff :
    (r : Requester) → (is_authenticated r ≡ true) ↔ ((w : Str) × (r.web_id ≡ some w))
unfolding is_authenticated
authenticated_iff r = (λ h. ground arith, λ h. rw h.1 refl)
