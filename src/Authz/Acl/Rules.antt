-- ===== src/Authz/Acl/Rules.antt =====
-- src/authz/acl.rs: the subjects that are rules, and the union of what they grant.
use solid_server_rs.Prelude.{
  ◌≡◌, sym, ◌≢◌, ◌↔◌, ◌⊎◌, inl, inr, Bool, true, false, List, [], ◌∷◌, ◌++◌, Str, codes, str_eq,
  str_eq_iff, any, any_iff, Any, Bool-cases, arith,
}
use mathlib.Core.Path.{subst}
use solid_server_rs.Authz.Mode.{AccessMode, read, ModeSet, no_modes, contains, insert}
use solid_server_rs.Authz.Mode.Laws.{contains-insert}
use solid_server_rs.Authz.Acl.{
  Subject, Term, named_node, other, Triple, subject_eq, acl_term, rdf_type, term_is, subjects_from,
  note_subject, insert_all,
}
use solid_server_rs.Authz.Acl.Objects.{subject_eq_iff, Says, States}

pub false-true : {b : Bool} → b ≡ false → b ≡ true → ⊥
false-true f t = cc

subject_known :
    (s : Subject) (l : List Subject) → (any (subject_eq s) l ≡ true) ↔ Any (λ x. x ≡ s) l
subject_known s l =
    any_iff (subject_eq s)
      (λ x. (λ h. sym ((subject_eq_iff s x).0 h), λ e. (subject_eq_iff s x).1 (sym e))) l

Any-append_iff {ℓ} :
    {A : Type ℓ} (P : A → Type 0) (xs ys : List A) → Any P (xs ++ ys) ↔ (Any P xs ⊎ Any P ys)
Any-append_iff P [] ys = (λ h. inr h, λ h. elim h [ inl x ↦ absurd x | inr y ↦ y ])
Any-append_iff P (x ∷ xs) ys = let (to, from) = Any-append_iff P xs ys in ground (arith, to, from)

abbrev pub authorization : Str
authorization = acl_term (codes "Authorization")

term_is_iff : (o : Term) (iri : Str) → (term_is o iri ≡ true) ↔ (o ≡ named_node iri)
term_is_iff (named_node s) iri = ground (arith, str_eq_iff s iri)
term_is_iff (other s) iri = ground arith

note_subject_iff :
    (l : List Subject) (t : Triple) (s : Subject)
    → Any (λ x. x ≡ s) (note_subject l t) ↔ (Any (λ x. x ≡ s) l ⊎ States t s rdf_type authorization)
unfolding note_subject
note_subject_iff l t s =
    let pre = str_eq_iff t.predicate rdf_type in
    let obj = term_is_iff t.object authorization in
    let (known_to, known_from) = subject_known t.subject l in
    elim (Bool-cases (str_eq t.predicate rdf_type)) [
      | inr n ↦ rw n (inl, elim [ inl h ↦ h | inr states ↦ absurd (ground (arith, pre)) ])
      | inl y ↦ elim (Bool-cases (term_is t.object authorization)) [
        | inr n ↦ rw (y, n) (inl, elim [ inl h ↦ h | inr states ↦ absurd (ground (arith, obj)) ])
        | inl z ↦ elim (Bool-cases (any (subject_eq t.subject) l)) [
          | inl old ↦
              rw (y, z, old)
                (
                  inl,
                  elim [
                    | inl h ↦ h
                    | inr (e, _, _) ↦ subst (λ v. Any (λ x. x ≡ v) l) e (known_to old)
                  ],
                )
          | inr new ↦
              let (to, from) = Any-append_iff (λ x. x ≡ s) l (t.subject ∷ []) in
              rw (y, z, new)
                (
                  λ h. elim (to h) [
                    | inl h ↦ inl h
                    | inr (inl e) ↦ inr (e, pre.0 y, obj.0 z)
                    | inr (inr none_left) ↦ absurd none_left
                  ],
                  λ h. from (elim h [ inl h ↦ inl h | inr (e, _, _) ↦ inr (inl e) ]),
                )
        ]
      ]
    ]

pub subjects_from_iff :
    (l : List Subject) (ts : List Triple) (s : Subject)
    → Any (λ x. x ≡ s) (subjects_from l ts)
      ↔ (Any (λ x. x ≡ s) l ⊎ Says ts s rdf_type authorization)
unfolding subjects_from
subjects_from_iff l [] s = (inl, elim [ inl h ↦ h | inr h ↦ absurd h ])
subjects_from_iff l (t ∷ ts) s =
    let (to, from) = subjects_from_iff (note_subject l t) ts s in
    let (here, back) = note_subject_iff l t s in
    (
      λ h. elim (to h) [
        | inl noted ↦ elim (here noted) [ inl old ↦ inl old | inr states ↦ inr (inl states) ]
        | inr later ↦ inr (inr later)
      ],
      λ h. from (elim h [
        | inl old ↦ inl (back (inl old))
        | inr (inl states) ↦ inl (back (inr states))
        | inr (inr later) ↦ inr later
      ]),
    )

pub insert_all_iff :
    (g : ModeSet) (ms : List AccessMode) (m : AccessMode)
    → (contains (insert_all g ms) m ≡ true) ↔ ((contains g m ≡ true) ⊎ Any (λ n. n ≡ m) ms)
insert_all_iff g [] m = (inl, elim [ inl h ↦ h | inr h ↦ absurd h ])
insert_all_iff g (n ∷ ms) m =
    let (to, from) = insert_all_iff (insert g n) ms m in
    let (here, back) = contains-insert g n m in
    (
      λ h. elim (to h) [
        | inl now ↦ elim (here now) [ inl e ↦ inr (inl e) | inr old ↦ inl old ]
        | inr later ↦ inr (inr later)
      ],
      λ h. from (elim h [
        | inl old ↦ inl (back (inr old))
        | inr (inl e) ↦ inl (back (inl e))
        | inr (inr later) ↦ inr later
      ]),
    )

pub contains-no_modes : (m : AccessMode) → contains no_modes m ≢ true
contains-no_modes read = cc
contains-no_modes _ = cc
