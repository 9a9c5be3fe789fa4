-- ===== src/Ldp/Patch/Sparql/Ground.antt =====
-- src/ldp/patch.rs: what a parsed SPARQL Update holds.
use mathlib.Core.Option
use mathlib.Core.Path.{subst}
use mathlib.Core.Option.{some-injective}
use solid_server_rs.Prelude.{
  ℕ, suc, zero, ◌≡◌, refl, ◌∙◌, inl, inr, Bool, true, false, not, ◌&&◌, Option, none, some, List,
  [], ◌∷◌, ◌++◌, Str, codes, All, Any, All-append, Bool-cases, Option-cases, length,
  to_ascii_lowercase, to_ascii_lowercase,
}
use solid_server_rs.Error.{Result, ok, err}
use solid_server_rs.Error.Results.{>>=-eq-ok, ok-injective, guard, collect-All}
use solid_server_rs.Ldp.Patch.Terms.{Triple, PatTerm, term, var, where_blank, PatTriple, N3Patch}
use solid_server_rs.Ldp.Patch.Solve.Unify.{Names, NamesIn}
use solid_server_rs.Ldp.Patch.Apply.Instances.{NotBlank, IsTemplate}
use solid_server_rs.Ldp.Patch.Apply.Outcome.{IsWellFormed}
use solid_server_rs.Ldp.Patch.N3.{Parser, check_base, item, is_empty}
use solid_server_rs.Ldp.Patch.Sparql.{
  skip, skip_separator, is_prologue, verb, group, Update, operation, extend, concrete,
  parse_to_concrete_triples, round, rounds, unless_done, unless_refused, finish, empty_update,
  parse_text, from_utf8, parse_sparql_update,
}

module _ {Literal : Type 0} where
  abbrev pub IsTerm : PatTerm Literal → Type 0
  IsTerm (term t) = Unit
  IsTerm (var v) = ⊥
  IsTerm (where_blank label) = ⊥

  -- A pattern without variables and without blank nodes of a formula.
  abbrev pub IsGround : PatTriple Literal → Type 0
  IsGround p = IsTerm p.subject × IsTerm p.predicate × IsTerm p.object

  IsTerm-NotBlank : (p : PatTerm Literal) → IsTerm p → NotBlank p
  IsTerm-NotBlank (term t) h = tt
  IsTerm-NotBlank (var v) h = tt
  IsTerm-NotBlank (where_blank l) h = h

  IsTerm-Names : (k : Str) (p : PatTerm Literal) → IsTerm p → Names k p → ⊥
  IsTerm-Names k (term t) h n = n
  IsTerm-Names k (var v) h n = h
  IsTerm-Names k (where_blank l) h n = h

  IsGround-IsTemplate : (ps : List (PatTriple Literal)) → All IsGround ps → All IsTemplate ps
  IsGround-IsTemplate [] h = tt
  IsGround-IsTemplate (p ∷ ps) ((s, q, o), h) = (
    (IsTerm-NotBlank p.subject s, IsTerm-NotBlank p.predicate q, IsTerm-NotBlank p.object o),
    IsGround-IsTemplate ps h,
  )

  IsGround-no_names :
      (k : Str) (ps : List (PatTriple Literal)) → All IsGround ps → Any (λ p. NamesIn k p) ps → ⊥
  IsGround-no_names k [] h n = n
  IsGround-no_names k (p ∷ ps) (_, h) (inr n) = IsGround-no_names k ps h n
  IsGround-no_names k (p ∷ ps) ((s, q, o), _) (inl n) = elim n [
    | inl i ↦ IsTerm-Names k p.subject s i
    | inr r ↦ elim r [
      | inl i ↦ IsTerm-Names k p.predicate q i
      | inr i ↦ IsTerm-Names k p.object o i
    ]
  ]

  abbrev IsGroundUpdate : Update Literal → Type 0
  IsGroundUpdate u = All IsGround u.deletes × All IsGround u.inserts

  extend-IsGround :
      (u : Update Literal) (d : Bool) (ts : List (PatTriple Literal))
      → IsGroundUpdate u
      → All IsGround ts
      → IsGroundUpdate (extend u d ts)
  extend-IsGround u true ts (ds, is) h = (All-append IsGround u.deletes ts ds h, is)
  extend-IsGround u false ts (ds, is) h = (ds, All-append IsGround u.inserts ts is h)

module _ {Literal : Type 0} (parser : Parser Str (Triple Literal)) (base : Str) where
  parse_to_concrete_triples-IsGround :
      (text : Str) (ts : List (PatTriple Literal))
      → parse_to_concrete_triples parser text base ≡ ok ts
      → All IsGround ts
  unfolding parse_to_concrete_triples concrete
  parse_to_concrete_triples-IsGround text ts h =
      let (_, _, h1) = >>=-eq-ok (check_base parser base) _ h in
      collect-All IsGround _
        (λ i p e.
          let (t, _, e1) = >>=-eq-ok (item (codes "invalid SPARQL-Update DATA triple: ") i) _ e in
          subst (λ (p : PatTriple Literal). IsGround p) (ok-injective _ p e1) (tt, tt, tt))
        (parser.items base text) ts h1

  operation-IsGround :
      (u : Update Literal) (s : Str) (v : Option Bool) (next : Update Literal × Str)
      → IsGroundUpdate u
      → operation parser base u s v ≡ ok next
      → IsGroundUpdate next.0
  operation-IsGround u s none next g h = absurd (cc h)
  operation-IsGround u s (some d) next g h =
      let (found, _, h1) = >>=-eq-ok (group (skip 11 s)) _ h in
      let (ts, e, h2) =
        >>=-eq-ok (parse_to_concrete_triples parser (u.prologue ++ found.0) base) _ h1 in
      subst (λ (next : Update Literal × Str). IsGroundUpdate next.0) (ok-injective _ next h2)
        (extend-IsGround u d ts g (parse_to_concrete_triples-IsGround (u.prologue ++ found.0) ts e))

  round-IsGround :
      (u : Update Literal) (s : Str) (next : Update Literal × Str)
      → IsGroundUpdate u
      → round parser base u s ≡ ok next
      → IsGroundUpdate next.0
  unfolding round
  round-IsGround u s next g h = elim (Bool-cases (is_prologue (to_ascii_lowercase s))) [
    | inr n ↦ operation-IsGround u s (verb (to_ascii_lowercase s)) next g (rw n at h)
    | inl y ↦
        subst (λ (next : Update Literal × Str). IsGroundUpdate next.0)
          (ok-injective _ next (rw y at h)) g
  ]

  -- what the rest of the loop keeps
  abbrev Keeps : Option (Result (Update Literal)) → Type 0
  Keeps o = (u : Update Literal) → o ≡ some (ok u) → IsGroundUpdate u

  unless_refused-Keeps :
      (r : Result (Update Literal × Str))
      (next : Update Literal × Str → Option (Result (Update Literal)))
      → ((n : Update Literal × Str) → r ≡ ok n → Keeps (next n))
      → Keeps (unless_refused r next)
  unless_refused-Keeps (err e) next h u f = absurd (cc f)
  unless_refused-Keeps (ok n) next h u f = h n refl u f

  unless_done-Keeps :
      (u : Update Literal) (t : Str) (next : Str → Option (Result (Update Literal)))
      → IsGroundUpdate u
      → ((t : Str) → Keeps (next t))
      → Keeps (unless_done u t next)
  unless_done-Keeps u [] next g h v f =
      subst (λ (v : Update Literal). IsGroundUpdate v)
        (ok-injective u v (some-injective (ok u) (ok v) f)) g
  unless_done-Keeps u (c ∷ t) next g h v f = h (c ∷ t) v f

  rounds-IsGround :
      (fuel : ℕ) (u : Update Literal) (s : Str)
      → IsGroundUpdate u
      → Keeps (rounds fuel parser base u s)
  unfolding rounds
  rounds-IsGround zero u s g v f = absurd (cc f)
  rounds-IsGround (suc fuel) u s g v f =
      unless_done-Keeps u (skip_separator s) _ g
        (λ t.
          unless_refused-Keeps (round parser base u t) _
            (λ n e. rounds-IsGround fuel n.0 n.1 (round-IsGround u t n g e)))
        v f

  finish-IsGround :
      (r : Result (Update Literal)) (patch : N3Patch Literal)
      → Keeps (some r)
      → finish r ≡ ok patch
      → (patch.conditions ≡ []) × All IsGround patch.deletes × All IsGround patch.inserts
  finish-IsGround (err e) patch k h = absurd (cc h)
  finish-IsGround (ok u) patch k h =
      let (_, _, h1) =
        >>=-eq-ok (guard (u.saw_any && not (is_empty u.inserts && is_empty u.deletes)) _) _ h in
      subst
        (λ (patch : N3Patch Literal).
          (patch.conditions ≡ []) × All IsGround patch.deletes × All IsGround patch.inserts)
        (ok-injective _ patch h1) (refl, (k u refl).0, (k u refl).1)

  -- A SPARQL Update that is parsed has no conditions, and neither variables nor blank nodes of a formula
  -- in its templates: it is well-formed.
  pub parse_sparql_update-IsWellFormed :
      (body : List ℕ) (patch : N3Patch Literal)
      → parse_sparql_update parser body base ≡ some (ok patch)
      → (patch.conditions ≡ [])
        × All IsGround patch.deletes
        × All IsGround patch.inserts
        × IsWellFormed patch
  unfolding parse_sparql_update
  parse_sparql_update-IsWellFormed body patch h = elim (Option-cases (from_utf8 body)) [
    | inl e ↦ absurd (cc (rw (e, parse_text) at h))
    | inr (text, e) ↦
        let h' : Option.map finish (rounds (suc (length text)) parser base empty_update text)
            ≡ some (ok patch) =
          rw (e, parse_text) at h in
        let (r, er, ef) =
          (Option.map-eq-some_iff finish
              (rounds (suc (length text)) parser base empty_update text)).0
            h' in
        let kept = rounds-IsGround (suc (length text)) empty_update text (tt, tt) in
        let (none_there, ds, is) = finish-IsGround r patch (λ u f. kept u (er ∙ f)) ef in
        (
          none_there,
          ds,
          is,
          record {
            deletes_plain = IsGround-IsTemplate patch.deletes ds;
            inserts_plain = IsGround-IsTemplate patch.inserts is;
            deletes_named = λ k n. absurd (IsGround-no_names k patch.deletes ds n);
            inserts_named = λ k n. absurd (IsGround-no_names k patch.inserts is n);
          },
        )
  ]
