-- ===== src/Ldp/Patch/Terms.antt =====
-- src/ldp/patch.rs: the terms of triples and of triple patterns. The data of oxrdf are its terms, with
-- the literals left to that library; quoted triples belong to another build.
use solid_server_rs.Prelude.{
  ◌≡◌, ◌↔◌, Bool, true, false, ◌&&◌, List, Str, str_eq, str_eq_iff, codes, ◌++◌, arith,
}
use solid_server_rs.Collections.{Eq}

pub data NamedOrBlankNode : Type 0 where
  named blank : Str → NamedOrBlankNode

pub data Term (Literal : Type 0) : Type 0 where
  named_node blank_node : Str → Term Literal
  literal : Literal → Term Literal

pub record Triple (Literal : Type 0) : Type 0 where
  pub subject : NamedOrBlankNode
  pub predicate : Str
  pub object : Term Literal

-- a concrete term, a SPARQL variable, or a blank node of the `where` formula
pub data PatTerm (Literal : Type 0) : Type 0 where
  term : Term Literal → PatTerm Literal
  var : Str → PatTerm Literal
  where_blank : Str → PatTerm Literal

pub record PatTriple (Literal : Type 0) : Type 0 where
  pub subject : PatTerm Literal
  pub predicate : PatTerm Literal
  pub object : PatTerm Literal

pub record N3Patch (Literal : Type 0) : Type 0 where
  pub conditions : List (PatTriple Literal)
  pub deletes : List (PatTriple Literal)
  pub inserts : List (PatTriple Literal)

unfoldable pub node_eq : NamedOrBlankNode → NamedOrBlankNode → Bool
node_eq (named s) (named t) = str_eq s t
node_eq (blank s) (blank t) = str_eq s t
node_eq _ _ = false

pub node_eq_iff : (s t : NamedOrBlankNode) → (node_eq s t ≡ true) ↔ (s ≡ t)
unfolding node_eq
node_eq_iff (named s) (named t) = ground (arith, str_eq_iff s t)
node_eq_iff (named s) (blank t) = ground arith
node_eq_iff (blank s) (named t) = ground arith
node_eq_iff (blank s) (blank t) = ground (arith, str_eq_iff s t)

module _ {Literal : Type 0} ⦃same : Eq Literal⦄ where
  unfoldable pub term_eq : Term Literal → Term Literal → Bool
  term_eq (named_node s) (named_node t) = str_eq s t
  term_eq (blank_node s) (blank_node t) = str_eq s t
  term_eq (literal s) (literal t) = same.beq s t
  term_eq _ _ = false

  pub term_eq_iff : (s t : Term Literal) → (term_eq s t ≡ true) ↔ (s ≡ t)
  unfolding term_eq
  term_eq_iff (named_node s) (named_node t) = ground (arith, str_eq_iff s t)
  term_eq_iff (named_node s) (blank_node t) = ground arith
  term_eq_iff (named_node s) (literal t) = ground arith
  term_eq_iff (blank_node s) (named_node t) = ground arith
  term_eq_iff (blank_node s) (blank_node t) = ground (arith, str_eq_iff s t)
  term_eq_iff (blank_node s) (literal t) = ground arith
  term_eq_iff (literal s) (named_node t) = ground arith
  term_eq_iff (literal s) (blank_node t) = ground arith
  term_eq_iff (literal s) (literal t) = ground (arith, same.beq_iff s t)

  unfoldable pub triple_eq : Triple Literal → Triple Literal → Bool
  unfolding node_eq term_eq
  triple_eq s t =
      node_eq s.subject t.subject && str_eq s.predicate t.predicate && term_eq s.object t.object

  pub triple_eq_iff : (s t : Triple Literal) → (triple_eq s t ≡ true) ↔ (s ≡ t)
  unfolding triple_eq
  triple_eq_iff s t = ground (
    arith,
    node_eq_iff s.subject t.subject,
    str_eq_iff s.predicate t.predicate,
    term_eq_iff s.object t.object,
  )

module _ {Literal : Type 0} where
  unfoldable pub subject_as_term : NamedOrBlankNode → Term Literal
  subject_as_term (named n) = named_node n
  subject_as_term (blank b) = blank_node b

  unfoldable pub binding_key : PatTerm Literal → Str
  binding_key (var v) = v
  binding_key (where_blank label) = codes "_: " ++ label
  binding_key (term t) = codes ""
