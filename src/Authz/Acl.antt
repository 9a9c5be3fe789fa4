-- ===== src/Authz/Acl.antt =====
-- src/authz/acl.rs: the modes that one parsed ACL document grants.
-- A triple of oxrdf is its three terms; of an object only a named node is ever looked into.
pub mod Objects
pub mod Grants
pub mod Rules
pub mod Engine
use solid_server_rs.Prelude.{
  Bool, true, false, not, ◌&&◌, ◌||◌, Option, none, some, List, [], ◌∷◌, ◌++◌, Str, codes, str_eq,
  any, is_some, if◌then◌else◌,
}
use solid_server_rs.Authz.Mode.{
  AccessMode, write, append, from_acl_iri, ModeSet, no_modes, contains, insert,
}

pub data Subject : Type 0 where
  named blank : Str → Subject

-- `other` is a blank node or a literal.
pub data Term : Type 0 where
  named_node other : Str → Term

pub record Triple : Type 0 where
  pub subject : Subject
  pub predicate : Str
  pub object : Term

unfoldable pub subject_eq : Subject → Subject → Bool
subject_eq (named s) (named t) = str_eq s t
subject_eq (blank s) (blank t) = str_eq s t
subject_eq _ _ = false

-- `acl_iri`
unfoldable pub acl_term : Str → Str
acl_term local = codes "http://www.w3.org/ns/auth/acl#" ++ local

abbrev pub rdf_type : Str
rdf_type = codes "http://www.w3.org/1999/02/22-rdf-syntax-ns#type"

abbrev pub foaf_agent : Str
foaf_agent = codes "http://xmlns.com/foaf/0.1/Agent"

pub data AclScope : Type 0 where
  access_to default : AclScope

pub record Requester : Type 0 where
  pub web_id : Option Str
  pub origin : Option Str

unfoldable pub anonymous : Requester
anonymous = record { web_id = none; origin = none }

unfoldable pub authenticated : Str → Requester
authenticated web_id = record { web_id = some web_id; origin = none }

unfoldable pub is_authenticated : Requester → Bool
unfolding is_some
is_authenticated r = is_some r.web_id

-- the object of a triple, if it is a named node
abbrev pub object_iri : Term → Option Str
object_iri (named_node iri) = some iri
object_iri (other _) = none

abbrev pub term_is : Term → Str → Bool
term_is (named_node iri) s = str_eq iri s
term_is (other _) s = false

-- one round of the loop of `authorization_subjects`, and the loop
unfoldable pub note_subject : List Subject → Triple → List Subject
note_subject subjects t =
    if str_eq t.predicate rdf_type
    then (if term_is t.object (acl_term (codes "Authorization"))
        then (if any (subject_eq t.subject) subjects then subjects else subjects ++ t.subject ∷ [])
        else subjects)
    else subjects

unfoldable pub subjects_from : List Subject → List Triple → List Subject
subjects_from subjects [] = subjects
subjects_from subjects (t ∷ ts) = subjects_from (note_subject subjects t) ts

unfoldable pub authorization_subjects : List Triple → List Subject
unfolding note_subject subjects_from
authorization_subjects triples = subjects_from [] triples

abbrev cons_some : Option Str → List Str → List Str
cons_some none out = out
cons_some (some iri) out = iri ∷ out

unfoldable pub named_objects : List Triple → Subject → Str → List Str
named_objects [] subject predicate = []
named_objects (t ∷ ts) subject predicate =
    let out = named_objects ts subject predicate in
    if subject_eq t.subject subject
    then (if str_eq t.predicate predicate then cons_some (object_iri t.object) out else out)
    else out

abbrev scope_predicates : AclScope → List Str
scope_predicates access_to = acl_term (codes "accessTo") ∷ []
scope_predicates default = acl_term (codes "default") ∷ acl_term (codes "defaultForNew") ∷ []

-- the first loop's tests of `matches_agent`
abbrev class_matches : Bool → Str → Bool
class_matches known class =
    str_eq class foaf_agent || str_eq class (acl_term (codes "AuthenticatedAgent")) && known

abbrev origin_allowed : List Str → Option Str → Bool
origin_allowed [] origin = true
origin_allowed (o ∷ os) none = false
origin_allowed (o ∷ os) (some origin) = any (λ a. str_eq a origin) (o ∷ os)

abbrev cons_mode : Option AccessMode → List AccessMode → List AccessMode
cons_mode none modes = modes
cons_mode (some m) modes = m ∷ modes

unfoldable pub modes_of : List Str → List AccessMode
modes_of [] = []
modes_of (iri ∷ iris) = cons_mode (from_acl_iri iri) (modes_of iris)

abbrev insert_all : ModeSet → List AccessMode → ModeSet
insert_all granted [] = granted
insert_all granted (m ∷ modes) = insert_all (insert granted m) modes

module _ (triples : List Triple) where
  unfoldable pub applies_to_resource : Subject → Str → AclScope → Bool
  applies_to_resource rule resource scope =
      any (λ predicate. any (λ obj. str_eq obj resource) (named_objects triples rule predicate))
        (scope_predicates scope)

  -- the second loop of `matches_agent`, which an anonymous requester skips
  abbrev names_web_id : Subject → Option Str → Bool
  names_web_id rule none = false
  names_web_id rule (some web_id) =
      any (λ a. str_eq a web_id) (named_objects triples rule (acl_term (codes "agent")))

  unfoldable pub matches_agent : Subject → Requester → Bool
  matches_agent rule requester =
      any (class_matches (is_authenticated requester))
        (named_objects triples rule (acl_term (codes "agentClass")))
      || names_web_id rule requester.web_id

  unfoldable pub matches_origin : Subject → Requester → Bool
  matches_origin rule requester =
      origin_allowed (named_objects triples rule (acl_term (codes "origin"))) requester.origin

  unfoldable pub granted_modes : Subject → List AccessMode
  unfolding modes_of
  granted_modes rule = modes_of (named_objects triples rule (acl_term (codes "mode")))

  module _ (resource : Str) (requester : Requester) (scope : AclScope) where
    -- one round of the loop of `modes_for`, with its three `continue`s
    unfoldable pub grant_rule : ModeSet → Subject → ModeSet
    grant_rule granted rule =
        if not (applies_to_resource rule resource scope)
        then granted
        else if not (matches_agent rule requester)
        then granted
        else if not (matches_origin rule requester)
        then granted
        else insert_all granted (granted_modes rule)

    unfoldable pub grant_rules : ModeSet → List Subject → ModeSet
    grant_rules granted [] = granted
    grant_rules granted (rule ∷ rules) = grant_rules (grant_rule granted rule) rules

    unfoldable pub modes_for : ModeSet
    unfolding grant_rule grant_rules
    modes_for = grant_rules no_modes (authorization_subjects triples)

abbrev is_append : AccessMode → Bool
is_append append = true
is_append _ = false

unfoldable pub satisfies : ModeSet → AccessMode → Bool
satisfies granted required =
    if contains granted required then true else is_append required && contains granted write
