-- ===== src/Authz/Acl/Grants.antt =====
-- src/authz/acl.rs: the tests of the ACL engine, read as statements about the triples.
use mathlib.Core.Path.{subst}
use mathlib.Core.Option.{some-injective}
use solid_server_rs.Prelude.{
  ◌≡◌, refl, sym, ◌↔◌, ◌⊎◌, inl, inr, true, Option, none, some, List, [], ◌∷◌, Str, codes,
  str_eq_iff, ||_iff, Any, arith,
}
use solid_server_rs.Authz.Mode.{AccessMode, acl_iri}
use solid_server_rs.Authz.Acl.{
  Subject, Triple, acl_term, foaf_agent, AclScope, access_to, default, Requester, is_authenticated,
  named_objects, applies_to_resource, matches_agent, matches_origin, granted_modes, class_matches,
  names_web_id,
}
use solid_server_rs.Authz.Acl.Objects.{
  Says, named_objects-to, named_objects-from, any-named_objects_iff, Says-iff, origin_allowed_iff,
  modes_of-to, modes_of-from, authenticated_iff,
}

module _ (ts : List Triple) (rule : Subject) where
  abbrev pub AppliesTo : Str → AclScope → Type 0
  AppliesTo resource access_to = Says ts rule (acl_term (codes "accessTo")) resource
  AppliesTo resource default =
      Says ts rule (acl_term (codes "default")) resource
      ⊎ Says ts rule (acl_term (codes "defaultForNew")) resource

  pub applies_iff :
      (resource : Str) (scope : AclScope)
      → (applies_to_resource ts rule resource scope ≡ true) ↔ AppliesTo resource scope
  unfolding applies_to_resource
  applies_iff resource access_to =
      ground (arith, Says-iff ts rule (acl_term (codes "accessTo")) resource)
  applies_iff resource default = ground (
    arith,
    Says-iff ts rule (acl_term (codes "default")) resource,
    Says-iff ts rule (acl_term (codes "defaultForNew")) resource,
  )

  -- Everybody, every agent with a WebID, or this WebID.
  abbrev pub AgentMatches : Requester → Type 0
  AgentMatches r =
      Says ts rule (acl_term (codes "agentClass")) foaf_agent
      ⊎ (((w : Str) × (r.web_id ≡ some w)
            × Says ts rule (acl_term (codes "agentClass")) (acl_term (codes "AuthenticatedAgent")))
          ⊎ ((w : Str) × (r.web_id ≡ some w) × Says ts rule (acl_term (codes "agent")) w))

  names_web_id_iff :
      (id : Option Str)
      → (names_web_id ts rule id ≡ true)
        ↔ ((w : Str) × (id ≡ some w) × Says ts rule (acl_term (codes "agent")) w)
  names_web_id_iff none = ground arith
  names_web_id_iff (some w) =
      let (to, from) = Says-iff ts rule (acl_term (codes "agent")) w in
      (
        λ h. (w, refl, to h),
        λ h.
            from
              (subst (Says ts rule (acl_term (codes "agent"))) (sym (some-injective _ _ h.1)) h.2),
      )

  pub agent_iff : (r : Requester) → (matches_agent ts rule r ≡ true) ↔ AgentMatches r
  unfolding matches_agent
  agent_iff r =
      let auth = is_authenticated r in
      let class = acl_term (codes "agentClass") in
      let known = acl_term (codes "AuthenticatedAgent") in
      let (class_to, class_from) =
        any-named_objects_iff (class_matches auth)
          (λ c. (c ≡ foaf_agent) ⊎ ((c ≡ known) × (auth ≡ true)))
          (λ c. ground (arith, str_eq_iff c foaf_agent, str_eq_iff c known)) ts rule class in
      let (id_to, id_from) = names_web_id_iff r.web_id in
      let (auth_to, auth_from) = authenticated_iff r in
      (
        λ h. elim ((||_iff _ _).0 h) [
          | inl some_class ↦
              let (c, says, q) = class_to some_class in
              elim q [
                | inl e ↦ inl (subst (Says ts rule class) e says)
                | inr (e, a) ↦
                    let (w, ew) = auth_to a in inr (inl (w, ew, subst (Says ts rule class) e says))
              ]
          | inr names ↦ inr (inr (id_to names))
        ],
        λ h. (||_iff _ _).1 (elim h [
          | inl everybody ↦ inl (class_from (foaf_agent, everybody, inl refl))
          | inr (inl (w, ew, says)) ↦ inl (class_from (known, says, inr (refl, auth_from (w, ew))))
          | inr (inr names) ↦ inr (id_from names)
        ]),
      )

  -- A rule that names no origin holds for every origin, and for none.
  abbrev pub OriginMatches : Option Str → Type 0
  OriginMatches origin =
      ((o : Str) → ¬ Says ts rule (acl_term (codes "origin")) o)
      ⊎ ((o : Str) × (origin ≡ some o) × Says ts rule (acl_term (codes "origin")) o)

  no_objects : (p : Str) → ((o : Str) → ¬ Says ts rule p o) → named_objects ts rule p ≡ []
  no_objects p never = go (named_objects ts rule p) refl
    where
      go : (l : List Str) → named_objects ts rule p ≡ l → named_objects ts rule p ≡ []
      go [] e = e
      go (o ∷ l) e =
          let (o', says, _) =
            named_objects-to (λ _. Unit) ts rule p (subst (Any (λ _. Unit)) (sym e) (inl tt)) in
          absurd (never o' says)

  pub origin_iff : (r : Requester) → (matches_origin ts rule r ≡ true) ↔ OriginMatches r.origin
  unfolding matches_origin
  origin_iff r =
      let origin = acl_term (codes "origin") in
      let (to, from) = origin_allowed_iff (named_objects ts rule origin) r.origin in
      (
        λ h. elim (to h) [
          | inl empty ↦ inl (λ o says.
              subst (Any (λ _. Unit)) empty
                (named_objects-from (λ _. Unit) ts rule origin o says tt))
          | inr (o, e, found) ↦ inr (o, e, (Says-iff ts rule origin o).0 found)
        ],
        λ h. from (elim h [
          | inl never ↦ inl (no_objects origin never)
          | inr (o, e, says) ↦ inr (o, e, (Says-iff ts rule origin o).1 says)
        ]),
      )

  pub mode_iff :
      (m : AccessMode)
      → Any (λ n. n ≡ m) (granted_modes ts rule)
        ↔ Says ts rule (acl_term (codes "mode")) (acl_iri m)
  unfolding granted_modes
  mode_iff m =
      let mode = acl_term (codes "mode") in
      let objects = named_objects ts rule mode in
      (
        λ h.
            let (o, says, e) =
              named_objects-to (λ o. o ≡ acl_iri m) ts rule mode (modes_of-to objects m h) in
            subst (Says ts rule mode) e says,
        λ h.
            modes_of-from objects m
              (named_objects-from (λ o. o ≡ acl_iri m) ts rule mode (acl_iri m) h refl),
      )
