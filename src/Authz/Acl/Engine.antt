-- ===== src/Authz/Acl/Engine.antt =====
-- src/authz/acl.rs: what `modes_for` grants, and what satisfies a requirement.
use solid_server_rs.Prelude.{
  ◌≡◌, ◌↔◌, ◌⊎◌, inl, inr, true, Option, none, List, [], ◌∷◌, Str, codes, Any, Any-iff, Bool-cases,
  arith,
}
use solid_server_rs.Authz.Mode.{AccessMode, write, append, acl_iri, ModeSet, no_modes, contains}
use solid_server_rs.Authz.Acl.{
  Subject, Triple, acl_term, rdf_type, AclScope, Requester, authorization_subjects,
  applies_to_resource, matches_agent, matches_origin, granted_modes, grant_rule, grant_rules,
  modes_for, satisfies,
}
use solid_server_rs.Authz.Acl.Objects.{Says}
use solid_server_rs.Authz.Acl.Grants.{
  AppliesTo, AgentMatches, OriginMatches, applies_iff, agent_iff, origin_iff, mode_iff,
}
use solid_server_rs.Authz.Acl.Rules.{
  false-true, authorization, subjects_from_iff, insert_all_iff, contains-no_modes,
}

module _ (triples : List Triple) (resource : Str) (requester : Requester) (scope : AclScope) where
  -- A rule of the document applies to this resource and requester and names this mode.
  pub record IsGrant (rule : Subject) (m : AccessMode) : Type 0 where
    pub applies : AppliesTo triples rule resource scope
    pub agent : AgentMatches triples rule requester
    pub origin : OriginMatches triples rule requester.origin
    pub mode : Says triples rule (acl_term (codes "mode")) (acl_iri m)

  grant_rule_iff :
      (g : ModeSet) (rule : Subject) (m : AccessMode)
      → (contains (grant_rule triples resource requester scope g rule) m ≡ true)
        ↔ ((contains g m ≡ true) ⊎ IsGrant rule m)
  unfolding grant_rule
  grant_rule_iff g rule m =
      let (ap_to, ap_from) = applies_iff triples rule resource scope in
      let (ag_to, ag_from) = agent_iff triples rule requester in
      let (or_to, or_from) = origin_iff triples rule requester in
      let (mo_to, mo_from) = mode_iff triples rule m in
      let (to, from) = insert_all_iff g (granted_modes triples rule) m in
      elim (Bool-cases (applies_to_resource triples rule resource scope)) [
        | inr n ↦ rw n (inl, elim [ inl h ↦ h | inr r ↦ absurd (false-true n (ap_from r.applies)) ])
        | inl a ↦ elim (Bool-cases (matches_agent triples rule requester)) [
          | inr n ↦
              rw (a, n) (inl, elim [ inl h ↦ h | inr r ↦ absurd (false-true n (ag_from r.agent)) ])
          | inl b ↦ elim (Bool-cases (matches_origin triples rule requester)) [
            | inr n ↦
                rw (a, b, n)
                  (inl, elim [ inl h ↦ h | inr r ↦ absurd (false-true n (or_from r.origin)) ])
            | inl c ↦
                rw (a, b, c)
                  (
                    λ h. elim (to h) [
                      | inl old ↦ inl old
                      | inr new ↦ inr (record {
                        applies = ap_to a;
                        agent = ag_to b;
                        origin = or_to c;
                        mode = mo_to new;
                      })
                    ],
                    λ h. from (elim h [ inl old ↦ inl old | inr r ↦ inr (mo_from r.mode) ]),
                  )
          ]
        ]
      ]

  grant_rules_iff :
      (g : ModeSet) (rules : List Subject) (m : AccessMode)
      → (contains (grant_rules triples resource requester scope g rules) m ≡ true)
        ↔ ((contains g m ≡ true) ⊎ Any (λ rule. IsGrant rule m) rules)
  unfolding grant_rules
  grant_rules_iff g [] m = (inl, elim [ inl h ↦ h | inr h ↦ absurd h ])
  grant_rules_iff g (rule ∷ rules) m =
      let (to, from) =
        grant_rules_iff (grant_rule triples resource requester scope g rule) rules m in
      let (here, back) = grant_rule_iff g rule m in
      (
        λ h. elim (to h) [
          | inl now ↦ elim (here now) [ inl old ↦ inl old | inr r ↦ inr (inl r) ]
          | inr later ↦ inr (inr later)
        ],
        λ h. from (elim h [
          | inl old ↦ inl (back (inl old))
          | inr (inl r) ↦ inl (back (inr r))
          | inr (inr later) ↦ inr later
        ]),
      )

  listed-Says :
      (rule : Subject)
      → Any (λ x. x ≡ rule) (authorization_subjects triples)
      → Says triples rule rdf_type authorization
  unfolding authorization_subjects
  listed-Says rule listed = elim ((subjects_from_iff [] triples rule).0 listed) [
    | inl h ↦ absurd h
    | inr says ↦ says
  ]

  -- A mode is granted exactly when some authorization of the document grants it.
  pub modes_for_iff :
      (m : AccessMode)
      → (contains (modes_for triples resource requester scope) m ≡ true)
        ↔ ((rule : Subject) × Says triples rule rdf_type authorization × IsGrant rule m)
  unfolding modes_for authorization_subjects
  modes_for_iff m =
      let rules = authorization_subjects triples in
      let (to, from) = grant_rules_iff no_modes rules m in
      let (find, found) = Any-iff (λ rule. IsGrant rule m) rules in
      (
        λ h. elim (to h) [
          | inl nothing ↦ absurd (contains-no_modes m nothing)
          | inr some_rule ↦
              let (rule, listed, grant) = find some_rule in (rule, listed-Says rule listed, grant)
        ],
        λ h. from (inr (found (h.0, (subjects_from_iff [] triples h.0).1 (inr h.1), h.2))),
      )

-- What an anonymous requester is granted, a requester with a WebID and the same origin is granted
-- too.
pub modes_for-anonymous :
    (triples : List Triple) (resource : Str) (scope : AclScope) (web_id origin : Option Str)
    (m : AccessMode)
    → contains (modes_for triples resource (record { web_id = none; origin = origin }) scope) m
      ≡ true
    → contains (modes_for triples resource (record { web_id = web_id; origin = origin }) scope) m
      ≡ true
modes_for-anonymous triples resource scope web_id origin m h =
    let public : Requester = record { web_id = none; origin = origin } in
    let user : Requester = record { web_id = web_id; origin = origin } in
    let (rule, says, grant) = (modes_for_iff triples resource public scope m).0 h in
    (modes_for_iff triples resource user scope m).1 (
      rule,
      says,
      record {
        applies = grant.applies;
        agent = elim grant.agent [
          | inl everybody ↦ inl everybody
          | inr (inl (w, e, _)) ↦ absurd (cc e)
          | inr (inr (w, e, _)) ↦ absurd (cc e)
        ];
        origin = grant.origin;
        mode = grant.mode;
      },
    )

-- A required mode is met by itself, and Append by Write.
pub satisfies_iff :
    (granted : ModeSet) (required : AccessMode)
    → (satisfies granted required ≡ true) ↔ (
        (contains granted required ≡ true)
        ⊎ ((required ≡ append) × (contains granted write ≡ true)))
unfolding satisfies
satisfies_iff granted required = ground arith
