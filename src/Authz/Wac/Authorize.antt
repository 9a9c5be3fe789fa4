-- ===== src/Authz/Wac/Authorize.antt =====
-- src/authz/wac.rs: when a request is allowed, and when it is not.
use solid_server_rs.Prelude.{
  ℕ, ◌≡◌, refl, sym, ap, ◌∙◌, ◌↔◌, ◌⊎◌, inl, inr, true, ◌||◌, Option, none, some, List, Str,
  Bool-cases, arith,
}
use mathlib.Core.Path.{subst}
use solid_server_rs.Error.{Result, ok, err}
use solid_server_rs.Authz.Mode.{AccessMode, write, append, ModeSet, contains}
use solid_server_rs.Authz.Acl.{Subject, Triple, AclScope, Requester, rdf_type, modes_for, satisfies}
use solid_server_rs.Authz.Acl.Objects.{Says}
use solid_server_rs.Authz.Acl.Rules.{authorization}
use solid_server_rs.Authz.Acl.Engine.{IsGrant, modes_for_iff, modes_for-anonymous, satisfies_iff}
use solid_server_rs.Authz.Paths.{protected_resource}
use solid_server_rs.Authz.Reader.{Store, pure, and_then}
use solid_server_rs.Authz.Wac.{
  ResolvedAcl, found, nothing, allow, allow_read, EffectivePermissions, resolve_effective_acl,
  authorize, authorize_read, resolved_modes_for, denied, denied_read, public_modes, decide_read,
}
use solid_server_rs.Authz.Wac.Governing.{
  Outcome, scopes, Governs, resolve_iff, resolve-none, decision_on, decision_iff,
  satisfies-no_modes, no_acl-nothing, NoDocument,
}
use solid_server_rs.Ldp.Content.{RdfFormat}

-- A rule of the document grants the mode, or grants Write where Append is required.
abbrev pub Permits : List Triple → Str → Requester → AclScope → AccessMode → Type 0
Permits ts g requester s required =
    (rule : Subject) × Says ts rule rdf_type authorization
    × (IsGrant ts g requester s rule required
        ⊎ ((required ≡ append) × IsGrant ts g requester s rule write))

Permits-iff :
    (ts : List Triple) (g : Str) (requester : Requester) (s : AclScope) (required : AccessMode)
    → (satisfies (modes_for ts g requester s) required ≡ true) ↔ Permits ts g requester s required
Permits-iff ts g requester s required =
    let (to, from) = satisfies_iff (modes_for ts g requester s) required in
    let (req_to, req_from) = modes_for_iff ts g requester s required in
    let (write_to, write_from) = modes_for_iff ts g requester s write in
    (
      λ h. elim (to h) [
        | inl direct ↦ let (rule, says, grant) = req_to direct in (rule, says, inl grant)
        | inr (is_append, wide) ↦
            let (rule, says, grant) = write_to wide in (rule, says, inr (is_append, grant))
      ],
      λ x. from (elim x.2 [
        | inl grant ↦ inl (req_from (x.0, x.1, grant))
        | inr (is_append, grant) ↦ inr (is_append, write_from (x.0, x.1, grant))
      ]),
    )

public_narrower :
    (r : ResolvedAcl) (web_id origin : Option Str) (m : AccessMode)
    → contains
        (public_modes r
          (resolved_modes_for r (record { web_id = web_id; origin = origin }))
          web_id
          origin)
        m
      ≡ true
    → contains (resolved_modes_for r (record { web_id = web_id; origin = origin })) m ≡ true
unfolding resolved_modes_for
public_narrower r none origin m h = h
public_narrower nothing (some w) origin m h = h
public_narrower (found ts g s) (some w) origin m h = modes_for-anonymous ts g s (some w) origin m h

pub denied_read-ne :
    (web_id : Option Str) (perms : EffectivePermissions) → denied_read web_id ≡ allow_read perms → ⊥
denied_read-ne none perms e = cc e
denied_read-ne (some w) perms e = cc e

decide_read-allow :
    (r : ResolvedAcl) (required : AccessMode) (web_id origin : Option Str)
    (perms : EffectivePermissions)
    → decide_read r required web_id origin ≡ allow_read perms
    → (satisfies (resolved_modes_for r (record { web_id = web_id; origin = origin })) required
        ≡ true)
      × (resolved_modes_for r (record { web_id = web_id; origin = origin }) ≡ perms.user)
      × ((m : AccessMode) → contains perms.public m ≡ true → contains perms.user m ≡ true)
decide_read-allow r required web_id origin perms h =
    let user = resolved_modes_for r (record { web_id = web_id; origin = origin }) in
    elim (Bool-cases (satisfies user required)) [
      | inr n ↦ absurd (denied_read-ne web_id perms (rw n at h))
      | inl y ↦
          let whole : ◌≡◌ {A = EffectivePermissions}
              (record { user = user; public = public_modes r user web_id origin }) perms =
            cc (rw y at h) in
          let same : user ≡ perms.user = ap (λ (p : EffectivePermissions). p.user) whole in
          (
            y,
            same,
            λ m.
                subst
                  (λ (p : EffectivePermissions).
                    contains p.public m ≡ true → contains p.user m ≡ true)
                  whole (public_narrower r web_id origin m),
          )
    ]

module _ (store : Store) (parse_to_triples : RdfFormat → List ℕ → Str → Result (List Triple))
    (now_secs : Str → ℕ) (base_url target : Str) (required : AccessMode)
    (web_id origin : Option Str) where
  abbrev asking : Requester
  asking = record { web_id = web_id; origin = origin }

  abbrev resolved : Outcome
  resolved =
      resolve_effective_acl store parse_to_triples now_secs base_url (protected_resource target)
        none

  resolved-eq : resolved ≡ (none, resolved.1)
  resolved-eq = λ i. (
    resolve-none store parse_to_triples now_secs base_url (protected_resource target) i,
    resolved.1,
  )

  -- A request without the cache is allowed exactly when the nearest ACL document on the way from
  -- the protected resource to the root has a rule that permits it; more distant documents have no
  -- say, and where there is no document nobody is allowed.
  pub authorize_iff :
      ((granted : ModeSet) × (authorize store parse_to_triples now_secs base_url target required
            web_id origin none
          ≡ (none, ok (allow granted))))
      ↔ ((ts : List Triple) × (g : Str) × (s : AclScope) × Governs store parse_to_triples now_secs
            (scopes base_url (protected_resource target))
            ts
            g
            s
          × Permits ts g asking s required)
  unfolding authorize
  authorize_iff =
      let decides =
        decision_iff store parse_to_triples now_secs required web_id origin resolved.1 in
      let on = decision_on store parse_to_triples now_secs required web_id origin in
      (
        λ x.
            let (granted, h) = x in
            let (ts, g, s, e, same, sat) =
              (decides granted).0 (subst (λ o. on o ≡ (none, ok (allow granted))) resolved-eq h) in
            (
              ts,
              g,
              s,
              (resolve_iff store parse_to_triples now_secs base_url (protected_resource target) ts g
                    s).0
                  (resolved-eq ∙ ap (λ r. (none, r)) e),
              (Permits-iff ts g asking s required).0 (rw same sat),
            ),
        λ x.
            let (ts, g, s, governs, permits) = x in
            let e =
              (resolve_iff store parse_to_triples now_secs base_url (protected_resource target) ts g
                  s).1
                governs in
            let granted = modes_for ts g asking s in
            (
              granted,
              subst (λ o. on o ≡ (none, ok (allow granted))) (sym e)
                  ((decision_iff store parse_to_triples now_secs required web_id origin
                      (ok (found ts g s)) granted).1
                    (ts, g, s, refl, refl, (Permits-iff ts g asking s required).1 permits)),
            ),
      )

  -- Without the cache a read is allowed only where `authorize` allows it, with the same modes for the user; and
  -- nothing is advertised to the public that the user is not granted.
  pub authorize_read-allow :
      (perms : EffectivePermissions)
      → authorize_read store parse_to_triples now_secs base_url target required web_id origin none
        ≡ (none, ok (allow_read perms))
      → (authorize store parse_to_triples now_secs base_url target required web_id origin none
          ≡ (none, ok (allow perms.user)))
        × ((m : AccessMode)
            → (contains perms.public m || contains perms.user m) ≡ contains perms.user m)
  unfolding authorize authorize_read
  authorize_read-allow perms h =
      let (decided, narrower) = read_decision resolved.1 (
        subst
          (λ o.
            and_then o (λ r. pure (decide_read r required web_id origin))
            ≡ (none, ok (allow_read perms)))
          resolved-eq h) in
      (
        subst
            (λ o.
              decision_on store parse_to_triples now_secs required web_id origin o
              ≡ (none, ok (allow perms.user)))
            (sym resolved-eq) decided,
        λ m. let wider = narrower m in ground arith,
      )
    where
      read_decision :
          (r : Result ResolvedAcl)
          → and_then (none, r) (λ r. pure (decide_read r required web_id origin))
            ≡ (none, ok (allow_read perms))
          → (decision_on store parse_to_triples now_secs required web_id origin (none, r)
              ≡ (none, ok (allow perms.user)))
            × ((m : AccessMode) → contains perms.public m ≡ true → contains perms.user m ≡ true)
      read_decision (err e) h = absurd (cc h)
      read_decision (ok r) h =
          let decided : decide_read r required web_id origin ≡ allow_read perms = cc h in
          let (sat, same, narrower) = decide_read-allow r required web_id origin perms decided in
          (rw sat (ap (λ u. (none, ok (allow u))) same), narrower)

  -- Without the cache, where no candidate has an ACL document the request is denied, by `denied`.
  pub no_acl-denied :
      NoDocument store parse_to_triples now_secs (scopes base_url (protected_resource target))
      → (authorize store parse_to_triples now_secs base_url target required web_id origin none
          ≡ (none, ok (denied web_id)))
        × (authorize_read store parse_to_triples now_secs base_url target required web_id origin
              none
            ≡ (none, ok (denied_read web_id)))
  unfolding authorize authorize_read resolved_modes_for
  no_acl-denied h =
      let e =
        no_acl-nothing store parse_to_triples now_secs base_url (protected_resource target) h in
      (
        subst
            (λ o.
              decision_on store parse_to_triples now_secs required web_id origin o
              ≡ (none, ok (denied web_id)))
            (sym e) (rw (satisfies-no_modes required) refl),
        subst
            (λ o.
              and_then o (λ r. pure (decide_read r required web_id origin))
              ≡ (none, ok (denied_read web_id)))
            (sym e) (rw (satisfies-no_modes required) refl),
      )
