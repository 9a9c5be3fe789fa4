-- ===== src/Authz/Wac/Governing.antt =====
-- src/authz/wac.rs: one ACL document governs a resource, and it alone decides.
use solid_server_rs.Prelude.{
  ℕ, ◌≡◌, refl, ap, ◌↔◌, ◌⊎◌, inl, inr, Bool, true, false, Option, none, some, List, [], ◌∷◌, Str,
  map, Bool-cases, arith,
}
use solid_server_rs.Error.{Result, ok, err}
use solid_server_rs.Authz.Mode.{AccessMode, read, ModeSet, no_modes}
use solid_server_rs.Authz.Acl.{
  Triple, AclScope, access_to, default, Requester, modes_for, satisfies,
}
use solid_server_rs.Authz.Paths.{acl_for, ancestors_nearest_first}
use solid_server_rs.Authz.Reader.{Store, Wac, pure, and_then, read_and_parse_acl, read_acl}
use solid_server_rs.Authz.Wac.{
  ResolvedAcl, found, nothing, Decision, allow, resolve_inherited, resolve_effective_acl,
  resolved_modes_for, denied, decide,
}
use solid_server_rs.Ldp.Content.{RdfFormat}
use solid_server_rs.Cache.Acl.{AclCache}

-- A resource at its own scope, and then its ancestors at the scope of defaults.
abbrev pub scopes : Str → Str → List (Str × AclScope)
scopes base_url resource =
    (resource, access_to) ∷ map (λ a. (a, default)) (ancestors_nearest_first base_url resource)

-- One round of the search for the governing document.
abbrev pub Outcome : Type 0
Outcome = Option AclCache × Result ResolvedAcl

abbrev pub round : Str → AclScope → Wac ResolvedAcl → Option (List Triple) → Wac ResolvedAcl
round a sc later = elim [ some triples ↦ pure (found triples a sc) | none ↦ later ]

false-true : {b : Bool} → b ≡ false → b ≡ true → ⊥
false-true f t = cc

same_found :
    (ts us : List Triple) (a g : Str) (sc s : AclScope)
    → (◌≡◌ {A = Result (Option (List Triple))} (ok (some ts)) (ok (some us))) × (a ≡ g) × (sc ≡ s)
    → ◌≡◌ {A = Option AclCache × Result ResolvedAcl}
        (none, ok (found ts a sc))
        (none, ok (found us g s))
same_found ts us a g sc s (e, f, h) = cc

round_iff :
    (r : Result (Option (List Triple))) (a : Str) (sc : AclScope) (later : Wac ResolvedAcl)
    (Q : Type 0) (ts : List Triple) (g : Str) (s : AclScope)
    → (later none ≡ (none, ok (found ts g s))) ↔ Q
    → (and_then (none, r) (round a sc later) ≡ (none, ok (found ts g s)))
      ↔ (((r ≡ ok (some ts)) × (a ≡ g) × (sc ≡ s)) ⊎ ((r ≡ ok none) × Q))
round_iff (err e) a sc later Q ts g s h =
    (λ e. absurd (cc e), elim [ inl x ↦ absurd (cc x.0) | inr x ↦ absurd (cc x.0) ])
round_iff (ok none) a sc later Q ts g s (to, from) =
    (λ e. inr (refl, to e), elim [ inl x ↦ absurd (cc x.0) | inr x ↦ from x.1 ])
round_iff (ok (some triples)) a sc later Q ts g s h = (
  λ e. inl (cc, cc, cc),
  elim [ inl x ↦ same_found triples ts a g sc s x | inr x ↦ absurd (cc x.0) ],
)

denied-ne-allow : (web_id : Option Str) (granted : ModeSet) → denied web_id ≡ allow granted → ⊥
denied-ne-allow none granted e = cc e
denied-ne-allow (some w) granted e = cc e

pub satisfies-no_modes : (required : AccessMode) → satisfies no_modes required ≡ false
unfolding satisfies
satisfies-no_modes read = refl
satisfies-no_modes _ = refl

pub decide_iff :
    (m : ModeSet) (required : AccessMode) (web_id : Option Str) (granted : ModeSet)
    → (decide m required web_id ≡ allow granted)
      ↔ ((m ≡ granted) × (satisfies granted required ≡ true))
decide_iff m required web_id granted = elim (Bool-cases (satisfies m required)) [
  | inl y ↦ rw y (λ e. let same : m ≡ granted = cc in (same, rw (← same) y), λ x. ap allow x.0)
  | inr n ↦
      rw n (λ e. absurd (denied-ne-allow web_id granted e), λ x. absurd (false-true n (rw x.0 x.1)))
]

module _ (store : Store) (parse_to_triples : RdfFormat → List ℕ → Str → Result (List Triple))
    (now_secs : Str → ℕ) where
  abbrev pub read_at_scope : Str → Result (Option (List Triple))
  read_at_scope g = read_and_parse_acl store parse_to_triples now_secs (acl_for g)

  -- The nearest of the candidates that has an ACL document is `g`, and the document says `ts`.
  abbrev pub Governs : List (Str × AclScope) → List Triple → Str → AclScope → Type 0
  Governs [] ts g s = ⊥
  Governs ((a, sc) ∷ rest) ts g s =
      ((read_at_scope a ≡ ok (some ts)) × (a ≡ g) × (sc ≡ s))
      ⊎ ((read_at_scope a ≡ ok none) × Governs rest ts g s)

  inherited_iff :
      (ancestors : List Str) (ts : List Triple) (g : Str) (s : AclScope)
      → (resolve_inherited store parse_to_triples now_secs ancestors none
          ≡ (none, ok (found ts g s)))
        ↔ Governs (map (λ a. (a, default)) ancestors) ts g s
  unfolding resolve_inherited read_acl
  inherited_iff [] ts g s = ground arith
  inherited_iff (a ∷ ancestors) ts g s =
      round_iff (read_at_scope a) a default
        (resolve_inherited store parse_to_triples now_secs ancestors) _ ts g s
        (inherited_iff ancestors ts g s)

  pub resolve_iff :
      (base_url resource : Str) (ts : List Triple) (g : Str) (s : AclScope)
      → (resolve_effective_acl store parse_to_triples now_secs base_url resource none
          ≡ (none, ok (found ts g s)))
        ↔ Governs (scopes base_url resource) ts g s
  unfolding resolve_effective_acl
  resolve_iff base_url resource ts g s =
      round_iff (read_at_scope resource) resource access_to
        (resolve_inherited store parse_to_triples now_secs
          (ancestors_nearest_first base_url resource))
        _ ts g s (inherited_iff (ancestors_nearest_first base_url resource) ts g s)

  -- Without a cache there is none afterwards.
  round-none :
      (r : Result (Option (List Triple))) (a : Str) (sc : AclScope) (later : Wac ResolvedAcl)
      → (later none).0 ≡ none
      → (and_then (none, r) (round a sc later)).0 ≡ none
  round-none (err e) a sc later h = refl
  round-none (ok none) a sc later h = h
  round-none (ok (some triples)) a sc later h = refl

  inherited-none :
      (ancestors : List Str)
      → (resolve_inherited store parse_to_triples now_secs ancestors none).0 ≡ none
  unfolding resolve_inherited read_acl
  inherited-none [] = refl
  inherited-none (a ∷ ancestors) =
      round-none (read_at_scope a) a default _ (inherited-none ancestors)

  pub resolve-none :
      (base_url resource : Str)
      → (resolve_effective_acl store parse_to_triples now_secs base_url resource none).0 ≡ none
  unfolding resolve_effective_acl
  resolve-none base_url resource =
      round-none (read_at_scope resource) resource access_to _
        (inherited-none (ancestors_nearest_first base_url resource))

  -- No candidate has an ACL document.
  abbrev pub NoDocument : List (Str × AclScope) → Type 0
  NoDocument [] = Unit
  NoDocument ((a, sc) ∷ rest) = (read_at_scope a ≡ ok none) × NoDocument rest

  no_acl_inherited :
      (ancestors : List Str)
      → NoDocument (map (λ a. (a, default)) ancestors)
      → resolve_inherited store parse_to_triples now_secs ancestors none ≡ (none, ok nothing)
  unfolding resolve_inherited read_acl
  no_acl_inherited [] h = refl
  no_acl_inherited (a ∷ ancestors) (absent, h) = rw absent (no_acl_inherited ancestors h)

  pub no_acl-nothing :
      (base_url resource : Str)
      → NoDocument (scopes base_url resource)
      → resolve_effective_acl store parse_to_triples now_secs base_url resource none
        ≡ (none, ok nothing)
  unfolding resolve_effective_acl
  no_acl-nothing base_url resource (absent, h) =
      rw absent (no_acl_inherited (ancestors_nearest_first base_url resource) h)

  module _ (required : AccessMode) (web_id origin : Option Str) where
    abbrev pub requester : Requester
    requester = record { web_id = web_id; origin = origin }

    abbrev pub decision_on : Outcome → Option AclCache × Result Decision
    decision_on o =
        and_then (and_then o (λ r. pure (resolved_modes_for r requester)))
          (λ granted. pure (decide granted required web_id))

    pub decision_iff :
        (r : Result ResolvedAcl) (granted : ModeSet)
        → (decision_on (none, r) ≡ (none, ok (allow granted))) ↔ (
            (ts : List Triple) × (g : Str) × (s : AclScope) × (r ≡ ok (found ts g s))
            × (modes_for ts g requester s ≡ granted)
            × (satisfies granted required ≡ true))
    unfolding resolved_modes_for
    decision_iff (err e) granted = (λ h. absurd (cc h), λ x. absurd (cc x.3))
    decision_iff (ok nothing) granted = (
      λ h.
          let decided : decide no_modes required web_id ≡ allow granted = cc in
          let (empty, sat) = (decide_iff no_modes required web_id granted).0 decided in
          absurd (false-true (satisfies-no_modes required) (rw empty sat)),
      λ x. absurd (cc x.3),
    )
    decision_iff (ok (found ts g s)) granted = (
      λ h.
          let decided : decide (modes_for ts g requester s) required web_id ≡ allow granted = cc in
          let (same, sat) = (decide_iff _ required web_id granted).0 decided in
          (ts, g, s, refl, same, sat),
      λ x.
          let (us, f, t, e, same, sat) = x in
          let same' : modes_for ts g requester s ≡ granted = cc (e, same) in
          ap (λ d. (none, ok d)) ((decide_iff _ required web_id granted).1 (same', sat)),
    )
