-- ===== src/Authz/Wac.antt =====
-- src/authz/wac.rs: which ACL governs a resource, and the decision on a request.
pub mod Cached
pub mod Governing
pub mod Authorize
pub mod Plan
pub mod Advertise
pub mod Decisions
use solid_server_rs.Prelude.{
  ℕ, suc, Bool, true, false, not, Option, none, some, List, [], ◌∷◌, Str, codes, map, str_eq,
  length, if◌then◌else◌, ◌==◌,
}
use solid_server_rs.Error.{ServerError, Result, storage}
use solid_server_rs.Authz.Mode.{AccessMode, ModeSet, no_modes}
use solid_server_rs.Authz.Acl.{
  Triple, AclScope, access_to, default, Requester, modes_for, satisfies,
}
use solid_server_rs.Authz.Paths.{protected_resource, acl_for, ancestors_nearest_first}
use solid_server_rs.Authz.Reader.{Store, Wac, pure, fail, ◌>>=◌, read_acl, read_acl_confirmed}
use solid_server_rs.Ldp.Content.{RdfFormat}

pub record EffectivePermissions : Type 0 where
  pub user : ModeSet
  pub public : ModeSet

pub data Decision : Type 0 where
  allow : ModeSet → Decision
  unauthenticated forbidden : Decision

pub data ReadDecision : Type 0 where
  allow_read : EffectivePermissions → ReadDecision
  read_unauthenticated read_forbidden : ReadDecision

pub record AclCandidate : Type 0 where
  pub acl : Str
  pub governed : Str

pub data ResolvedAcl : Type 0 where
  found : List Triple → Str → AclScope → ResolvedAcl
  nothing : ResolvedAcl

unfoldable pub resolved_modes_for : ResolvedAcl → Requester → ModeSet
resolved_modes_for (found triples base scope) requester = modes_for triples base requester scope
resolved_modes_for nothing requester = no_modes

abbrev pub denied : Option Str → Decision
denied none = unauthenticated
denied (some _) = forbidden

abbrev pub decide : ModeSet → AccessMode → Option Str → Decision
decide granted required web_id = if satisfies granted required then allow granted else denied web_id

-- the public modes: the user's own where nobody is logged in
abbrev pub public_modes : ResolvedAcl → ModeSet → Option Str → Option Str → ModeSet
public_modes resolved user none origin = user
public_modes resolved user (some _) origin =
    resolved_modes_for resolved (record { web_id = none; origin = origin })

abbrev pub denied_read : Option Str → ReadDecision
denied_read none = read_unauthenticated
denied_read (some _) = read_forbidden

abbrev pub decide_read : ResolvedAcl → AccessMode → Option Str → Option Str → ReadDecision
decide_read resolved required web_id origin =
    let user = resolved_modes_for resolved (record { web_id = web_id; origin = origin }) in
    if not (satisfies user required)
    then denied_read web_id
    else allow_read (record { user = user; public = public_modes resolved user web_id origin })

abbrev pub is_none : Option Str → Bool
is_none none = true
is_none (some _) = false

-- modes that are already known are not computed again
abbrev pub known_modes : Option ModeSet → Wac ModeSet → Wac ModeSet
known_modes none compute = compute
known_modes (some modes) compute = pure modes

module _ (base_url : Str) where
  unfoldable pub read_plan_candidates : Str → List AclCandidate
  unfolding ancestors_nearest_first
  read_plan_candidates target =
      let candidate : Str → AclCandidate =
        λ governed. record { acl = acl_for governed; governed = governed } in
      let protected = protected_resource target in
      candidate protected ∷ map candidate (ancestors_nearest_first base_url protected)

module _ (store : Store) (parse_to_triples : RdfFormat → List ℕ → Str → Result (List Triple))
    (now_secs : Str → ℕ) where
  -- the loop over the ancestors in `resolve_effective_acl`
  unfoldable pub resolve_inherited : List Str → Wac ResolvedAcl
  resolve_inherited [] = pure nothing
  resolve_inherited (ancestor ∷ ancestors) =
      let later = resolve_inherited ancestors in
      read_acl store parse_to_triples now_secs (acl_for ancestor)
      >>= elim [ some triples ↦ pure (found triples ancestor default) | none ↦ later ]

  module _ (base_url : Str) where
    unfoldable pub resolve_effective_acl : Str → Wac ResolvedAcl
    unfolding resolve_inherited read_acl
    resolve_effective_acl resource =
        read_acl store parse_to_triples now_secs (acl_for resource) >>= elim [
          | some triples ↦ pure (found triples resource access_to)
          | none ↦ resolve_inherited (ancestors_nearest_first base_url resource)
        ]

    unfoldable pub effective_modes : Str → Requester → Wac ModeSet
    unfolding resolve_effective_acl
    effective_modes resource requester = do
      resolved ← resolve_effective_acl resource
      pure (resolved_modes_for resolved requester)

    unfoldable pub authorize : Str → AccessMode → Option Str → Option Str → Wac Decision
    unfolding effective_modes
    authorize target required web_id origin = do
      granted ←
          effective_modes (protected_resource target) (record { web_id = web_id; origin = origin })
      pure (decide granted required web_id)

    unfoldable pub authorize_read : Str → AccessMode → Option Str → Option Str → Wac ReadDecision
    unfolding resolve_effective_acl
    authorize_read target required web_id origin = do
      resolved ← resolve_effective_acl (protected_resource target)
      pure (decide_read resolved required web_id origin)

    unfoldable pub effective_permissions :
        Str → Option Str → Option Str → Option ModeSet → Wac EffectivePermissions
    unfolding effective_modes
    effective_permissions target web_id origin user_modes = do
      user ← known_modes user_modes (
          effective_modes (protected_resource target) (record { web_id = web_id; origin = origin }))
      public ←
          known_modes (if is_none web_id then some user else none) (
            effective_modes (protected_resource target) (record { web_id = none; origin = origin }))
      pure (record { user = user; public = public })

  -- the loop of `resolve_effective_acl_planned`; `idx` counts the candidates
  unfoldable pub resolve_planned : ℕ → List AclCandidate → List (Str × Option Str) → Wac ResolvedAcl
  resolve_planned idx [] plan_acls = pure nothing
  resolve_planned idx (c ∷ candidates) [] = pure nothing
  resolve_planned idx (c ∷ candidates) ((plan_iri, etag) ∷ plan_acls) =
      let later = resolve_planned (suc idx) candidates plan_acls in
      let confirmed = read_acl_confirmed store parse_to_triples now_secs c.acl in
      if not (str_eq c.acl plan_iri)
      then fail (storage (codes "read-plan/candidate IRI mismatch"))
      else if is_none etag
      then later
      else confirmed >>= elim [
        | some triples ↦ pure (found triples c.governed (if idx == 0 then access_to else default))
        | none ↦ later
      ]

  unfoldable pub resolve_effective_acl_planned :
      List AclCandidate → List (Str × Option Str) → Wac ResolvedAcl
  unfolding resolve_planned
  resolve_effective_acl_planned candidates plan_acls =
      if not (length candidates == length plan_acls)
      then fail (storage (codes "read-plan/candidate length mismatch"))
      else resolve_planned 0 candidates plan_acls

  unfoldable pub authorize_planned :
      AccessMode
      → Option Str
      → Option Str
      → List AclCandidate
      → List (Str × Option Str)
      → Wac Decision
  unfolding resolve_effective_acl_planned
  authorize_planned required web_id origin candidates plan_acls = do
    resolved ← resolve_effective_acl_planned candidates plan_acls
    let granted = resolved_modes_for resolved (record { web_id = web_id; origin = origin })
    pure (decide granted required web_id)

  unfoldable pub authorize_read_planned :
      AccessMode
      → Option Str
      → Option Str
      → List AclCandidate
      → List (Str × Option Str)
      → Wac ReadDecision
  unfolding resolve_effective_acl_planned
  authorize_read_planned required web_id origin candidates plan_acls = do
    resolved ← resolve_effective_acl_planned candidates plan_acls
    pure (decide_read resolved required web_id origin)
