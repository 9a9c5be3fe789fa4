-- ===== src/Authz/Wac/Cached.antt =====
-- src/authz/wac.rs: the ACL cache never changes a decision.
use solid_server_rs.Prelude.{
  ℕ, suc, ◌≡◌, Bool, true, false, not, Option, none, some, List, [], ◌∷◌, Str, str_eq, length,
  if◌then◌else◌, ◌==◌,
}
use solid_server_rs.Error.{Result}
use solid_server_rs.Authz.Mode.{AccessMode, ModeSet}
use solid_server_rs.Authz.Acl.{Triple, access_to, default, Requester}
use solid_server_rs.Authz.Paths.{acl_for, ancestors_nearest_first, protected_resource}
use solid_server_rs.Authz.Reader.{Store, Wac, pure, ◌>>=◌}
use solid_server_rs.Authz.Reader.Coherence.{
  IsSnapshot, IsCoherent, IsTransparent, pure-IsTransparent, fail-IsTransparent, bind-IsTransparent,
  read_acl-IsTransparent, read_acl_confirmed-IsTransparent,
}
use solid_server_rs.Authz.Wac.{
  ResolvedAcl, found, nothing, AclCandidate, is_none, resolve_inherited, resolve_effective_acl,
  authorize, authorize_read, resolve_planned, resolve_effective_acl_planned, authorize_planned,
  authorize_read_planned, resolved_modes_for, decide, decide_read, effective_modes, known_modes,
  effective_permissions,
}
use solid_server_rs.Ldp.Content.{RdfFormat}
use solid_server_rs.Cache.Acl.{AclCache}

module _ (store : Store) (parse_to_triples : RdfFormat → List ℕ → Str → Result (List Triple))
    (now_secs : Str → ℕ) (snapshot : IsSnapshot store) where
  abbrev Transparent : {A : Type 0} → Wac A → Type 0
  Transparent m = IsTransparent store parse_to_triples m

  inherited-IsTransparent :
      (ancestors : List Str)
      → Transparent (resolve_inherited store parse_to_triples now_secs ancestors)
  unfolding resolve_inherited
  inherited-IsTransparent [] = pure-IsTransparent store parse_to_triples nothing
  inherited-IsTransparent (a ∷ ancestors) =
      let later = inherited-IsTransparent ancestors in
      bind-IsTransparent store parse_to_triples _ _
        (read_acl-IsTransparent store parse_to_triples now_secs snapshot (acl_for a))
        (elim [
          | some triples ↦ pure-IsTransparent store parse_to_triples (found triples a default)
          | none ↦ later
        ])

  pub resolve-IsTransparent :
      (base_url resource : Str)
      → Transparent (resolve_effective_acl store parse_to_triples now_secs base_url resource)
  unfolding resolve_effective_acl
  resolve-IsTransparent base_url resource =
      bind-IsTransparent store parse_to_triples _ _
        (read_acl-IsTransparent store parse_to_triples now_secs snapshot (acl_for resource))
        (elim [
          | some triples ↦
              pure-IsTransparent store parse_to_triples (found triples resource access_to)
          | none ↦ inherited-IsTransparent (ancestors_nearest_first base_url resource)
        ])

  -- what follows the resolution is computed from its result alone
  then_pure :
      {B : Type 0} (m : Wac ResolvedAcl) (f : ResolvedAcl → B)
      → Transparent m
      → Transparent (m >>= λ r. pure (f r))
  then_pure m f t =
      bind-IsTransparent store parse_to_triples m _ t
        (λ r. pure-IsTransparent store parse_to_triples (f r))

  if-IsTransparent :
      {A : Type 0} (b : Bool) (m n : Wac A)
      → Transparent m
      → Transparent n
      → Transparent (λ cache. (if b then m else n) cache)
  if-IsTransparent true m n t u = t
  if-IsTransparent false m n t u = u

  resolve_planned-IsTransparent :
      (idx : ℕ) (candidates : List AclCandidate) (plan_acls : List (Str × Option Str))
      → Transparent (resolve_planned store parse_to_triples now_secs idx candidates plan_acls)
  unfolding resolve_planned
  resolve_planned-IsTransparent idx [] plan_acls = pure-IsTransparent store parse_to_triples nothing
  resolve_planned-IsTransparent idx (c ∷ cs) [] = pure-IsTransparent store parse_to_triples nothing
  resolve_planned-IsTransparent idx (c ∷ cs) ((plan_iri, etag) ∷ plan_acls) =
      let later = resolve_planned-IsTransparent (suc idx) cs plan_acls in
      if-IsTransparent (not (str_eq c.acl plan_iri)) _ _
        (fail-IsTransparent store parse_to_triples _)
        (if-IsTransparent (is_none etag) _ _ later (
          bind-IsTransparent store parse_to_triples _ _
            (read_acl_confirmed-IsTransparent store parse_to_triples now_secs snapshot c.acl)
            (elim [ some triples ↦ pure-IsTransparent store parse_to_triples _ | none ↦ later ])))

  planned :
      (candidates : List AclCandidate) (plan_acls : List (Str × Option Str))
      → Transparent
          (resolve_effective_acl_planned store parse_to_triples now_secs candidates plan_acls)
  unfolding resolve_effective_acl_planned
  planned candidates plan_acls =
      if-IsTransparent (not (length candidates == length plan_acls)) _ _
        (fail-IsTransparent store parse_to_triples _)
        (resolve_planned-IsTransparent 0 candidates plan_acls)

  -- the modes of `effective_modes`, and the modes that may be known already
  effective_modes-IsTransparent :
      (base_url resource : Str) (requester : Requester)
      → Transparent (effective_modes store parse_to_triples now_secs base_url resource requester)
  unfolding effective_modes
  effective_modes-IsTransparent base_url resource requester =
      then_pure _ (λ r. resolved_modes_for r requester) (resolve-IsTransparent base_url resource)

  known_modes-IsTransparent :
      (known : Option ModeSet) (compute : Wac ModeSet)
      → Transparent compute
      → Transparent (known_modes known compute)
  known_modes-IsTransparent none compute t = t
  known_modes-IsTransparent (some modes) compute t = pure-IsTransparent store parse_to_triples modes

  module _ (base_url target : Str) (web_id origin : Option Str) where
    pub effective_permissions-IsTransparent :
        (user_modes : Option ModeSet)
        → Transparent (
            effective_permissions store parse_to_triples now_secs base_url target web_id origin
              user_modes)
    unfolding effective_permissions
    effective_permissions-IsTransparent user_modes =
        bind-IsTransparent store parse_to_triples _ _
          (known_modes-IsTransparent user_modes _
            (effective_modes-IsTransparent base_url (protected_resource target) _))
          (λ user.
            bind-IsTransparent store parse_to_triples _ _
              (known_modes-IsTransparent (if is_none web_id then some user else none) _
                (effective_modes-IsTransparent base_url (protected_resource target) _))
              (λ public.
                pure-IsTransparent store parse_to_triples
                  (record { user = user; public = public })))

    pub authorize-IsTransparent :
        (required : AccessMode)
        → Transparent
            (authorize store parse_to_triples now_secs base_url target required web_id origin)
    unfolding authorize
    authorize-IsTransparent required =
        bind-IsTransparent store parse_to_triples _ _
          (effective_modes-IsTransparent base_url (protected_resource target) _)
          (λ granted. pure-IsTransparent store parse_to_triples (decide granted required web_id))

    pub authorize_read-IsTransparent :
        (required : AccessMode)
        → Transparent
            (authorize_read store parse_to_triples now_secs base_url target required web_id origin)
    unfolding authorize_read
    authorize_read-IsTransparent required =
        then_pure _ (λ r. decide_read r required web_id origin)
          (resolve-IsTransparent base_url (protected_resource target))

  module _ (candidates : List AclCandidate) (plan_acls : List (Str × Option Str))
      (web_id origin : Option Str) (required : AccessMode) where
    pub authorize_planned-IsTransparent : Transparent (
        authorize_planned store parse_to_triples now_secs required web_id origin candidates
          plan_acls)
    unfolding authorize_planned
    authorize_planned-IsTransparent =
        then_pure _
          (λ r.
            decide (resolved_modes_for r (record { web_id = web_id; origin = origin })) required
              web_id)
          (planned candidates plan_acls)

    pub authorize_read_planned-IsTransparent : Transparent (
        authorize_read_planned store parse_to_triples now_secs required web_id origin candidates
          plan_acls)
    unfolding authorize_read_planned
    authorize_read_planned-IsTransparent =
        then_pure _ (λ r. decide_read r required web_id origin) (planned candidates plan_acls)

  module _ (cache : Option AclCache) (coherent : IsCoherent store parse_to_triples cache) where
    -- run with the cache and without it
    abbrev pub Same : {A : Type 0} → Wac A → Type 0
    Same m = IsCoherent store parse_to_triples (m cache).0 × ((m cache).1 ≡ (m none).1)

    -- Over a store that answers as one snapshot, whatever a coherent cache holds, the step-by-step
    -- and the planned methods answer as they do without a cache, and leave the cache coherent.
    pub authorize-cached :
        (base_url target : Str) (required : AccessMode) (web_id origin : Option Str)
        (candidates : List AclCandidate) (plan_acls : List (Str × Option Str))
        → Same (authorize store parse_to_triples now_secs base_url target required web_id origin)
          × Same (
              authorize_read store parse_to_triples now_secs base_url target required web_id origin)
          × Same (
              authorize_planned store parse_to_triples now_secs required web_id origin candidates
                plan_acls)
          × Same (
              authorize_read_planned store parse_to_triples now_secs required web_id origin
                candidates plan_acls)
    authorize-cached base_url target required web_id origin candidates plan_acls = (
      (authorize-IsTransparent base_url target web_id origin required).1 cache coherent,
      (authorize_read-IsTransparent base_url target web_id origin required).1 cache coherent,
      (authorize_planned-IsTransparent candidates plan_acls web_id origin required).1 cache
          coherent,
      (authorize_read_planned-IsTransparent candidates plan_acls web_id origin required).1 cache
          coherent,
    )
