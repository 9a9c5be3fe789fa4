-- ===== src/Authz/Wac/Decisions.antt =====
-- src/authz/wac.rs: decisions as the handlers take them, through a cache that may be there or not.
use solid_server_rs.Prelude.{ℕ, ◌≡◌, ap, ◌∙◌, sym, Option, none, some, List, Str, ◌||◌}
use solid_server_rs.Error.{Result, ok}
use solid_server_rs.Authz.Mode.{AccessMode, contains}
use solid_server_rs.Authz.Acl.{Triple}
use solid_server_rs.Authz.Paths.{protected_resource}
use solid_server_rs.Authz.Reader.{Store, Wac}
use solid_server_rs.Authz.Reader.Coherence.{IsSnapshot, IsCoherent, IsTransparent}
use solid_server_rs.Authz.Wac.{
  EffectivePermissions, allow, unauthenticated, forbidden, allow_read, read_unauthenticated,
  read_forbidden, read_plan_candidates, authorize, authorize_read, effective_permissions,
  authorize_planned, authorize_read_planned,
}
use solid_server_rs.Authz.Wac.Cached.{
  authorize-IsTransparent, authorize_read-IsTransparent, effective_permissions-IsTransparent,
  authorize_planned-IsTransparent, authorize_read_planned-IsTransparent,
}
use solid_server_rs.Authz.Wac.Governing.{scopes, NoDocument}
use solid_server_rs.Authz.Wac.Plan.{Plans, authorize_planned-authorize}
use solid_server_rs.Authz.Wac.Authorize.{authorize_read-allow, no_acl-denied}
use solid_server_rs.Authz.Wac.Advertise.{authorize_read-effective_permissions}
use solid_server_rs.Ldp.Content.{RdfFormat}
use solid_server_rs.Cache.Acl.{AclCache}

module _ (store : Store) (parse_to_triples : RdfFormat → List ℕ → Str → Result (List Triple))
    (now_secs : Str → ℕ) (snapshot : IsSnapshot store) (cache : Option AclCache)
    (coherent : IsCoherent store parse_to_triples cache) (base_url target : Str) where
  -- what is answered without a cache is answered with this one, and the other way round
  cached :
      {A : Type 0} (m : Wac A) (r : Result A)
      → IsTransparent store parse_to_triples m
      → m none ≡ (none, r)
      → (m cache).1 ≡ r
  cached m r t h = (t.1 cache coherent).1 ∙ ap (λ p. p.1) h

  uncached :
      {A : Type 0} (m : Wac A) (r : Result A)
      → IsTransparent store parse_to_triples m
      → (m cache).1 ≡ r
      → m none ≡ (none, r)
  uncached m r t h =
      let same : (m none).1 ≡ r = sym (t.1 cache coherent).1 ∙ h in λ i. (t.0 i, same i)

  -- Over a store that answers as one snapshot, with no cache or with any coherent one: where no candidate
  -- has an ACL document, every request and every read is denied, with 401 to the anonymous and with 403
  -- to whoever has a WebID, whatever the mode and the origin.
  pub no_acl-refused :
      (required : AccessMode) (w : Str) (origin : Option Str)
      → NoDocument store parse_to_triples now_secs (scopes base_url (protected_resource target))
      → ((authorize store parse_to_triples now_secs base_url target required none origin cache).1
          ≡ ok unauthenticated)
        × ((authorize store parse_to_triples now_secs base_url target required
              (some w)
              origin
              cache).1
            ≡ ok forbidden)
        × ((authorize_read store parse_to_triples now_secs base_url target required none origin
              cache).1
            ≡ ok read_unauthenticated)
        × ((authorize_read store parse_to_triples now_secs base_url target required
              (some w)
              origin
              cache).1
            ≡ ok read_forbidden)
  no_acl-refused required w origin h =
      let (plain, read_plain) =
        no_acl-denied store parse_to_triples now_secs base_url target required none origin h in
      let (known, read_known) =
        no_acl-denied store parse_to_triples now_secs base_url target required (some w) origin h in
      let t = authorize-IsTransparent store parse_to_triples now_secs snapshot base_url target in
      let u =
        authorize_read-IsTransparent store parse_to_triples now_secs snapshot base_url target in
      (
        cached _ _ (t none origin required) plain,
        cached _ _ (t (some w) origin required) known,
        cached _ _ (u none origin required) read_plain,
        cached _ _ (u (some w) origin required) read_known,
      )

  module _ (required : AccessMode) (web_id origin : Option Str) where
    -- Over a store that answers as one snapshot, with no cache or with any coherent one: under a plan
    -- that lists the candidates and is true to the store about the absent documents, the planned
    -- methods answer as the step-by-step ones.
    pub authorize_planned-cached :
        (plan : List (Str × Option Str))
        → Plans store parse_to_triples now_secs (read_plan_candidates base_url target) plan
        → ((authorize_planned store parse_to_triples now_secs required web_id origin
              (read_plan_candidates base_url target)
              plan
              cache).1
            ≡ (authorize store parse_to_triples now_secs base_url target required web_id origin
                cache).1)
          × ((authorize_read_planned store parse_to_triples now_secs required web_id origin
                (read_plan_candidates base_url target)
                plan
                cache).1
              ≡ (authorize_read store parse_to_triples now_secs base_url target required web_id
                  origin cache).1)
    authorize_planned-cached plan h =
        let (same, same_read) =
          authorize_planned-authorize store parse_to_triples now_secs base_url target required
            web_id origin plan h in
        let candidates = read_plan_candidates base_url target in
        let p =
          authorize_planned-IsTransparent store parse_to_triples now_secs snapshot candidates plan
            web_id origin required in
        let q =
          authorize_read_planned-IsTransparent store parse_to_triples now_secs snapshot candidates
            plan web_id origin required in
        let t =
          authorize-IsTransparent store parse_to_triples now_secs snapshot base_url target web_id
            origin required in
        let u =
          authorize_read-IsTransparent store parse_to_triples now_secs snapshot base_url target
            web_id origin required in
        (
          (p.1 cache coherent).1 ∙ ap (λ r. r.1) same ∙ sym (t.1 cache coherent).1,
          (q.1 cache coherent).1 ∙ ap (λ r. r.1) same_read ∙ sym (u.1 cache coherent).1,
        )

    -- Over a store that answers as one snapshot, with no cache or with any coherent one: a read is
    -- allowed only where `authorize` allows it, with the same modes for the user; and nothing is
    -- advertised to the public that the user is not granted.
    pub authorize_read-cached :
        (perms : EffectivePermissions)
        → (authorize_read store parse_to_triples now_secs base_url target required web_id origin
            cache).1
          ≡ ok (allow_read perms)
        → ((authorize store parse_to_triples now_secs base_url target required web_id origin
              cache).1
            ≡ ok (allow perms.user))
          × ((m : AccessMode)
              → (contains perms.public m || contains perms.user m) ≡ contains perms.user m)
    authorize_read-cached perms h =
        let t =
          authorize-IsTransparent store parse_to_triples now_secs snapshot base_url target web_id
            origin required in
        let u =
          authorize_read-IsTransparent store parse_to_triples now_secs snapshot base_url target
            web_id origin required in
        let (allowed, narrower) =
          authorize_read-allow store parse_to_triples now_secs base_url target required web_id
            origin perms (uncached _ _ u h) in
        (cached _ _ t allowed, narrower)

    -- Over a store that answers as one snapshot, with no cache or with any coherent one: on a permitted
    -- read the modes that are advertised are those that a pass for the user and one for the public
    -- would find, whether or not the user's modes are handed on.
    pub effective_permissions-cached :
        (perms : EffectivePermissions)
        → (authorize_read store parse_to_triples now_secs base_url target required web_id origin
            cache).1
          ≡ ok (allow_read perms)
        → ((effective_permissions store parse_to_triples now_secs base_url target web_id origin none
              cache).1
            ≡ ok perms)
          × ((effective_permissions store parse_to_triples now_secs base_url target web_id origin
                (some perms.user)
                cache).1
              ≡ ok perms)
    effective_permissions-cached perms h =
        let u =
          authorize_read-IsTransparent store parse_to_triples now_secs snapshot base_url target
            web_id origin required in
        let e =
          effective_permissions-IsTransparent store parse_to_triples now_secs snapshot base_url
            target web_id origin in
        let (fresh, handed) =
          authorize_read-effective_permissions store parse_to_triples now_secs base_url target
            required web_id origin perms (uncached _ _ u h) in
        (cached _ _ (e none) fresh, cached _ _ (e (some perms.user)) handed)
