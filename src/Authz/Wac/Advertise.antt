-- ===== src/Authz/Wac/Advertise.antt =====
-- src/authz/wac.rs: what `WAC-Allow` advertises on a permitted read, in one pass and in two.
use mathlib.Core.Path.{subst}
use solid_server_rs.Prelude.{◌≡◌, refl, inl, inr, Bool-cases, Option, none, some, List, ℕ, Str}
use solid_server_rs.Error.{Result, ok, err}
use solid_server_rs.Authz.Mode.{AccessMode}
use solid_server_rs.Authz.Acl.{Triple, satisfies}
use solid_server_rs.Authz.Paths.{protected_resource}
use solid_server_rs.Authz.Reader.{Store, Wac, pure, and_then}
use solid_server_rs.Authz.Wac.{
  ResolvedAcl, EffectivePermissions, allow_read, authorize_read, resolve_effective_acl,
  effective_permissions, resolved_modes_for, decide_read, public_modes,
}
use solid_server_rs.Authz.Wac.Governing.{resolve-none}
use solid_server_rs.Authz.Wac.Authorize.{denied_read-ne}
use solid_server_rs.Ldp.Content.{RdfFormat}

decide_read-perms :
    (r : ResolvedAcl) (required : AccessMode) (web_id origin : Option Str)
    (perms : EffectivePermissions)
    → decide_read r required web_id origin ≡ allow_read perms
    → (let user = resolved_modes_for r (record { web_id = web_id; origin = origin }) in
        ◌≡◌ {A = EffectivePermissions}
          (record { user = user; public = public_modes r user web_id origin })
          perms)
decide_read-perms r required web_id origin perms h =
    let user = resolved_modes_for r (record { web_id = web_id; origin = origin }) in
    elim (Bool-cases (satisfies user required)) [
      | inr n ↦ absurd (denied_read-ne web_id perms (rw n at h))
      | inl y ↦ cc (rw y at h)
    ]

module _ (store : Store) (parse_to_triples : RdfFormat → List ℕ → Str → Result (List Triple))
    (now_secs : Str → ℕ) (base_url target : Str) (required : AccessMode) where
  abbrev resolve : Wac ResolvedAcl
  resolve =
      resolve_effective_acl store parse_to_triples now_secs base_url (protected_resource target)

  two_passes :
      (r : ResolvedAcl) (web_id origin : Option Str)
      → resolve none ≡ (none, ok r)
      → (let user = resolved_modes_for r (record { web_id = web_id; origin = origin }) in
          let perms : EffectivePermissions = record {
            user = user;
            public = public_modes r user web_id origin;
          } in
          (effective_permissions store parse_to_triples now_secs base_url target web_id origin none
              none
            ≡ (none, ok perms))
          × (effective_permissions store parse_to_triples now_secs base_url target web_id origin
                (some user)
                none
              ≡ (none, ok perms)))
  unfolding effective_permissions
  two_passes r none origin e = (rw e refl, refl)
  two_passes r (some w) origin e = (rw e (rw e refl), rw e refl)

  -- Without the cache, on a permitted read the modes that are advertised are those that a pass for the user and one for
  -- the public would find, whether or not the user's modes are handed on.
  pub authorize_read-effective_permissions :
      (web_id origin : Option Str) (perms : EffectivePermissions)
      → authorize_read store parse_to_triples now_secs base_url target required web_id origin none
        ≡ (none, ok (allow_read perms))
      → (effective_permissions store parse_to_triples now_secs base_url target web_id origin none
            none
          ≡ (none, ok perms))
        × (effective_permissions store parse_to_triples now_secs base_url target web_id origin
              (some perms.user)
              none
            ≡ (none, ok perms))
  unfolding authorize_read
  authorize_read-effective_permissions web_id origin perms h =
      let e : resolve none ≡ (none, (resolve none).1) = λ i. (
        resolve-none store parse_to_triples now_secs base_url (protected_resource target) i,
        (resolve none).1,
      ) in
      on (resolve none).1 e (
        subst
          (λ o.
            and_then o (λ r. pure (decide_read r required web_id origin))
            ≡ (none, ok (allow_read perms)))
          e h)
    where
      on :
          (r : Result ResolvedAcl)
          → resolve none ≡ (none, r)
          → and_then (none, r) (λ r. pure (decide_read r required web_id origin))
            ≡ (none, ok (allow_read perms))
          → (effective_permissions store parse_to_triples now_secs base_url target web_id origin
                none none
              ≡ (none, ok perms))
            × (effective_permissions store parse_to_triples now_secs base_url target web_id origin
                  (some perms.user)
                  none
                ≡ (none, ok perms))
      on (err x) e h = absurd (cc h)
      on (ok r) e h =
          subst
            (λ (p : EffectivePermissions).
              (effective_permissions store parse_to_triples now_secs base_url target web_id origin
                  none none
                ≡ (none, ok p))
              × (effective_permissions store parse_to_triples now_secs base_url target web_id origin
                    (some p.user) none
                  ≡ (none, ok p)))
            (decide_read-perms r required web_id origin perms (cc h)) (two_passes r web_id origin e)
