-- ===== src/Cache/Acl/History.antt =====
-- src/acl_cache.rs: any sequence of calls, against a cache that forgets nothing.
use mathlib.Core.Path.{subst}
use solid_server_rs.Prelude.{
  ℕ, ◌<◌, ◌≤◌, ◌≡◌, refl, ◌∙◌, max, inl, inr, true, none, some, List, [], ◌∷◌, Str, str_eq_iff,
  Bool-cases, Option-cases, arith, length,
}
use solid_server_rs.Collections.{HashMap, get, str_key}
use solid_server_rs.Authz.Acl.{Triple}
use solid_server_rs.Cache.Acl.{
  saturating_add, AclEntry, Inner, off, poisoned, open_map, AclCache, is_fresh, lookup, lookup_in,
  store, store_in, invalidate, invalidate_in, disabled, with_max_entry_ttl,
}
use solid_server_rs.Cache.Acl.Laws.{
  Fits, Ideal, Agrees, Tracks, update, lookup_in-Tracks, store_in-Tracks, invalidate_in-Tracks,
  with_max_entry_ttl-Tracks,
}

pub data Call : Type 0 where
  get_call : Str → Str → ℕ → Call
  insert_call : Str → Str → List Triple → ℕ → Call
  invalidate_call : Str → Call

unfoldable pub run : AclCache → List Call → AclCache
run c [] = c
run c (get_call iri etag now ∷ calls) = run (lookup c iri etag now).0 calls
run c (insert_call iri etag triples now ∷ calls) = run (store c iri etag triples now) calls
run c (invalidate_call iri ∷ calls) = run (invalidate c iri) calls

-- What was last stored under each key, and not invalidated since.
unfoldable pub last_stored : Ideal → List Call → Ideal
last_stored ideal [] = ideal
last_stored ideal (get_call _ _ _ ∷ calls) = last_stored ideal calls
last_stored ideal (insert_call iri etag triples now ∷ calls) =
    last_stored (update iri (some (etag, triples, now)) ideal) calls
last_stored ideal (invalidate_call iri ∷ calls) = last_stored (update iri none ideal) calls

run-Tracks :
    (calls : List Call) (ideal : Ideal) (c : AclCache)
    → Tracks ideal c
    → Tracks (last_stored ideal calls) (run c calls)
unfolding run last_stored lookup store invalidate
run-Tracks [] ideal c t = t
run-Tracks (get_call iri etag now ∷ calls) ideal c t =
    run-Tracks calls ideal _ (lookup_in-Tracks ideal c c.inner iri etag now t t.fits t.agrees)
run-Tracks (insert_call iri etag triples now ∷ calls) ideal c t =
    run-Tracks calls _ _ (store_in-Tracks ideal c c.inner iri _ t refl t.fits t.agrees)
run-Tracks (invalidate_call iri ∷ calls) ideal c t =
    run-Tracks calls _ _ (invalidate_in-Tracks ideal c c.inner iri t refl t.fits t.agrees)

-- The limits of a cache never change.
abbrev SameLimits : AclCache → AclCache → Type 0
SameLimits c d = (d.capacity ≡ c.capacity) × (d.max_entry_ttl_secs ≡ c.max_entry_ttl_secs)

lookup_in-SameLimits :
    (c : AclCache) (i : Inner) (iri etag : Str) (now : ℕ)
    → SameLimits c (lookup_in c i iri etag now).0
unfolding lookup_in
lookup_in-SameLimits c off iri etag now = (refl, refl)
lookup_in-SameLimits c poisoned iri etag now = (refl, refl)
lookup_in-SameLimits c (open_map m) iri etag now = ground arith

store_in-SameLimits :
    (c : AclCache) (i : Inner) (iri : Str) (e : AclEntry) → SameLimits c (store_in c i iri e)
unfolding store_in
store_in-SameLimits c off iri e = (refl, refl)
store_in-SameLimits c _ iri e = (refl, refl)

invalidate_in-SameLimits :
    (c : AclCache) (i : Inner) (iri : Str) → SameLimits c (invalidate_in c i iri)
unfolding invalidate_in
invalidate_in-SameLimits c off iri = (refl, refl)
invalidate_in-SameLimits c (open_map m) iri = (refl, refl)
invalidate_in-SameLimits c _ iri = (refl, refl)

run-SameLimits : (calls : List Call) (c : AclCache) → SameLimits c (run c calls)
unfolding run lookup store invalidate
run-SameLimits [] c = (refl, refl)
run-SameLimits (get_call iri etag now ∷ calls) c =
    let (a, b) = lookup_in-SameLimits c c.inner iri etag now in
    let (a', b') = run-SameLimits calls (lookup_in c c.inner iri etag now).0 in (a' ∙ a, b' ∙ b)
run-SameLimits (insert_call iri etag triples now ∷ calls) c =
    let c' = store c iri etag triples now in
    let (a, b) = store_in-SameLimits c c.inner iri _ in
    let (a', b') = run-SameLimits calls c' in (a' ∙ a, b' ∙ b)
run-SameLimits (invalidate_call iri ∷ calls) c =
    let (a, b) = invalidate_in-SameLimits c c.inner iri in
    let (a', b') = run-SameLimits calls (invalidate c iri) in (a' ∙ a, b' ∙ b)

pub is_fresh_parts :
    (c : AclCache) (e : AclEntry) (etag : Str) (now : ℕ)
    → is_fresh c e etag now ≡ true
    → (e.etag ≡ etag) × (now < saturating_add e.inserted_at c.max_entry_ttl_secs)
unfolding is_fresh
is_fresh_parts c e etag now h = ground (arith, str_eq_iff e.etag etag)

lookup_in-hit :
    (ideal : Ideal) (c : AclCache) (i : Inner) (iri etag : Str) (now : ℕ) (triples : List Triple)
    → Agrees ideal i
    → (lookup_in c i iri etag now).1 ≡ some triples
    → (at : ℕ) × (ideal iri ≡ some (etag, triples, at))
      × (now < saturating_add at c.max_entry_ttl_secs)
unfolding lookup_in
lookup_in-hit ideal c off iri etag now triples a h = cc
lookup_in-hit ideal c poisoned iri etag now triples a h = cc
lookup_in-hit ideal c (open_map m) iri etag now triples a h = elim (Option-cases (get iri m)) [
  | inl missing ↦ absurd (cc (rw (missing, lookup_in) at h))
  | inr (e, found) ↦ elim (Bool-cases (is_fresh c e etag now)) [
    | inr stale ↦ absurd (ground arith)
    | inl fresh ↦
        let (tag, time) = is_fresh_parts c e etag now fresh in
        let same : e.triples ≡ triples = ground arith in
        (e.inserted_at, rw (← tag, ← same) (a iri e found), time)
  ]
]

abbrev pub empty : Ideal
empty k = none

limits-le :
    (capacity ttl : ℕ)
    → ((with_max_entry_ttl capacity ttl).max_entry_ttl_secs ≤ max ttl 1)
      × ((with_max_entry_ttl capacity ttl).capacity ≡ capacity)
unfolding with_max_entry_ttl disabled
limits-le capacity ttl = ground arith

saturating_add_mono : (a b c : ℕ) → b ≤ c → saturating_add a b ≤ saturating_add a c
unfolding saturating_add
saturating_add_mono a b c h = omega arith

-- After any calls on a new cache, a hit returns the triples that were last stored for this IRI, at
-- the ETag that is asked for, not invalidated since and not older than the limit.
pub hit-last_stored :
    (capacity ttl : ℕ) (calls : List Call) (iri etag : Str) (now : ℕ) (triples : List Triple)
    → (lookup (run (with_max_entry_ttl capacity ttl) calls) iri etag now).1 ≡ some triples
    → (at : ℕ) × (last_stored empty calls iri ≡ some (etag, triples, at))
      × (now < saturating_add at (max ttl 1))
unfolding lookup
hit-last_stored capacity ttl calls iri etag now triples h =
    let c = with_max_entry_ttl capacity ttl in
    let d = run c calls in
    let t = run-Tracks calls empty c (with_max_entry_ttl-Tracks capacity ttl) in
    let (at, stored, time) = lookup_in-hit _ d d.inner iri etag now triples t.agrees h in
    let (_, same) = run-SameLimits calls c in
    let (le, _) = limits-le capacity ttl in
    (
      at,
      stored,
      omega (arith, saturating_add_mono at d.max_entry_ttl_secs (max ttl 1) (rw same le)),
    )

-- After any calls on a new cache the map holds at most `capacity` entries.
pub run-bounded :
    (capacity ttl : ℕ) (calls : List Call) (m : HashMap Str AclEntry)
    → (run (with_max_entry_ttl capacity ttl) calls).inner ≡ open_map m
    → length m ≤ capacity
run-bounded capacity ttl calls m h =
    let c = with_max_entry_ttl capacity ttl in
    let t = run-Tracks calls empty c (with_max_entry_ttl-Tracks capacity ttl) in
    let (same, _) = run-SameLimits calls c in
    let fits : Fits (run c calls).capacity (open_map m) =
      subst (Fits (run c calls).capacity) h t.fits in
    omega (arith, same, (limits-le capacity ttl).1)
