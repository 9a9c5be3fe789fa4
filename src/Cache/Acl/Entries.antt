-- ===== src/Cache/Acl/Entries.antt =====
-- src/acl_cache.rs: what holds of every entry stays true of every entry.
use solid_server_rs.Prelude.{
  ℕ, ◌≡◌, refl, sym, inl, inr, some, Str, arith, Bool-cases, Option-cases,
}
use mathlib.Core.Path.{subst}
use solid_server_rs.Collections.{get, str_key}
use solid_server_rs.Collections.Laws.{get-remove, get-insert_cases}
use solid_server_rs.Authz.Acl.{Triple}
use solid_server_rs.Prelude.{List}
use solid_server_rs.Cache.Acl.{
  AclEntry, Inner, off, poisoned, open_map, AclCache, is_fresh, lookup, lookup_in, store, store_in,
  next_tick, make_room, touch,
}
use solid_server_rs.Cache.Acl.Laws.{get-make_room}
use solid_server_rs.Cache.Acl.History.{is_fresh_parts}

-- `P key etag triples`, of every entry
module _ (P : Str → Str → List Triple → Type 0) where
  abbrev pub Entries : Inner → Type 0
  Entries off = Unit
  Entries poisoned = Unit
  Entries (open_map m) = (k : Str) (e : AclEntry) → get k m ≡ some e → P k e.etag e.triples

  lookup_in-Entries :
      (c : AclCache) (i : Inner) (iri etag : Str) (now : ℕ)
      → c.inner ≡ i
      → Entries i
      → Entries (lookup_in c i iri etag now).0.inner
  unfolding lookup_in
  lookup_in-Entries c off iri etag now same h = subst Entries (sym same) h
  lookup_in-Entries c poisoned iri etag now same h = subst Entries (sym same) h
  lookup_in-Entries c (open_map m) iri etag now same h = elim (Option-cases (get iri m)) [
    | inl missing ↦ rw (missing, lookup_in) (subst Entries (sym same) h)
    | inr (e, found) ↦ elim (Bool-cases (is_fresh c e etag now)) [
      | inr stale ↦
          rw (found, stale, lookup_in) (λ k e' got. h k e' (ground (arith, get-remove iri k m)))
      | inl fresh ↦
          rw (found, fresh, lookup_in)
            (λ k e' got. elim (get-insert_cases iri k (touch (next_tick c) e) e' m got) [
              | inl (here, new) ↦ rw (← here, ← new) (h iri e found)
              | inr (_, old) ↦ h k e' old
            ])
    ]
  ]

  pub lookup-Entries :
      (c : AclCache) (iri etag : Str) (now : ℕ)
      → Entries c.inner
      → Entries (lookup c iri etag now).0.inner
  unfolding lookup
  lookup-Entries c iri etag now h = lookup_in-Entries c c.inner iri etag now refl h

  lookup_in-found :
      (c : AclCache) (i : Inner) (iri etag : Str) (now : ℕ) (triples : List Triple)
      → Entries i
      → (lookup_in c i iri etag now).1 ≡ some triples
      → P iri etag triples
  unfolding lookup_in
  lookup_in-found c off iri etag now triples h hit = absurd (cc hit)
  lookup_in-found c poisoned iri etag now triples h hit = absurd (cc hit)
  lookup_in-found c (open_map m) iri etag now triples h hit = elim (Option-cases (get iri m)) [
    | inl missing ↦ absurd (ground arith)
    | inr (e, found) ↦ elim (Bool-cases (is_fresh c e etag now)) [
      | inr stale ↦ absurd (ground arith)
      | inl fresh ↦
          let (tag, _) = is_fresh_parts c e etag now fresh in
          let same : e.triples ≡ triples = ground arith in rw (← tag, ← same) (h iri e found)
    ]
  ]

  -- A hit returns triples of which the property holds, at the ETag that was asked for.
  pub lookup-found :
      (c : AclCache) (iri etag : Str) (now : ℕ) (triples : List Triple)
      → Entries c.inner
      → (lookup c iri etag now).1 ≡ some triples
      → P iri etag triples
  unfolding lookup
  lookup-found c iri etag now triples h hit = lookup_in-found c c.inner iri etag now triples h hit

  store_in-Entries :
      (c : AclCache) (i : Inner) (iri : Str) (e : AclEntry)
      → c.inner ≡ i
      → Entries i
      → P iri e.etag e.triples
      → Entries (store_in c i iri e).inner
  unfolding store_in
  store_in-Entries c off iri e same h p = subst Entries (sym same) h
  store_in-Entries c poisoned iri e same h p = subst Entries (sym same) h
  store_in-Entries c (open_map m) iri e same h p = λ k e' got.
      elim (get-insert_cases iri k e e' (make_room c.capacity iri m) got) [
        | inl (here, new) ↦ rw (← here, ← new) p
        | inr (_, old) ↦ h k e' (get-make_room c.capacity iri k m e' old)
      ]

  pub store-Entries :
      (c : AclCache) (iri etag : Str) (triples : List Triple) (now : ℕ)
      → Entries c.inner
      → P iri etag triples
      → Entries (store c iri etag triples now).inner
  unfolding store
  store-Entries c iri etag triples now h p = store_in-Entries c c.inner iri _ refl h p
