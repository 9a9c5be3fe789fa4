-- ===== src/Cache/Acl/Laws.antt =====
-- src/acl_cache.rs: bounds, and what a hit can return.
use mathlib.Core.Path.{subst, sym}
use solid_server_rs.Prelude.{
  ℕ, ◌≤◌, ◌<◌, leb, suc, ◌≡◌, refl, ◌≢◌, inl, inr, true, not, ◌&&◌, Option, none, some, List, [],
  Str, str_eq, str_eq_iff, str_eq_self, length, if◌then◌else◌, ◌==◌, arith, Bool-cases,
  Option-cases,
}
use solid_server_rs.Collections.{HashMap, get, insert, contains_key, evict_one, str_key}
use solid_server_rs.Collections.Laws.{
  get-remove, length-remove-le, length-remove-lt, get-evict_one, length-evict_one-lt,
  contains_of_get, get-insert_cases,
}
use solid_server_rs.Authz.Acl.{Triple}
use solid_server_rs.Cache.Acl.{
  AclEntry, Inner, off, poisoned, open_map, AclCache, disabled, with_max_entry_ttl, is_fresh,
  lookup_in, store_in, invalidate_in, next_tick, make_room, touch,
}

-- An enabled cache holds at most `capacity` entries, and has room for one.
abbrev pub Fits : ℕ → Inner → Type 0
Fits capacity off = Unit
Fits capacity poisoned = Unit
Fits capacity (open_map m) = (0 < capacity) × (length m ≤ capacity)

abbrev pub IsValid : AclCache → Type 0
IsValid c = Fits c.capacity c.inner

length-insert-le :
    (k : Str) (e : AclEntry) (m : HashMap Str AclEntry) → length (insert k e m) ≤ suc (length m)
unfolding insert
length-insert-le k e m = omega (arith, length-remove-le k m)

-- Overwriting an entry adds none.
length-insert-le_of_known :
    (k : Str) (e : AclEntry) (m : HashMap Str AclEntry)
    → contains_key k m ≡ true
    → length (insert k e m) ≤ length m
unfolding insert
length-insert-le_of_known k e m h = length-remove-lt k m h

length-make_room :
    (capacity : ℕ) (k : Str) (e : AclEntry) (m : HashMap Str AclEntry)
    → 0 < capacity
    → length m ≤ capacity
    → length (insert k e (make_room capacity k m)) ≤ capacity
length-make_room capacity k e m positive fits = elim (Bool-cases (contains_key k m)) [
  | inl known ↦ rw known (omega (arith, length-insert-le_of_known k e m known))
  | inr fresh ↦ elim (Bool-cases (leb capacity (length m))) [
    | inr room ↦ rw (fresh, room) (ground (arith, length-insert-le k e m))
    | inl full ↦
        let some_entry : m ≢ [] = λ empty. ground arith in
        rw (fresh, full)
          (omega (
            arith,
            length-insert-le k e (evict_one (λ e. e.last_access) m),
            length-evict_one-lt (λ e. e.last_access) m some_entry,
          ))
  ]
]

-- What an operation of the cache does to a key, with nothing ever evicted or expired.
abbrev pub Ideal : Type 0
Ideal = Str → Option (Str × List Triple × ℕ)

abbrev pub Agrees : Ideal → Inner → Type 0
Agrees ideal off = Unit
Agrees ideal poisoned = Unit
Agrees ideal (open_map m) =
    (k : Str) (e : AclEntry) → get k m ≡ some e → ideal k ≡ some (e.etag, e.triples, e.inserted_at)

pub record Tracks (ideal : Ideal) (c : AclCache) : Type 0 where
  pub fits : IsValid c
  pub agrees : Agrees ideal c.inner

unfoldable pub update : Str → Option (Str × List Triple × ℕ) → Ideal → Ideal
update k v ideal j = if str_eq k j then v else ideal j

pub lookup_in-Tracks :
    (ideal : Ideal) (c : AclCache) (i : Inner) (iri etag : Str) (now : ℕ)
    → Tracks ideal c
    → Fits c.capacity i
    → Agrees ideal i
    → Tracks ideal (lookup_in c i iri etag now).0
unfolding lookup_in
lookup_in-Tracks ideal c off iri etag now t f a = t
lookup_in-Tracks ideal c poisoned iri etag now t f a = t
lookup_in-Tracks ideal c (open_map m) iri etag now t (positive, fits) a =
    elim (Option-cases (get iri m)) [
      | inl missing ↦ rw (missing, lookup_in) t
      | inr (e, found) ↦ elim (Bool-cases (is_fresh c e etag now)) [
        | inr stale ↦
            rw (found, stale, lookup_in)
              (record {
                fits = (positive, omega (arith, length-remove-le iri m));
                agrees = λ k e' h. a k e' (ground (arith, get-remove iri k m));
              })
        | inl fresh ↦
            rw (found, fresh, lookup_in)
              (record {
                fits = (
                  positive,
                  omega (
                    arith,
                    length-insert-le_of_known iri (touch (next_tick c) e) m
                        (contains_of_get iri m e found),
                  ),
                );
                agrees = λ k e' h. elim (get-insert_cases iri k (touch (next_tick c) e) e' m h) [
                  | inl (same, new) ↦ rw (← same, ← new) (a iri e found)
                  | inr (_, old) ↦ a k e' old
                ];
              })
      ]
    ]

pub get-make_room :
    (capacity : ℕ) (iri k : Str) (m : HashMap Str AclEntry) (e : AclEntry)
    → get k (make_room capacity iri m) ≡ some e
    → get k m ≡ some e
get-make_room capacity iri k m e h =
    elim (Bool-cases (not (contains_key iri m) && leb capacity (length m))) [
      | inl full ↦ get-evict_one (λ e. e.last_access) k m e (rw full at h)
      | inr room ↦ rw room at h
    ]

pub store_in-Tracks :
    (ideal : Ideal) (c : AclCache) (i : Inner) (iri : Str) (e : AclEntry)
    → Tracks ideal c
    → c.inner ≡ i
    → Fits c.capacity i
    → Agrees ideal i
    → Tracks (update iri (some (e.etag, e.triples, e.inserted_at)) ideal) (store_in c i iri e)
unfolding store_in update
store_in-Tracks ideal c off iri e t same f a = record {
  fits = t.fits;
  agrees = subst (Agrees _) (sym same) tt;
}
store_in-Tracks ideal c poisoned iri e t same f a = record {
  fits = t.fits;
  agrees = subst (Agrees _) (sym same) tt;
}
store_in-Tracks ideal c (open_map m) iri e t same (positive, fits) a = record {
  fits = (positive, length-make_room c.capacity iri e m positive fits);
  agrees = λ k e' h. elim (get-insert_cases iri k e e' (make_room c.capacity iri m) h) [
    | inl (here, new) ↦ rw (← here, ← new, str_eq_self iri) refl
    | inr (other, old) ↦
        ground (arith, str_eq_iff iri k, a k e' (get-make_room c.capacity iri k m e' old))
  ];
}

pub invalidate_in-Tracks :
    (ideal : Ideal) (c : AclCache) (i : Inner) (iri : Str)
    → Tracks ideal c
    → c.inner ≡ i
    → Fits c.capacity i
    → Agrees ideal i
    → Tracks (update iri none ideal) (invalidate_in c i iri)
unfolding invalidate_in update
invalidate_in-Tracks ideal c (open_map m) iri t same (positive, fits) a = record {
  fits = (positive, omega (arith, length-remove-le iri m));
  agrees = λ k e h. ground (arith, get-remove iri k m, a k e);
}
invalidate_in-Tracks ideal c i iri t same f a = record {
  fits = t.fits;
  agrees = subst (Agrees _) (sym same) tt;
}

pub with_max_entry_ttl-Tracks :
    (capacity ttl : ℕ) → Tracks (λ k. none) (with_max_entry_ttl capacity ttl)
unfolding with_max_entry_ttl disabled get
with_max_entry_ttl-Tracks capacity ttl = elim (Bool-cases (capacity == 0)) [
  | inl e ↦ rw e (record { fits = tt; agrees = tt })
  | inr n ↦ rw n (record { fits = (omega arith, omega arith); agrees = λ k e h. cc })
]
