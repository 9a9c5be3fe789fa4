-- ===== src/Cache/Acl.antt =====
-- src/acl_cache.rs: the cache of parsed ACL documents, keyed by IRI and checked against the current
-- ETag. Seconds are natural numbers, as `now_secs` gives them; `i64` addition saturates. A lock
-- that a panic has poisoned is `poisoned`, and its map is out of reach.
pub mod Laws
pub mod History
pub mod Entries
use solid_server_rs.Prelude.{
  ℕ, ◌+◌, ◌-◌, ◌%◌, ◌^◌, min, max, ltb, leb, Bool, true, false, not, ◌&&◌, ◌||◌, Option, none, some,
  List, [], Str, str_eq, length, if◌then◌else◌, ◌==◌,
}
use solid_server_rs.Collections.{HashMap, get, remove, insert, contains_key, evict_one, str_key}
use solid_server_rs.Authz.Acl.{Triple}

abbrev pub i64_max : ℕ
i64_max = 2 ^ 63 - 1

unfoldable pub saturating_add : ℕ → ℕ → ℕ
saturating_add a b = min (a + b) i64_max

pub record AclEntry : Type 0 where
  pub etag : Str
  pub triples : List Triple
  pub inserted_at : ℕ
  pub last_access : ℕ

-- `Option<Mutex<HashMap<…>>>`
pub data Inner : Type 0 where
  off poisoned : Inner
  open_map : HashMap Str AclEntry → Inner

pub record AclCache : Type 0 where
  pub inner : Inner
  pub capacity : ℕ
  pub clock : ℕ
  pub max_entry_ttl_secs : ℕ

unfoldable pub disabled : AclCache
disabled = record { inner = off; capacity = 0; clock = 0; max_entry_ttl_secs = 1 }

unfoldable pub with_max_entry_ttl : ℕ → ℕ → AclCache
with_max_entry_ttl capacity max_entry_ttl_secs = if capacity == 0 then disabled else record {
  inner = open_map [];
  capacity = max capacity 1;
  clock = 0;
  max_entry_ttl_secs = max max_entry_ttl_secs 1;
}

abbrev pub default_max_entry_ttl_secs : ℕ
default_max_entry_ttl_secs = 300

unfoldable pub new : ℕ → AclCache
new capacity = with_max_entry_ttl capacity default_max_entry_ttl_secs

unfoldable pub is_enabled : AclCache → Bool
is_enabled c = elim c.inner [ off ↦ false | _ ↦ true ]

-- the entry's ETag is current and its time is not over
unfoldable pub is_fresh : AclCache → AclEntry → Str → ℕ → Bool
is_fresh c entry current_etag now =
    str_eq entry.etag current_etag
    && ltb now (saturating_add entry.inserted_at c.max_entry_ttl_secs)

-- `clock.fetch_add(1) + 1`: the counter wraps
abbrev pub next_tick : AclCache → ℕ
next_tick c = (c.clock + 1) % 2 ^ 64

abbrev pub touch : ℕ → AclEntry → AclEntry
touch tick entry = record entry { last_access = tick }

-- `get`, on what the lock holds: the new state of the cache, and the triples on a hit
abbrev hit : AclCache → HashMap Str AclEntry → Str → AclEntry → AclCache × Option (List Triple)
hit c m acl_iri entry = (
  record c { inner = open_map (insert acl_iri (touch (next_tick c) entry) m); clock = next_tick c },
  some entry.triples,
)

unfoldable pub lookup_in : AclCache → Inner → Str → Str → ℕ → AclCache × Option (List Triple)
lookup_in c off acl_iri current_etag now = (c, none)
lookup_in c poisoned acl_iri current_etag now = (c, none)
lookup_in c (open_map m) acl_iri current_etag now = elim (get acl_iri m) [
  | none ↦ (c, none)
  | some entry ↦
      if not (is_fresh c entry current_etag now)
      then (record c { inner = open_map (remove acl_iri m) }, none)
      else hit c m acl_iri entry
]

unfoldable pub lookup : AclCache → Str → Str → ℕ → AclCache × Option (List Triple)
unfolding lookup_in
lookup c acl_iri current_etag now = lookup_in c c.inner acl_iri current_etag now

-- the map of `insert` once the lock is held
abbrev pub make_room : ℕ → Str → HashMap Str AclEntry → HashMap Str AclEntry
make_room capacity acl_iri m =
    if not (contains_key acl_iri m) && leb capacity (length m)
    then evict_one (λ e. e.last_access) m
    else m

-- `insert`
unfoldable pub store_in : AclCache → Inner → Str → AclEntry → AclCache
store_in c off acl_iri entry = c
store_in c poisoned acl_iri entry = record c { clock = next_tick c }
store_in c (open_map m) acl_iri entry = record c {
  inner = open_map (insert acl_iri entry (make_room c.capacity acl_iri m));
  clock = next_tick c;
}

unfoldable pub store : AclCache → Str → Str → List Triple → ℕ → AclCache
unfolding store_in
store c acl_iri etag triples now =
    store_in c c.inner acl_iri
      (record { etag = etag; triples = triples; inserted_at = now; last_access = next_tick c })

unfoldable pub invalidate_in : AclCache → Inner → Str → AclCache
invalidate_in c (open_map m) acl_iri = record c { inner = open_map (remove acl_iri m) }
invalidate_in c _ acl_iri = c

unfoldable pub invalidate : AclCache → Str → AclCache
unfolding invalidate_in
invalidate c acl_iri = invalidate_in c c.inner acl_iri
