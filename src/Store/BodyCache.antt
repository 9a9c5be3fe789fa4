-- ===== src/Store/BodyCache.antt =====
-- src/store/body_cache.rs: the cache of bodies within a budget of bytes. A body is its bytes; a lock that
-- a panic has poisoned is `poisoned`, and its map is out of reach.
pub mod Evict
pub mod Budget
pub mod History
mod Tests
use solid_server_rs.Prelude.{
  ℕ, ◌+◌, ◌-◌, ◌/◌, ◌%◌, ◌^◌, min, max, ltb, leb, Bool, true, false, ◌&&◌, Option, none, some, List,
  [], ◌∷◌, Str, str_eq, str_eq_iff, byte_len, length, if◌then◌else◌, ◌==◌, ◌≡◌, ◌↔◌, arith,
}
use solid_server_rs.Collections.{Eq, HashMap, get, remove, insert}

abbrev pub usize_max : ℕ
usize_max = 2 ^ 64 - 1

unfoldable pub saturating_add : ℕ → ℕ → ℕ
saturating_add a b = min (a + b) usize_max

abbrev pub entry_overhead_bytes : ℕ
entry_overhead_bytes = 64

abbrev pub Key : Type 0
Key = Str × Str

abbrev pub key_eq : Key → Key → Bool
key_eq k j = str_eq k.0 j.0 && str_eq k.1 j.1

pub key_eq_iff : (k j : Key) → (key_eq k j ≡ true) ↔ (k ≡ j)
key_eq_iff k j = ground (arith, str_eq_iff k.0 j.0, str_eq_iff k.1 j.1)

instance abbrev pub body_key : Eq Key
body_key = record { beq = key_eq; beq_iff = key_eq_iff }

pub record BodyEntry : Type 0 where
  pub body : List ℕ
  pub charge : ℕ
  pub last_access : ℕ

pub record BodyCacheInner : Type 0 where
  pub map : HashMap Key BodyEntry
  pub total_charged : ℕ

-- `Option<Mutex<…>>`
pub data Inner : Type 0 where
  off poisoned : Inner
  open_inner : BodyCacheInner → Inner

pub record BodyCache : Type 0 where
  pub inner : Inner
  pub max_bytes : ℕ
  pub max_entry_bytes : ℕ
  pub clock : ℕ

unfoldable pub disabled : BodyCache
disabled = record { inner = off; max_bytes = 0; max_entry_bytes = 0; clock = 0 }

unfoldable pub with_max_entry_bytes : ℕ → ℕ → BodyCache
unfolding disabled
with_max_entry_bytes max_bytes max_entry_bytes = if max_bytes == 0 then disabled else record {
  inner = open_inner (record { map = []; total_charged = 0 });
  max_bytes = max_bytes;
  max_entry_bytes = min (max max_entry_bytes 1) max_bytes;
  clock = 0;
}

unfoldable pub new : ℕ → BodyCache
unfolding with_max_entry_bytes
new max_bytes = with_max_entry_bytes max_bytes (max (max_bytes / 8) 1)

unfoldable pub is_enabled : BodyCache → Bool
is_enabled c = elim c.inner [ off ↦ false | _ ↦ true ]

-- `clock.fetch_add(1) + 1`: the counter wraps
abbrev pub next_tick : BodyCache → ℕ
next_tick c = (c.clock + 1) % 2 ^ 64

abbrev pub touch : ℕ → BodyEntry → BodyEntry
touch tick entry = record entry { last_access = tick }

-- `get`, on what the lock holds
abbrev pub found : BodyCache → BodyCacheInner → Key → Option BodyEntry → BodyCache × Option (List ℕ)
found c g key none = (record c { clock = next_tick c }, none)
found c g key (some entry) = (
  record c {
    inner = open_inner (record g { map = insert key (touch (next_tick c) entry) g.map });
    clock = next_tick c;
  },
  some entry.body,
)

unfoldable pub lookup_in : BodyCache → Inner → Key → BodyCache × Option (List ℕ)
lookup_in c off key = (c, none)
lookup_in c poisoned key = (c, none)
lookup_in c (open_inner g) key = found c g key (get key g.map)

unfoldable pub lookup : BodyCache → Str → Str → BodyCache × Option (List ℕ)
unfolding lookup_in
lookup c blob_key etag = lookup_in c c.inner (blob_key, etag)

-- the keys by recency, the oldest first
unfoldable pub sorted_insert : ℕ × Key → List (ℕ × Key) → List (ℕ × Key)
sorted_insert e [] = e ∷ []
sorted_insert e (f ∷ fs) =
    let rest = sorted_insert e fs in if leb e.0 f.0 then e ∷ f ∷ fs else f ∷ rest

unfoldable pub by_recency : HashMap Key BodyEntry → List (ℕ × Key)
unfolding sorted_insert
by_recency [] = []
by_recency ((k, e) ∷ m) = sorted_insert (e.last_access, k) (by_recency m)

-- takes an entry out of the map and its charge off the total, if it is there
abbrev pub uncharge : BodyCacheInner → Key → Option BodyEntry → BodyCacheInner
uncharge g key none = g
uncharge g key (some old) = record {
  map = remove key g.map;
  total_charged = g.total_charged - old.charge;
}

abbrev pub freed_after : ℕ → Option BodyEntry → ℕ
freed_after freed none = freed
freed_after freed (some evicted) = saturating_add freed evicted.charge

-- the loop of `evict_until_freed`
unfoldable pub evict_loop : ℕ → ℕ → List (ℕ × Key) → BodyCacheInner → BodyCacheInner
evict_loop needed freed [] g = g
evict_loop needed freed ((tick, key) ∷ keys) g =
    let rest =
      evict_loop needed (freed_after freed (get key g.map)) keys (uncharge g key (get key g.map)) in
    if leb needed freed then g else rest

unfoldable pub evict_until_freed : BodyCacheInner → ℕ → BodyCacheInner
unfolding evict_loop by_recency
evict_until_freed g needed = evict_loop needed 0 (by_recency g.map) g

unfoldable pub charge_of : Str → Str → List ℕ → ℕ
unfolding saturating_add
charge_of blob_key etag body =
    saturating_add
      (saturating_add (saturating_add (length body) (byte_len blob_key)) (byte_len etag))
      entry_overhead_bytes

-- the eviction that an insertion needs
unfoldable pub make_room : ℕ → ℕ → BodyCacheInner → BodyCacheInner
unfolding evict_until_freed saturating_add
make_room max_bytes charge g =
    if ltb max_bytes (saturating_add g.total_charged charge)
    then evict_until_freed g (saturating_add g.total_charged charge - max_bytes)
    else g

abbrev pub charged : Key → BodyEntry → BodyCacheInner → BodyCacheInner
charged key entry g = record {
  map = insert key entry g.map;
  total_charged = saturating_add g.total_charged entry.charge;
}

-- `insert` once the lock is held
unfoldable pub store_in : BodyCache → Inner → Key → BodyEntry → BodyCache
unfolding make_room
store_in c off key entry = c
store_in c poisoned key entry = record c { clock = next_tick c }
store_in c (open_inner g) key entry = record c {
  inner =
      open_inner
        (charged key entry (make_room c.max_bytes entry.charge (uncharge g key (get key g.map))));
  clock = next_tick c;
}

-- `insert`
unfoldable pub store : BodyCache → Str → Str → List ℕ → BodyCache
unfolding store_in charge_of
store c blob_key etag body =
    let charge = charge_of blob_key etag body in
    if ltb c.max_entry_bytes charge
    then c
    else store_in c c.inner (blob_key, etag)
        (record { body = body; charge = charge; last_access = next_tick c })
