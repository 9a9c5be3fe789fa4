-- ===== src/Store/BodyCache/Tests.antt =====
-- src/store/body_cache.rs at concrete calls, and the theorems there.
use solid_server_rs.Prelude.{
  ℕ, ◌*◌, ◌≤◌, ◌≡◌, refl, none, some, List, [], ◌∷◌, Str, codes, str_eq, byte_len, utf8_len, length,
  arith,
}
use solid_server_rs.Collections.{get, remove, insert}
use solid_server_rs.Store.BodyCache.{
  BodyCacheInner, open_inner, Key, lookup, lookup_in, store, store_in, charge_of, saturating_add,
  with_max_entry_bytes, make_room, evict_until_freed, evict_loop, by_recency, sorted_insert,
}
use solid_server_rs.Store.BodyCache.Evict.{charges}
use solid_server_rs.Store.BodyCache.History.{
  Call, get_call, insert_call, run, hit-content, run-within_budget,
}

abbrev tag : Str
tag = codes "e"

-- Each entry is charged 67 bytes, so two fit: k2 is the least recently used when k3 comes.
abbrev calls : List Call
calls =
    insert_call (codes "k1") tag []
    ∷ insert_call (codes "k2") tag []
    ∷ get_call (codes "k1") tag
    ∷ insert_call (codes "k3") tag []
    ∷ []

oldest_is_evicted : (lookup (run (with_max_entry_bytes 140 140) calls) (codes "k2") tag).1 ≡ none
unfolding lookup lookup_in run store store_in charge_of saturating_add with_max_entry_bytes
    make_room evict_until_freed evict_loop by_recency sorted_insert get remove insert str_eq
    byte_len utf8_len
oldest_is_evicted = refl

recent_stays : (lookup (run (with_max_entry_bytes 140 140) calls) (codes "k1") tag).1 ≡ some []
unfolding lookup lookup_in run store store_in charge_of saturating_add with_max_entry_bytes
    make_room evict_until_freed evict_loop by_recency sorted_insert get remove insert str_eq
    byte_len utf8_len
recent_stays = refl

abbrev blobs : Key → List ℕ
blobs k = []

hit-content_example : ◌≡◌ {A = List ℕ} [] (blobs (codes "k1", tag))
hit-content_example =
    hit-content blobs 140 140 calls (codes "k1") tag [] (omega arith)
      (refl, (refl, (tt, (refl, tt)))) recent_stays

abbrev last_inner : BodyCacheInner
last_inner = record {
  map = ((codes "k1", tag), record { body = []; charge = 67; last_access = 1 }) ∷ [];
  total_charged = 67;
}

one_entry :
    (run (with_max_entry_bytes 140 140) (insert_call (codes "k1") tag [] ∷ [])).inner
    ≡ open_inner last_inner
unfolding run store store_in charge_of saturating_add with_max_entry_bytes make_room get remove
    insert byte_len utf8_len
one_entry = refl

run-within_budget_example :
    (last_inner.total_charged ≡ charges last_inner.map)
    × (last_inner.total_charged ≤ 140)
    × (64 * length last_inner.map ≤ 140)
run-within_budget_example =
    run-within_budget 140 140 (insert_call (codes "k1") tag [] ∷ []) last_inner (omega arith)
      one_entry
