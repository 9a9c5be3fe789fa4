-- ===== src/Cache/Tests.antt =====
-- src/acl_cache.rs: runs of the cache, and the theorems at inputs that meet their hypotheses.
use solid_server_rs.Prelude.{
  ℕ, ◌<◌, ◌≤◌, ◌≡◌, refl, max, none, some, List, [], ◌∷◌, Str, codes, str_eq, length,
}
use solid_server_rs.Collections.{HashMap, get, insert, remove, contains_key, evict_one}
use solid_server_rs.Cache.Acl.{
  saturating_add, AclEntry, open_map, is_fresh, lookup, store, invalidate, with_max_entry_ttl,
}
use solid_server_rs.Cache.Acl.History.{
  Call, insert_call, invalidate_call, run, empty, last_stored, hit-last_stored, run-bounded,
}

-- In a cache of two entries the third pushes out "a", which was used before "b".
abbrev calls : List Call
calls =
    insert_call (codes "a") (codes "1") [] 10
    ∷ insert_call (codes "b") (codes "1") [] 11
    ∷ insert_call (codes "b") (codes "2") [] 12
    ∷ insert_call (codes "c") (codes "1") [] 13
    ∷ invalidate_call (codes "c")
    ∷ []

abbrev after : HashMap Str AclEntry
after =
    (codes "b", record { etag = codes "2"; triples = []; inserted_at = 12; last_access = 3 }) ∷ []

calls-run : (run (with_max_entry_ttl 2 60) calls).inner ≡ open_map after
unfolding run lookup store invalidate with_max_entry_ttl get remove insert str_eq contains_key
    evict_one is_fresh saturating_add
calls-run = refl

b_hit : (lookup (run (with_max_entry_ttl 2 60) calls) (codes "b") (codes "2") 71).1 ≡ some []
unfolding run lookup store invalidate with_max_entry_ttl get remove insert str_eq contains_key
    evict_one is_fresh saturating_add
b_hit = refl

b_too_old : (lookup (run (with_max_entry_ttl 2 60) calls) (codes "b") (codes "2") 72).1 ≡ none
unfolding run lookup store invalidate with_max_entry_ttl get remove insert str_eq contains_key
    evict_one is_fresh saturating_add
b_too_old = refl

hit-last_stored_example :
    (at : ℕ) × (last_stored empty calls (codes "b") ≡ some (codes "2", [], at))
    × (71 < saturating_add at (max 60 1))
hit-last_stored_example = hit-last_stored 2 60 calls (codes "b") (codes "2") 71 [] b_hit

run-bounded_example : length after ≤ 2
run-bounded_example = run-bounded 2 60 calls after calls-run
