-- ===== src/Pop/Tests.antt =====
-- src/pop/sk/store.rs: a store of two sessions.
use solid_server_rs.Prelude.{
  ℕ, ◌<◌, ◌≡◌, ◌↔◌, refl, true, false, none, some, Str, codes, str_eq, str_eq_iff, is_some,
}
use solid_server_rs.Collections.{
  get, insert, remove, retain, contains_key, min_by_key, min_from, str_key,
}
use solid_server_rs.Pop.Store.{
  Session, SessionStore, new, add, find, terminate, drop_expired, evict_oldest,
}
use solid_server_rs.Pop.Store.Laws.{IsValid}
use solid_server_rs.Pop.Store.Sessions.{new-IsValid, methods-IsValid, add-find, add-find_other}
use solid_server_rs.Pop.Store.Eviction.{add-evicts}
use solid_server_rs.Prelude.{◌≤◌, arith}
use solid_server_rs.Collections.{get}

abbrev session : Str → ℕ → Session ℕ
session id expires_at = record { session_id = id; expires_at = expires_at; content = 0 }

abbrev two : SessionStore ℕ
two = (add (add (new 2) (session (codes "a") 100) 10).0 (session (codes "b") 50) 20).0

-- With no session expired, the one that expires first makes room.
soonest_is_evicted : (find (add two (session (codes "c") 200) 30).0 (codes "b") 30).1 ≡ none
unfolding add find new drop_expired evict_oldest get insert remove retain contains_key min_by_key
    min_from str_eq is_some
soonest_is_evicted = refl

longest_stays :
    (find (add two (session (codes "c") 200) 30).0 (codes "a") 30).1
    ≡ some (session (codes "a") 100)
unfolding add find new drop_expired evict_oldest get insert remove retain contains_key min_by_key
    min_from str_eq is_some
longest_stays = refl

two-IsValid : IsValid two
two-IsValid =
    (methods-IsValid (add (new 2) (session (codes "a") 100) 10).0 (session (codes "b") 50)
      (codes "") 20
      (methods-IsValid (new 2) (session (codes "a") 100) (codes "") 10 (new-IsValid 2)).0).0

methods-IsValid_example :
    IsValid (add two (session (codes "c") 200) 30).0
    × IsValid (find two (codes "a") 30).0
    × IsValid (terminate two (codes "a")).0
methods-IsValid_example = methods-IsValid two (session (codes "c") 200) (codes "a") 30 two-IsValid

c_is_new : contains_key (codes "c") two.inner ≡ false
unfolding add find new drop_expired evict_oldest get insert remove retain contains_key min_by_key
    min_from str_eq is_some
c_is_new = refl

add-find_example :
    ((add two (session (codes "c") 200) 30).1 ≡ true)
    × (((find (add two (session (codes "c") 200) 30).0 (codes "c") 60).1
          ≡ some (session (codes "c") 200))
        ↔ (60 < 200))
    × ((terminate (add two (session (codes "c") 200) 30).0 (codes "c")).1 ≡ true)
    × ((find (terminate (add two (session (codes "c") 200) 30).0 (codes "c")).0 (codes "c") 60).1
        ≡ none)
add-find_example = add-find two (session (codes "c") 200) 30 60 c_is_new

add-find_other_example : ((find two (codes "a") 30).1 ≡ some (session (codes "a") 100)) × (30 < 100)
unfolding str_eq
add-find_other_example =
    add-find_other two (session (codes "c") 200) 30 30 (codes "a") (session (codes "a") 100)
      two-IsValid (λ e. cc ((str_eq_iff (codes "a") (codes "c")).1 e)) longest_stays

b_was_there : get (codes "b") two.inner ≡ some (session (codes "b") 50)
unfolding add new drop_expired evict_oldest get insert remove retain contains_key min_by_key
    min_from str_eq is_some
b_was_there = refl

b_is_gone : get (codes "b") (add two (session (codes "c") 200) 30).0.inner ≡ none
unfolding add new drop_expired evict_oldest get insert remove retain contains_key min_by_key
    min_from str_eq is_some
b_is_gone = refl

a_is_there :
    get (codes "a") (add two (session (codes "c") 200) 30).0.inner ≡ some (session (codes "a") 100)
unfolding add new drop_expired evict_oldest get insert remove retain contains_key min_by_key
    min_from str_eq is_some
a_is_there = refl

add-evicts_example : (50 ≤ 100) × (30 < 100)
unfolding str_eq
add-evicts_example =
    add-evicts two (session (codes "c") 200) 30 (codes "b") (codes "a") (session (codes "b") 50)
      (session (codes "a") 100) two-IsValid (λ e. cc ((str_eq_iff (codes "b") (codes "c")).1 e))
      (λ e. cc ((str_eq_iff (codes "a") (codes "c")).1 e)) b_was_there (omega arith) b_is_gone
      a_is_there
