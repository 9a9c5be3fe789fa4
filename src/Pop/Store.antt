-- ===== src/Pop/Store.antt =====
-- src/pop/sk/store.rs: the bounded store of sessions. What a session carries besides its identifier and
-- its expiry is of no account to the store, and is one value here. Seconds are natural numbers; each
-- method runs under the lock.
pub mod Laws
pub mod Sessions
pub mod Eviction
use solid_server_rs.Prelude.{
  ℕ, max, ltb, leb, Bool, true, false, Option, none, some, List, [], Str, length, is_some,
  if◌then◌else◌,
}
use solid_server_rs.Collections.{
  HashMap, get, insert, remove, retain, contains_key, min_by_key, str_key,
}

pub record Session (Content : Type 0) : Type 0 where
  pub session_id : Str
  pub expires_at : ℕ
  pub content : Content

pub record SessionStore (Content : Type 0) : Type 0 where
  pub inner : HashMap Str (Session Content)
  pub capacity : ℕ

module _ {Content : Type 0} where
  unfoldable pub new : ℕ → SessionStore Content
  new capacity = record { inner = []; capacity = max capacity 1 }

  abbrev pub is_live : ℕ → Session Content → Bool
  is_live now s = ltb now s.expires_at

  abbrev remove_oldest :
      HashMap Str (Session Content) → Option (Str × Session Content) → HashMap Str (Session Content)
  remove_oldest map none = map
  remove_oldest map (some (key, oldest)) = remove oldest.session_id map

  -- the two steps of `insert` that make room
  unfoldable pub drop_expired :
      ℕ → ℕ → HashMap Str (Session Content) → HashMap Str (Session Content)
  drop_expired capacity now map =
      if leb capacity (length map) then retain (is_live now) map else map

  unfoldable pub evict_oldest : ℕ → HashMap Str (Session Content) → HashMap Str (Session Content)
  evict_oldest capacity map =
      if leb capacity (length map)
      then remove_oldest map (min_by_key (λ s. s.expires_at) map)
      else map

  unfoldable pub add : SessionStore Content → Session Content → ℕ → SessionStore Content × Bool
  unfolding drop_expired evict_oldest
  add store session now =
      let room = evict_oldest store.capacity (drop_expired store.capacity now store.inner) in
      if contains_key session.session_id store.inner
      then (store, false)
      else (record store { inner = insert session.session_id session room }, true)

  -- what `get` does with what it found
  abbrev pub checked :
      SessionStore Content
      → Str
      → ℕ
      → Option (Session Content)
      → SessionStore Content × Option (Session Content)
  checked store session_id now none = (store, none)
  checked store session_id now (some s) =
      if is_live now s
      then (store, some s)
      else (record store { inner = remove session_id store.inner }, none)

  unfoldable pub find :
      SessionStore Content → Str → ℕ → SessionStore Content × Option (Session Content)
  find store session_id now = checked store session_id now (get session_id store.inner)

  unfoldable pub terminate : SessionStore Content → Str → SessionStore Content × Bool
  terminate store session_id =
      (record store { inner = remove session_id store.inner }, is_some (get session_id store.inner))
