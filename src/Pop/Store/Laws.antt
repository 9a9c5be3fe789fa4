-- ===== src/Pop/Store/Laws.antt =====
-- src/pop/sk/store.rs: the map of the store stays within its capacity and lists each session under its
-- own identifier.
use solid_server_rs.Prelude.{
  ℕ, ◌≤◌, ◌<◌, leb, ◌≡◌, ◌≢◌, inl, inr, Option, none, some, [], Str, length, str_eq, arith,
  Bool-cases,
}
use solid_server_rs.Collections.{HashMap, get, remove, min_by_key, str_key}
use solid_server_rs.Collections.Laws.{
  length-retain-le, length-remove-lt, get-remove, min_by_key_lem, contains_of_get,
}
use solid_server_rs.Collections.Distinct.{
  IsDistinct, remove-IsDistinct, get-retain, retain-IsDistinct, get_of_listed,
}
use solid_server_rs.Pop.Store.{
  Session, SessionStore, is_live, drop_expired, evict_oldest, remove_oldest,
}

abbrev pub Sessions : Type 0 → Type 0
Sessions Content = HashMap Str (Session Content)

module _ {Content : Type 0} where
  abbrev pub OwnKeys : Sessions Content → Type 0
  OwnKeys m = (k : Str) (s : Session Content) → get k m ≡ some s → s.session_id ≡ k

  pub record IsValid (store : SessionStore Content) : Type 0 where
    pub room : 0 < store.capacity
    pub fits : length store.inner ≤ store.capacity
    pub distinct : IsDistinct store.inner
    pub own_keys : OwnKeys store.inner

  -- What is read after one of the steps was there before it.
  abbrev pub Narrower : Sessions Content → Sessions Content → Type 0
  Narrower n m = (k : Str) (s : Session Content) → get k n ≡ some s → get k m ≡ some s

  pub remove-Narrower : (id : Str) (m : Sessions Content) → Narrower (remove id m) m
  remove-Narrower id m k s h = elim (Bool-cases (str_eq id k)) [
    | inl same ↦ absurd (cc (rw (get-remove, same) at h))
    | inr other ↦ rw (get-remove, other) at h
  ]

  pub drop_expired-Narrower :
      (capacity now : ℕ) (m : Sessions Content)
      → IsDistinct m
      → Narrower (drop_expired capacity now m) m
  unfolding drop_expired
  drop_expired-Narrower capacity now m d k s h = elim (Bool-cases (leb capacity (length m))) [
    | inr n ↦ rw n at h
    | inl y ↦ let kept = rw y at h in ((get-retain (is_live now) k m d s).0 kept).0
  ]

  pub drop_expired-IsDistinct :
      (capacity now : ℕ) (m : Sessions Content)
      → IsDistinct m
      → IsDistinct (drop_expired capacity now m)
  unfolding drop_expired
  drop_expired-IsDistinct capacity now m d = elim (Bool-cases (leb capacity (length m))) [
    | inr n ↦ rw n d
    | inl y ↦ rw y (retain-IsDistinct (is_live now) m d)
  ]

  pub length-drop_expired :
      (capacity now : ℕ) (m : Sessions Content) → length (drop_expired capacity now m) ≤ length m
  unfolding drop_expired
  length-drop_expired capacity now m = elim (Bool-cases (leb capacity (length m))) [
    | inr n ↦ rw n (omega arith)
    | inl y ↦ rw y (length-retain-le (is_live now) m)
  ]

  pub evict_oldest-Narrower :
      (capacity : ℕ) (m : Sessions Content) → Narrower (evict_oldest capacity m) m
  unfolding evict_oldest
  evict_oldest-Narrower capacity m k s h = elim (Bool-cases (leb capacity (length m))) [
    | inr n ↦ rw n at h
    | inl y ↦ let left = rw y at h in of_choice (min_by_key (λ s. s.expires_at) m) left
  ]
    where
      of_choice :
          (o : Option (Str × Session Content))
          → get k (remove_oldest m o) ≡ some s
          → get k m ≡ some s
      of_choice none h = h
      of_choice (some (key, oldest)) h = remove-Narrower oldest.session_id m k s h

  pub evict_oldest-IsDistinct :
      (capacity : ℕ) (m : Sessions Content) → IsDistinct m → IsDistinct (evict_oldest capacity m)
  unfolding evict_oldest
  evict_oldest-IsDistinct capacity m d = elim (Bool-cases (leb capacity (length m))) [
    | inr n ↦ rw n d
    | inl y ↦ rw y (of_choice (min_by_key (λ s. s.expires_at) m))
  ]
    where
      of_choice : (o : Option (Str × Session Content)) → IsDistinct (remove_oldest m o)
      of_choice none = d
      of_choice (some (key, oldest)) = remove-IsDistinct oldest.session_id m d

  -- There is room for one more afterwards.
  pub length-evict_oldest :
      (capacity : ℕ) (m : Sessions Content)
      → 0 < capacity
      → length m ≤ capacity
      → IsDistinct m
      → OwnKeys m
      → length (evict_oldest capacity m) < capacity
  unfolding evict_oldest
  length-evict_oldest capacity m positive fits d own = elim (Bool-cases (leb capacity (length m))) [
    | inr n ↦ rw n (ground arith)
    | inl y ↦
        let some_session : m ≢ [] = λ empty. ground arith in
        let (e, chosen, listed, _) = min_by_key_lem (λ s. s.expires_at) m some_session in
        let found = get_of_listed e.0 e.1 m d listed in
        let key : e.1.session_id ≡ e.0 = own e.0 e.1 found in
        rw (y, chosen)
          (rw key (omega (arith, fits, length-remove-lt e.0 m (contains_of_get e.0 m e.1 found))))
  ]
