-- ===== src/Pop/Store/Eviction.antt =====
-- src/pop/sk/store.rs: which session makes room for a new one.
use mathlib.Core.Option.{some-injective}
use mathlib.Core.Path.{subst}
use solid_server_rs.Prelude.{
  ℕ, ◌≤◌, ◌<◌, leb, lt→ltb, ◌≡◌, ◌≢◌, sym, ap, ◌∙◌, inl, inr, false, none, some, [], ◌∷◌, Str, All,
  length, str_eq, str_eq_iff, arith, Bool-cases,
}
use solid_server_rs.Collections.{get, remove, contains_key, str_key}
use solid_server_rs.Collections.Laws.{min_by_key_lem, get-remove, get-insert, get-insert_cases}
use solid_server_rs.Collections.Distinct.{IsDistinct, get-retain, get_of_listed}
use solid_server_rs.Pop.Store.{Session, SessionStore, is_live, drop_expired, evict_oldest, add}
use solid_server_rs.Pop.Store.Laws.{
  IsValid, OwnKeys, Sessions, drop_expired-Narrower, drop_expired-IsDistinct, evict_oldest-Narrower,
}

module _ {Content : Type 0} where
  abbrev OutlivesEntry : Session Content → Str × Session Content → Type 0
  OutlivesEntry s e = s.expires_at ≤ e.1.expires_at

  All-get :
      (s t : Session Content) (j : Str) (m : Sessions Content)
      → All (OutlivesEntry s) m
      → get j m ≡ some t
      → s.expires_at ≤ t.expires_at
  unfolding get
  All-get s t j [] h found = absurd (cc found)
  All-get s t j ((k, v) ∷ m) (le, h) found = elim (Bool-cases (str_eq k j)) [
    | inl same ↦
        let it : v ≡ t = some-injective v t (rw same at found) in
        subst (λ (t : Session Content). s.expires_at ≤ t.expires_at) it le
    | inr other ↦ All-get s t j m h (rw other at found)
  ]

  not_empty : (k : Str) (s : Session Content) (m : Sessions Content) → get k m ≡ some s → m ≢ []
  unfolding get
  not_empty k s [] h = absurd (cc h)
  not_empty k s (e ∷ m) h = λ empty. cc empty

  -- The session that is evicted expires no later than any in the map.
  evicted-earliest :
      (capacity : ℕ) (m : Sessions Content) (k : Str) (s : Session Content)
      → IsDistinct m
      → OwnKeys m
      → get k m ≡ some s
      → get k (evict_oldest capacity m) ≡ none
      → All (OutlivesEntry s) m
  unfolding evict_oldest
  evicted-earliest capacity m k s d own found gone = elim (Bool-cases (leb capacity (length m))) [
    | inr room ↦ absurd (cc (found, rw room at gone))
    | inl full ↦
        let some_session : m ≢ [] = not_empty k s m found in
        let (e, chosen, listed, least) = min_by_key_lem (λ s. s.expires_at) m some_session in
        let there = get_of_listed e.0 e.1 m d listed in
        let key : e.1.session_id ≡ e.0 = own e.0 e.1 there in
        let removed : get k (remove e.1.session_id m) ≡ none = rw (full, chosen) at gone in
        elim (Bool-cases (str_eq e.1.session_id k)) [
          | inr other ↦ absurd (cc (found, rw (get-remove, other) at removed))
          | inl same ↦
              let at_k : get k m ≡ some e.1 =
                ap (λ j. get j m) (sym ((str_eq_iff e.1.session_id k).0 same) ∙ key) ∙ there in
              let it : e.1 ≡ s = some-injective e.1 s (sym at_k ∙ found) in
              subst (λ (s : Session Content). All (OutlivesEntry s) m) it least
        ]
  ]

  live-kept :
      (capacity now : ℕ) (m : Sessions Content) (k : Str) (s : Session Content)
      → IsDistinct m
      → get k m ≡ some s
      → now < s.expires_at
      → get k (drop_expired capacity now m) ≡ some s
  unfolding drop_expired
  live-kept capacity now m k s d found live = elim (Bool-cases (leb capacity (length m))) [
    | inr room ↦ rw room found
    | inl full ↦
        rw full ((get-retain (is_live now) k m d s).1 (found, lt→ltb now s.expires_at live))
  ]

  -- Where a new session takes the place of a live one, every other session that stays is live too, and
  -- expires no earlier than the one that had to go.
  pub add-evicts :
      (store : SessionStore Content) (session : Session Content) (now : ℕ) (k j : Str)
      (s t : Session Content)
      → IsValid store
      → k ≢ session.session_id
      → j ≢ session.session_id
      → get k store.inner ≡ some s
      → now < s.expires_at
      → get k (add store session now).0.inner ≡ none
      → get j (add store session now).0.inner ≡ some t
      → (s.expires_at ≤ t.expires_at) × (now < t.expires_at)
  unfolding add
  add-evicts store session now k j s t v k_other j_other found live gone stays =
      elim (Bool-cases (contains_key session.session_id store.inner)) [
        | inl known ↦ absurd (cc (found, rw known at gone))
        | inr fresh ↦
            let kept = drop_expired store.capacity now store.inner in
            let room = evict_oldest store.capacity kept in
            let kept_own : OwnKeys kept = λ i u h.
              v.own_keys i u
                (drop_expired-Narrower store.capacity now store.inner v.distinct i u h) in
            let differs : str_eq session.session_id k ≡ false =
              elim (Bool-cases (str_eq session.session_id k)) [
                | inl same ↦ absurd (k_other (sym ((str_eq_iff session.session_id k).0 same)))
                | inr other ↦ other
              ] in
            let evicted : get k room ≡ none = rw (get-insert, differs) at (rw fresh at gone) in
            let survives : get j room ≡ some t =
              elim (get-insert_cases session.session_id j session t room (rw fresh at stays)) [
                | inl (same, _) ↦ absurd (j_other (sym same))
                | inr (_, old) ↦ old
              ] in
            let least =
              evicted-earliest store.capacity kept k s
                (drop_expired-IsDistinct store.capacity now store.inner v.distinct) kept_own
                (live-kept store.capacity now store.inner k s v.distinct found live) evicted in
            let le =
              All-get s t j kept least (evict_oldest-Narrower store.capacity kept j t survives) in
            (le, omega (arith, le, live))
      ]
