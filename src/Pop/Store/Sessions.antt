-- ===== src/Pop/Store/Sessions.antt =====
-- src/pop/sk/store.rs: what the methods of the store do to the sessions in it.
use mathlib.Core.Option.{some-injective}
use solid_server_rs.Prelude.{
  ℕ, suc, ◌≤◌, ◌<◌, ◌≡◌, ◌≢◌, refl, sym, ap, ◌∙◌, ◌↔◌, inl, inr, true, false, none, some, Str,
  length, str_eq_self, is_some, ltb→lt, lt→ltb, arith, Bool-cases, Option-cases,
}
use solid_server_rs.Collections.{get, insert, remove, contains_key, str_key}
use solid_server_rs.Collections.Laws.{length-remove-le, get-remove, get-insert, get-insert_cases}
use solid_server_rs.Collections.Distinct.{remove-IsDistinct, insert-IsDistinct}
use solid_server_rs.Pop.Store.{
  Session, SessionStore, new, is_live, drop_expired, evict_oldest, add, find, terminate,
}
use solid_server_rs.Pop.Store.Laws.{
  IsValid, OwnKeys, Sessions, Narrower, remove-Narrower, drop_expired-Narrower,
  drop_expired-IsDistinct, length-drop_expired, evict_oldest-Narrower, evict_oldest-IsDistinct,
  length-evict_oldest,
}

module _ {Content : Type 0} where
  length-insert-le :
      (id : Str) (s : Session Content) (m : Sessions Content)
      → length (insert id s m) ≤ suc (length m)
  unfolding insert
  length-insert-le id s m = omega (arith, length-remove-le id m)

  made_room-Narrower :
      (capacity now : ℕ) (m : Sessions Content)
      → IsValid (record { inner = m; capacity = capacity })
      → Narrower (evict_oldest capacity (drop_expired capacity now m)) m
  made_room-Narrower capacity now m v k s h =
      drop_expired-Narrower capacity now m v.distinct k s
        (evict_oldest-Narrower capacity (drop_expired capacity now m) k s h)

  pub new-IsValid : (capacity : ℕ) → IsValid {Content = Content} (new capacity)
  unfolding new get
  new-IsValid capacity = record {
    room = omega arith;
    fits = omega arith;
    distinct = tt;
    own_keys = λ k s h. absurd (cc h);
  }

  removed-IsValid :
      (store : SessionStore Content) (id : Str)
      → IsValid store
      → IsValid (record store { inner = remove id store.inner })
  removed-IsValid store id v =
      let fits = v.fits in
      record {
        room = v.room;
        fits = omega (arith, fits, length-remove-le id store.inner);
        distinct = remove-IsDistinct id store.inner v.distinct;
        own_keys = λ k s h. v.own_keys k s (remove-Narrower id store.inner k s h);
      }

  added-IsValid :
      (store : SessionStore Content) (session : Session Content) (now : ℕ)
      → IsValid store
      → IsValid (record store {
        inner =
            insert session.session_id session
              (evict_oldest store.capacity (drop_expired store.capacity now store.inner));
      })
  added-IsValid store session now v =
      let kept = drop_expired store.capacity now store.inner in
      let fits = v.fits in
      let kept_own : OwnKeys kept = λ k s h.
        v.own_keys k s (drop_expired-Narrower store.capacity now store.inner v.distinct k s h) in
      let kept_distinct = drop_expired-IsDistinct store.capacity now store.inner v.distinct in
      let small =
        length-evict_oldest store.capacity kept v.room
          (omega (arith, fits, length-drop_expired store.capacity now store.inner)) kept_distinct
          kept_own in
      record {
        room = v.room;
        fits = omega (
          arith,
          small,
          length-insert-le session.session_id session (evict_oldest store.capacity kept),
        );
        distinct =
            insert-IsDistinct session.session_id session (evict_oldest store.capacity kept)
              (evict_oldest-IsDistinct store.capacity kept kept_distinct);
        own_keys = λ k s h.
            elim (get-insert_cases session.session_id k session s (evict_oldest store.capacity kept)
              h) [
                | inl (same, it) ↦ ap (λ (s : Session Content). s.session_id) (sym it) ∙ same
                | inr (_, old) ↦ kept_own k s (evict_oldest-Narrower store.capacity kept k s old)
              ];
      }

  -- Every method keeps the store valid: within its capacity, and no key listed twice or with the
  -- session of another.
  pub methods-IsValid :
      (store : SessionStore Content) (session : Session Content) (id : Str) (now : ℕ)
      → IsValid store
      → IsValid (add store session now).0
        × IsValid (find store id now).0
        × IsValid (terminate store id).0
  unfolding add find terminate
  methods-IsValid store session id now v = (
    elim (Bool-cases (contains_key session.session_id store.inner)) [
      | inl y ↦ rw y v
      | inr n ↦ rw n (added-IsValid store session now v)
    ],
    elim (Option-cases (get id store.inner)) [
      | inl missing ↦ rw missing v
      | inr (s, found) ↦ elim (Bool-cases (is_live now s)) [
        | inl live ↦ rw (found, live) v
        | inr over ↦ rw (found, over) (removed-IsValid store id v)
      ]
    ],
    removed-IsValid store id v,
  )

  find-live :
      (store : SessionStore Content) (id : Str) (now : ℕ) (s : Session Content)
      → (find store id now).1 ≡ some s
      → (get id store.inner ≡ some s) × (now < s.expires_at)
  unfolding find
  find-live store id now s h = elim (Option-cases (get id store.inner)) [
    | inl missing ↦ absurd (cc (rw missing at h))
    | inr (t, found) ↦ elim (Bool-cases (is_live now t)) [
      | inr over ↦ absurd (cc (rw (found, over) at h))
      | inl live ↦
          let same : t ≡ s = some-injective t s (rw (found, live) at h) in
          (found ∙ ap some same, ltb→lt now s.expires_at (ap (is_live now) (sym same) ∙ live))
    ]
  ]

  live-find :
      (store : SessionStore Content) (id : Str) (now : ℕ) (s : Session Content)
      → get id store.inner ≡ some s
      → now < s.expires_at
      → (find store id now).1 ≡ some s
  unfolding find
  live-find store id now s found live =
      let fresh : is_live now s ≡ true = lt→ltb now s.expires_at live in rw (found, fresh) refl

  add-new :
      (store : SessionStore Content) (session : Session Content) (now : ℕ)
      → contains_key session.session_id store.inner ≡ false
      → add store session now ≡ (
        record store {
          inner =
              insert session.session_id session
                (evict_oldest store.capacity (drop_expired store.capacity now store.inner));
        },
        true,
      )
  unfolding add
  add-new store session now n = rw n refl

  find-missing :
      (store : SessionStore Content) (id : Str) (now : ℕ)
      → get id store.inner ≡ none
      → (find store id now).1 ≡ none
  unfolding find
  find-missing store id now missing = rw missing refl

  add-new_other :
      (store : SessionStore Content) (session : Session Content) (now : ℕ) (id : Str)
      (s : Session Content)
      → IsValid store
      → id ≢ session.session_id
      → get id (add store session now).0.inner ≡ some s
      → get id store.inner ≡ some s
  unfolding add
  add-new_other store session now id s v other h =
      elim (Bool-cases (contains_key session.session_id store.inner)) [
        | inl known ↦ rw known at h
        | inr fresh ↦
            let room = evict_oldest store.capacity (drop_expired store.capacity now store.inner) in
            elim (get-insert_cases session.session_id id session s room (rw fresh at h)) [
              | inl (same, _) ↦ absurd (other (sym same))
              | inr (_, old) ↦ made_room-Narrower store.capacity now store.inner v id s old
            ]
      ]

  -- A session with an identifier that is not in use is accepted, and after that found exactly until
  -- it expires; if it is terminated then, that reports that it was there, and it is not found any more.
  pub add-find :
      (store : SessionStore Content) (session : Session Content) (now later : ℕ)
      → contains_key session.session_id store.inner ≡ false
      → ((add store session now).1 ≡ true)
        × (((find (add store session now).0 session.session_id later).1 ≡ some session)
            ↔ (later < session.expires_at))
        × ((terminate (add store session now).0 session.session_id).1 ≡ true)
        × ((find
              (terminate (add store session now).0 session.session_id).0
              session.session_id
              later).1
            ≡ none)
  unfolding terminate is_some
  add-find store session now later fresh =
      let room = evict_oldest store.capacity (drop_expired store.capacity now store.inner) in
      let added = add-new store session now fresh in
      let there : get session.session_id (add store session now).0.inner ≡ some session =
        ap (λ r. get session.session_id r.0.inner) added
        ∙ get-insert session.session_id session.session_id session room
        ∙ rw (str_eq_self session.session_id) refl in
      (
        ap (λ r. r.1) added,
        (
          λ h. (find-live (add store session now).0 session.session_id later session h).1,
          live-find (add store session now).0 session.session_id later session there,
        ),
        ap is_some there,
        find-missing (terminate (add store session now).0 session.session_id).0 session.session_id
            later
            (get-remove session.session_id session.session_id (add store session now).0.inner
              ∙ rw (str_eq_self session.session_id) refl),
      )

  -- After an insertion into a valid store, accepted or not, a session that is found under another
  -- identifier would have been found before it, and is not expired.
  pub add-find_other :
      (store : SessionStore Content) (session : Session Content) (now later : ℕ) (id : Str)
      (s : Session Content)
      → IsValid store
      → id ≢ session.session_id
      → (find (add store session now).0 id later).1 ≡ some s
      → ((find store id later).1 ≡ some s) × (later < s.expires_at)
  add-find_other store session now later id s v other h =
      let (found, live) = find-live (add store session now).0 id later s h in
      (live-find store id later s (add-new_other store session now id s v other found) live, live)
