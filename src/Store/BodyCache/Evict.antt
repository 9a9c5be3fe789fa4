-- ===== src/Store/BodyCache/Evict.antt =====
-- src/store/body_cache.rs: the eviction loop frees the bytes that it is asked for, or empties the map.
use solid_server_rs.Prelude.{
  ℕ, ◌+◌, ◌≤◌, ◌≡◌, refl, ap, ◌∙◌, ◌⊎◌, inl, inr, none, some, Option, List, [], ◌∷◌, Any, arith,
  leb, Bool-cases, Option-cases,
}
use solid_server_rs.Collections.{HashMap, get, remove}
use solid_server_rs.Collections.Laws.{get-remove}
use solid_server_rs.Collections.Distinct.{IsDistinct, remove-IsDistinct}
use solid_server_rs.Collections.Weights.{total, IsHeavy, total-remove, remove-IsHeavy, empty_of_get}
use solid_server_rs.Store.BodyCache.{
  BodyEntry, BodyCacheInner, Key, body_key, key_eq_iff, usize_max, saturating_add, sorted_insert,
  by_recency, uncharge, freed_after, evict_loop, evict_until_freed,
}

abbrev pub Entries : Type 0
Entries = HashMap Key BodyEntry

abbrev pub charges : Entries → ℕ
charges m = total (λ e. e.charge) m

-- The total is that of the entries; no key is listed twice, and no entry is charged less than the
-- overhead.
pub record IsExact (g : BodyCacheInner) : Type 0 where
  pub counted : g.total_charged ≡ charges g.map
  pub distinct : IsDistinct g.map
  pub heavy : IsHeavy (λ e. e.charge) 64 g.map

abbrev pub Narrower : Entries → Entries → Type 0
Narrower m n = (k : Key) (e : BodyEntry) → get k m ≡ some e → get k n ≡ some e

pub get-remove_self : (k : Key) (m : Entries) → get k (remove k m) ≡ none
get-remove_self k m = rw (get-remove k k m, (key_eq_iff k k).1 refl) refl

pub remove-Narrower : (k : Key) (m : Entries) → Narrower (remove k m) m
remove-Narrower k m j e h = elim (Bool-cases (body_key.beq k j)) [
  | inl y ↦ absurd (cc (rw (get-remove k j m, y) at h))
  | inr n ↦ rw (get-remove k j m, n) at h
]

-- what taking an entry out does, with what it frees
pub uncharge_lem :
    (g : BodyCacheInner) (k : Key) (o : Option BodyEntry) (freed : ℕ)
    → get k g.map ≡ o
    → IsExact g
    → freed + g.total_charged ≤ usize_max
    → IsExact (uncharge g k o)
      × Narrower (uncharge g k o).map g.map
      × (get k (uncharge g k o).map ≡ none)
      × (freed_after freed o + (uncharge g k o).total_charged ≡ freed + g.total_charged)
      × ((uncharge g k o).total_charged ≤ g.total_charged)
unfolding saturating_add
uncharge_lem g k none freed h x bound = (x, λ j e f. f, h, refl, omega arith)
uncharge_lem g k (some e) freed h x bound =
    let split = total-remove (λ (e : BodyEntry). e.charge) k e g.map x.distinct h in
    (
      record {
        counted = omega (arith, split, x.counted);
        distinct = remove-IsDistinct k g.map x.distinct;
        heavy = remove-IsHeavy (λ e. e.charge) 64 k g.map x.heavy;
      },
      remove-Narrower k g.map,
      get-remove_self k g.map,
      omega (arith, split, x.counted, bound),
      omega arith,
    )

abbrev Gone : List (ℕ × Key) → Entries → Type 0
Gone keys m = (k : Key) → Any (λ e. e.1 ≡ k) keys → get k m ≡ none

none_of_Narrower : (k : Key) (m n : Entries) → Narrower m n → get k n ≡ none → get k m ≡ none
none_of_Narrower k m n h gone = elim (Option-cases (get k m)) [
  | inl e ↦ e
  | inr (e, there) ↦ absurd (cc (h k e there, gone))
]

-- The loop keeps the count and adds nothing, and it frees what is needed or takes out every listed key.
evict_loop_lem :
    (needed freed : ℕ) (keys : List (ℕ × Key)) (g : BodyCacheInner)
    → IsExact g
    → freed + g.total_charged ≤ usize_max
    → IsExact (evict_loop needed freed keys g)
      × Narrower (evict_loop needed freed keys g).map g.map
      × ((evict_loop needed freed keys g).total_charged ≤ g.total_charged)
      × (((evict_loop needed freed keys g).total_charged + needed ≤ freed + g.total_charged)
          ⊎ Gone keys (evict_loop needed freed keys g).map)
unfolding evict_loop
evict_loop_lem needed freed [] g x bound = (x, λ k e h. h, omega arith, inr (λ k h. absurd h))
evict_loop_lem needed freed ((tick, key) ∷ keys) g x bound =
    let o = get key g.map in
    let (x', narrow, gone, same, less) = uncharge_lem g key o freed refl x bound in
    let (x'', narrow', less', outcome) =
      evict_loop_lem needed (freed_after freed o) keys (uncharge g key o) x'
        (omega (arith, same, bound)) in
    elim (Bool-cases (leb needed freed)) [
      | inl y ↦ rw y (x, λ k e h. h, omega arith, inl (ground arith))
      | inr n ↦ rw n (
        x'',
        λ k e h. narrow k e (narrow' k e h),
        omega (arith, less, less'),
        elim outcome [
          | inl enough ↦ inl (omega (arith, enough, same))
          | inr all_gone ↦ inr (λ k h. elim h [
            | inl e ↦ rw (← e) (none_of_Narrower key _ _ narrow' gone)
            | inr later ↦ all_gone k later
          ])
        ],
      )
    ]

sorted_insert-Any :
    (k : Key) (e : ℕ × Key) (es : List (ℕ × Key))
    → Any (λ f. f.1 ≡ k) (e ∷ es)
    → Any (λ f. f.1 ≡ k) (sorted_insert e es)
unfolding sorted_insert
sorted_insert-Any k e [] h = h
sorted_insert-Any k e (f ∷ fs) h = elim (Bool-cases (leb e.0 f.0)) [
  | inl y ↦ rw y h
  | inr n ↦ rw n (elim h [
    | inl here ↦ inr (sorted_insert-Any k e fs (inl here))
    | inr later ↦ elim later [
      | inl first ↦ inl first
      | inr rest ↦ inr (sorted_insert-Any k e fs (inr rest))
    ]
  ])
]

-- Every key of the map is in the list of keys by recency.
by_recency-Any :
    (k : Key) (e : BodyEntry) (m : Entries) → get k m ≡ some e → Any (λ f. f.1 ≡ k) (by_recency m)
unfolding by_recency get
by_recency-Any k e [] h = absurd (cc h)
by_recency-Any k e ((j, v) ∷ m) h = elim (Bool-cases (body_key.beq j k)) [
  | inl y ↦ sorted_insert-Any k (v.last_access, j) (by_recency m) (inl ((key_eq_iff j k).0 y))
  | inr n ↦
      sorted_insert-Any k (v.last_access, j) (by_recency m) (inr (by_recency-Any k e m (rw n at h)))
]

-- After the eviction the count is right, nothing is new, and the bytes that were needed are free or
-- nothing is left.
pub evict_until_freed_lem :
    (g : BodyCacheInner) (needed : ℕ)
    → IsExact g
    → g.total_charged ≤ usize_max
    → IsExact (evict_until_freed g needed)
      × Narrower (evict_until_freed g needed).map g.map
      × (((evict_until_freed g needed).total_charged + needed ≤ g.total_charged)
          ⊎ ((evict_until_freed g needed).total_charged ≡ 0))
unfolding evict_until_freed
evict_until_freed_lem g needed x bound =
    let (x', narrow, _, outcome) =
      evict_loop_lem needed 0 (by_recency g.map) g x (omega (arith, bound)) in
    let g' = evict_loop needed 0 (by_recency g.map) g in
    (
      x',
      narrow,
      elim outcome [
        | inl enough ↦ inl (omega (arith, enough))
        | inr gone ↦
            let nothing : (k : Key) → get k g'.map ≡ none = λ k.
              elim (Option-cases (get k g'.map)) [
                | inl e ↦ e
                | inr (e, there) ↦ gone k (by_recency-Any k e g.map (narrow k e there))
              ] in
            inr
              (x'.counted ∙ ap charges (empty_of_get (λ (e : BodyEntry). e.charge) g'.map nothing))
      ],
    )
