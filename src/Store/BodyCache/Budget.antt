-- ===== src/Store/BodyCache/Budget.antt =====
-- src/store/body_cache.rs: each method keeps the cache within its budget, and every body under its key.
use mathlib.Core.Option.{some-injective}
use solid_server_rs.Prelude.{
  ℕ, ◌+◌, ◌-◌, ◌^◌, ◌≤◌, ◌<◌, ◌≡◌, refl, inl, inr, none, some, Option, List, [], ◌∷◌, ◌==◌, arith,
  ltb, ltb→lt, Bool-cases, Option-cases, Str,
}
use solid_server_rs.Collections.{get, insert}
use solid_server_rs.Collections.Laws.{get-insert_cases}
use solid_server_rs.Collections.Distinct.{insert-IsDistinct}
use solid_server_rs.Collections.Weights.{IsHeavy, total-remove, total-remove_absent, remove-IsHeavy}
use solid_server_rs.Store.BodyCache.{
  BodyEntry, BodyCacheInner, BodyCache, Inner, off, poisoned, open_inner, Key, body_key,
  saturating_add, uncharge, make_room, evict_until_freed, charged, charge_of, found, lookup_in,
  store_in, touch, next_tick, with_max_entry_bytes, disabled,
}
use solid_server_rs.Store.BodyCache.Evict.{
  Entries, IsExact, Narrower, evict_until_freed_lem, uncharge_lem,
}

heavy_of_get :
    (k : Key) (e : BodyEntry) (m : Entries)
    → IsHeavy (λ e. e.charge) 64 m
    → get k m ≡ some e
    → 64 ≤ e.charge
unfolding get
heavy_of_get k e [] h f = absurd (cc f)
heavy_of_get k e ((j, v) ∷ m) (h, hs) f = elim (Bool-cases (body_key.beq j k)) [
  | inl y ↦ let same : v ≡ e = some-injective v e (rw y at f) in rw (← same) h
  | inr n ↦ heavy_of_get k e m hs (rw n at f)
]

-- What is known of the bodies that are inserted under a key.
module _ (Held : Key → List ℕ → Type 0) where
  -- The count is right, within the budget, and this is known of every body.
  pub record IsKept (max_bytes : ℕ) (g : BodyCacheInner) : Type 0 where
    pub exact : IsExact g
    pub fits : g.total_charged ≤ max_bytes
    pub coherent : (k : Key) (e : BodyEntry) → get k g.map ≡ some e → Held k e.body

  abbrev pub Keeps : ℕ → Inner → Type 0
  Keeps max_bytes off = Unit
  Keeps max_bytes poisoned = Unit
  Keeps max_bytes (open_inner g) = IsKept max_bytes g

  -- limits below which no sum of charges saturates
  pub record IsValid (c : BodyCache) : Type 0 where
    pub entries_fit : c.max_entry_bytes ≤ c.max_bytes
    pub small : c.max_bytes < 2 ^ 63
    pub keeps : Keeps c.max_bytes c.inner

  uncharge-IsKept :
      (max_bytes : ℕ) (g : BodyCacheInner) (k : Key)
      → max_bytes < 2 ^ 63
      → IsKept max_bytes g
      → IsKept max_bytes (uncharge g k (get k g.map))
        × (get k (uncharge g k (get k g.map)).map ≡ none)
  uncharge-IsKept max_bytes g k small v =
      let (x, narrow, gone, _, less) =
        uncharge_lem g k (get k g.map) 0 refl v.exact (omega (arith, v.fits, small)) in
      (
        record {
          exact = x;
          fits = omega (arith, less, v.fits);
          coherent = λ j e h. v.coherent j e (narrow j e h);
        },
        gone,
      )

  -- Room is made for an entry that fits the budget at all.
  make_room-IsKept :
      (max_bytes charge : ℕ) (g : BodyCacheInner)
      → max_bytes < 2 ^ 63
      → charge ≤ max_bytes
      → IsKept max_bytes g
      → IsKept max_bytes (make_room max_bytes charge g)
        × Narrower (make_room max_bytes charge g).map g.map
        × ((make_room max_bytes charge g).total_charged + charge ≤ max_bytes)
  unfolding make_room saturating_add
  make_room-IsKept max_bytes charge g small le v =
      let fits = v.fits in
      let needed = saturating_add g.total_charged charge - max_bytes in
      let (x, narrow, outcome) =
        evict_until_freed_lem g needed v.exact (omega (arith, fits, small)) in
      elim (Bool-cases (ltb max_bytes (saturating_add g.total_charged charge))) [
        | inr n ↦ rw n (v, λ k e h. h, ground (arith, fits, small))
        | inl y ↦
            let more : max_bytes < saturating_add g.total_charged charge = ltb→lt _ _ y in
            let room : (evict_until_freed g needed).total_charged + charge ≤ max_bytes =
              elim outcome [
                | inl enough ↦ omega (arith, enough, more, fits, small, le)
                | inr nothing ↦ omega (arith, nothing, le)
              ] in
            rw y (
              record {
                exact = x;
                fits = omega (arith, room);
                coherent = λ k e h. v.coherent k e (narrow k e h);
              },
              narrow,
              room,
            )
      ]

  charged-IsKept :
      (max_bytes : ℕ) (g : BodyCacheInner) (k : Key) (e : BodyEntry)
      → max_bytes < 2 ^ 63
      → IsKept max_bytes g
      → get k g.map ≡ none
      → g.total_charged + e.charge ≤ max_bytes
      → 64 ≤ e.charge
      → Held k e.body
      → IsKept max_bytes (charged k e g)
  unfolding insert saturating_add
  charged-IsKept max_bytes g k e small v fresh room heavy held =
      let x = v.exact in
      let same = total-remove_absent (λ (e : BodyEntry). e.charge) k g.map fresh in
      record {
        exact = record {
          counted = omega (arith, x.counted, same, room, small);
          distinct = insert-IsDistinct k e g.map x.distinct;
          heavy = (heavy, remove-IsHeavy (λ e. e.charge) 64 k g.map x.heavy);
        };
        fits = omega (arith, room, small);
        coherent = λ j f h. elim (get-insert_cases k j e f g.map h) [
          | inl (same_key, same_entry) ↦ rw (← same_entry) (rw (← same_key) held)
          | inr (_, old) ↦ v.coherent j f old
        ];
      }

  touched-IsKept :
      (max_bytes tick : ℕ) (g : BodyCacheInner) (k : Key) (e : BodyEntry)
      → IsKept max_bytes g
      → get k g.map ≡ some e
      → IsKept max_bytes (record g { map = insert k (touch tick e) g.map })
  unfolding insert
  touched-IsKept max_bytes tick g k e v h =
      let x = v.exact in
      let split = total-remove (λ (e : BodyEntry). e.charge) k e g.map x.distinct h in
      record {
        exact = record {
          counted = omega (arith, x.counted, split);
          distinct = insert-IsDistinct k (touch tick e) g.map x.distinct;
          heavy =
              (heavy_of_get k e g.map x.heavy h, remove-IsHeavy (λ e. e.charge) 64 k g.map x.heavy);
        };
        fits = v.fits;
        coherent = λ j f h'. elim (get-insert_cases k j (touch tick e) f g.map h') [
          | inl (same_key, same_entry) ↦ rw (← same_entry) (rw (← same_key) (v.coherent k e h))
          | inr (_, old) ↦ v.coherent j f old
        ];
      }

  found-IsValid :
      (c : BodyCache) (g : BodyCacheInner) (k : Key) (o : Option BodyEntry)
      → get k g.map ≡ o
      → IsValid c
      → IsKept c.max_bytes g
      → c.inner ≡ open_inner g
      → IsValid (found c g k o).0 × ((body : List ℕ) → (found c g k o).1 ≡ some body → Held k body)
  found-IsValid c g k none h v kept opened = (
    record { entries_fit = v.entries_fit; small = v.small; keeps = v.keeps },
    λ body e. absurd (cc e),
  )
  found-IsValid c g k (some e) h v kept opened = (
    record {
      entries_fit = v.entries_fit;
      small = v.small;
      keeps = touched-IsKept c.max_bytes (next_tick c) g k e kept h;
    },
    λ body e'. rw (← some-injective e.body body e') (kept.coherent k e h),
  )

  pub lookup_in-IsValid :
      (c : BodyCache) (i : Inner) (k : Key)
      → c.inner ≡ i
      → IsValid c
      → Keeps c.max_bytes i
      → IsValid (lookup_in c i k).0
        × ((body : List ℕ) → (lookup_in c i k).1 ≡ some body → Held k body)
  unfolding lookup_in
  lookup_in-IsValid c off k h v kept = (v, λ body e. absurd (cc e))
  lookup_in-IsValid c poisoned k h v kept = (v, λ body e. absurd (cc e))
  lookup_in-IsValid c (open_inner g) k h v kept = found-IsValid c g k (get k g.map) refl v kept h

  pub store_in-IsValid :
      (c : BodyCache) (i : Inner) (k : Key) (e : BodyEntry)
      → c.inner ≡ i
      → IsValid c
      → Keeps c.max_bytes i
      → e.charge ≤ c.max_entry_bytes
      → 64 ≤ e.charge
      → Held k e.body
      → IsValid (store_in c i k e)
  unfolding store_in
  store_in-IsValid c off k e h v kept le heavy held = v
  store_in-IsValid c poisoned k e h v kept le heavy held = record {
    entries_fit = v.entries_fit;
    small = v.small;
    keeps = v.keeps;
  }
  store_in-IsValid c (open_inner g) k e h v kept le heavy held =
      let small = v.small in
      let (released, fresh) = uncharge-IsKept c.max_bytes g k small kept in
      let g' = uncharge g k (get k g.map) in
      let (roomy, narrow, room) =
        make_room-IsKept c.max_bytes e.charge g' small (omega (arith, le, v.entries_fit))
          released in
      let absent : get k (make_room c.max_bytes e.charge g').map ≡ none =
        elim (Option-cases (get k (make_room c.max_bytes e.charge g').map)) [
          | inl nothing ↦ nothing
          | inr (f, there) ↦ absurd (cc (narrow k f there, fresh))
        ] in
      record {
        entries_fit = v.entries_fit;
        small = v.small;
        keeps =
            charged-IsKept c.max_bytes (make_room c.max_bytes e.charge g') k e small roomy absent
              room heavy held;
      }

  pub with_max_entry_bytes-IsValid :
      (max_bytes max_entry_bytes : ℕ)
      → max_bytes < 2 ^ 63
      → IsValid (with_max_entry_bytes max_bytes max_entry_bytes)
  unfolding with_max_entry_bytes disabled get
  with_max_entry_bytes-IsValid max_bytes max_entry_bytes small =
      elim (Bool-cases (max_bytes == 0)) [
        | inl y ↦ rw y (record { entries_fit = omega arith; small = omega arith; keeps = tt })
        | inr n ↦ rw n (record {
          entries_fit = omega arith;
          small = small;
          keeps = record {
            exact = record { counted = refl; distinct = tt; heavy = tt };
            fits = omega arith;
            coherent = λ k e h. absurd (cc h);
          };
        })
      ]

pub charge_of-le : (blob_key etag : Str) (body : List ℕ) → 64 ≤ charge_of blob_key etag body
unfolding charge_of saturating_add
charge_of-le blob_key etag body = omega arith
