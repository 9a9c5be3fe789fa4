-- ===== src/Collections/Laws.antt =====
-- Laws of the hash maps.
use mathlib.Core.Option.{some-injective}
use solid_server_rs.Prelude.{
  ℕ, ltb, ◌≤◌, ◌<◌, ◌≡◌, refl, ◌≢◌, ◌⊎◌, inl, inr, Bool, true, false, none, some, [], ◌∷◌, is_some,
  if◌then◌else◌, length, arith, Any, All, Bool-cases, Option-cases,
}
use solid_server_rs.Collections.{
  Eq, HashMap, retain, min_from, min_by_key, get, remove, insert, contains_key, evict_one,
}

module _ {K V : Type 0} where
  pub length-retain-le : (p : V → Bool) (m : HashMap K V) → length (retain p m) ≤ length m
  unfolding retain
  length-retain-le p [] = omega arith
  length-retain-le p ((k, v) ∷ m) = ground (arith, length-retain-le p m)

  min_from-le :
      (rank : V → ℕ) (best : K × V) (m : HashMap K V)
      → (rank (min_from rank best m).1 ≤ rank best.1)
        × All (λ e. rank (min_from rank best m).1 ≤ rank e.1) m
  unfolding min_from
  min_from-le rank best [] = (omega arith, tt)
  min_from-le rank best (e ∷ m) =
      let b : K × V = if ltb (rank e.1) (rank best.1) then e else best in
      let (head, tail) = min_from-le rank b m in
      let le_best : rank b.1 ≤ rank best.1 = ground arith in
      let le_e : rank b.1 ≤ rank e.1 = ground arith in (omega arith, (omega arith, tail))

  mem_of_choice :
      (b : Bool) (best e : K × V) (m : HashMap K V) {x : K × V}
      → Any (λ y. y ≡ x) ((if b then e else best) ∷ m)
      → Any (λ y. y ≡ x) (best ∷ e ∷ m)
  mem_of_choice true best e m h = inr h
  mem_of_choice false best e m (inl h) = inl h
  mem_of_choice false best e m (inr h) = inr (inr h)

  min_from-mem :
      (rank : V → ℕ) (best : K × V) (m : HashMap K V)
      → Any (λ e. e ≡ min_from rank best m) (best ∷ m)
  unfolding min_from
  min_from-mem rank best [] = inl refl
  min_from-mem rank best (e ∷ m) =
      mem_of_choice (ltb (rank e.1) (rank best.1)) best e m
        (min_from-mem rank (if ltb (rank e.1) (rank best.1) then e else best) m)

  -- The entry that is found is in the map, and no entry has a smaller rank.
  pub min_by_key_lem :
      (rank : V → ℕ) (m : HashMap K V)
      → m ≢ []
      → (e : K × V) × (min_by_key rank m ≡ some e)
        × Any (λ x. x ≡ e) m
        × All (λ x. rank e.1 ≤ rank x.1) m
  unfolding min_by_key
  min_by_key_lem rank [] h = absurd (h refl)
  min_by_key_lem rank (e ∷ m) h =
      (min_from rank e m, refl, min_from-mem rank e m, min_from-le rank e m)

module _ {K V : Type 0} ⦃key : Eq K⦄ where
  pub get-remove :
      (k j : K) (m : HashMap K V) → get j (remove k m) ≡ (if key.beq k j then none else get j m)
  unfolding get remove
  get-remove k j [] = ground arith
  get-remove k j ((i, v) ∷ m) =
      ground (arith, key.beq_iff k j, key.beq_iff i k, key.beq_iff i j, get-remove k j m)

  pub get-insert :
      (k j : K) (v : V) (m : HashMap K V)
      → get j (insert k v m) ≡ (if key.beq k j then some v else get j m)
  unfolding insert get
  get-insert k j v m = ground (arith, get-remove k j m)

  pub length-remove-le : (k : K) (m : HashMap K V) → length (remove k m) ≤ length m
  unfolding remove
  length-remove-le k [] = omega arith
  length-remove-le k ((j, v) ∷ m) = ground (arith, length-remove-le k m)

  pub length-remove-lt :
      (k : K) (m : HashMap K V) → contains_key k m ≡ true → length (remove k m) < length m
  unfolding remove contains_key
  length-remove-lt k [] h = absurd (ground arith)
  length-remove-lt k ((j, v) ∷ m) h = ground (arith, length-remove-le k m, length-remove-lt k m)

  contains_of_mem : (e : K × V) (m : HashMap K V) → Any (λ x. x ≡ e) m → contains_key e.0 m ≡ true
  unfolding contains_key get
  contains_of_mem e [] h = absurd h
  contains_of_mem e ((j, v) ∷ m) (inl same) = ground (arith, key.beq_iff j e.0)
  contains_of_mem e ((j, v) ∷ m) (inr h) = ground (arith, contains_of_mem e m h)

  pub get-evict_one :
      (rank : V → ℕ) (j : K) (m : HashMap K V) (v : V)
      → get j (evict_one rank m) ≡ some v
      → get j m ≡ some v
  unfolding evict_one
  get-evict_one rank j m v h = elim (Option-cases (min_by_key rank m)) [
    | inl empty ↦ rw (empty, evict_one) at h
    | inr (e, found) ↦
        let h' : get j (remove e.0 m) ≡ some v = rw (found, evict_one) at h in
        ground (arith, get-remove e.0 j m)
  ]

  pub length-evict_one-lt :
      (rank : V → ℕ) (m : HashMap K V) → m ≢ [] → length (evict_one rank m) < length m
  unfolding evict_one
  length-evict_one-lt rank m h =
      let (e, found, listed, _) = min_by_key_lem rank m h in
      rw (found, evict_one) (length-remove-lt e.0 m (contains_of_mem e m listed))

  pub contains_of_get :
      (k : K) (m : HashMap K V) (v : V) → get k m ≡ some v → contains_key k m ≡ true
  unfolding contains_key is_some
  contains_of_get k m v h = rw h refl

  -- What is read after an insertion is the new value, or was there before, under another key.
  pub get-insert_cases :
      (k j : K) (v w : V) (m : HashMap K V)
      → get j (insert k v m) ≡ some w
      → ((k ≡ j) × (v ≡ w)) ⊎ ((k ≢ j) × (get j m ≡ some w))
  get-insert_cases k j v w m h = elim (Bool-cases (key.beq k j)) [
    | inl same ↦ inl ((key.beq_iff k j).0 same, some-injective _ _ (rw (get-insert, same) at h))
    | inr other ↦ inr (λ e. ground (arith, key.beq_iff k j), rw (get-insert, other) at h)
  ]
