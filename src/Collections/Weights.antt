-- ===== src/Collections/Weights.antt =====
-- The sum of a measure over the entries of a map.
use mathlib.Core.Option.{some-injective}
use solid_server_rs.Prelude.{
  ℕ, ◌≤◌, ◌+◌, ◌*◌, ◌≡◌, refl, sym, ap, ◌∙◌, inl, inr, none, some, [], ◌∷◌, length, All, arith,
  Bool-cases,
}
use solid_server_rs.Collections.{HashMap, Eq, get, remove}
use solid_server_rs.Collections.Distinct.{IsDistinct}

module _ {K V : Type 0} (weight : V → ℕ) where
  abbrev pub total : HashMap K V → ℕ
  total [] = 0
  total ((k, v) ∷ m) = weight v + total m

  abbrev pub IsHeavy : ℕ → HashMap K V → Type 0
  IsHeavy n m = All (λ e. n ≤ weight e.1) m

  pub length-total-le : (n : ℕ) (m : HashMap K V) → IsHeavy n m → n * length m ≤ total m
  length-total-le n [] h = omega arith
  length-total-le n ((k, v) ∷ m) (h, hs) = grind (arith, length-total-le n m hs, h)

module _ {K V : Type 0} ⦃key : Eq K⦄ (weight : V → ℕ) where
  pub total-remove_absent :
      (k : K) (m : HashMap K V) → get k m ≡ none → total weight (remove k m) ≡ total weight m
  unfolding get remove
  total-remove_absent k [] h = refl
  total-remove_absent k ((j, v) ∷ m) h = elim (Bool-cases (key.beq j k)) [
    | inl y ↦ absurd (cc (rw y at h))
    | inr n ↦ rw n (omega (arith, total-remove_absent k m (rw n at h)))
  ]

  pub total-remove :
      (k : K) (v : V) (m : HashMap K V)
      → IsDistinct m
      → get k m ≡ some v
      → total weight (remove k m) + weight v ≡ total weight m
  unfolding get remove
  total-remove k v [] d h = absurd (cc h)
  total-remove k v ((j, w) ∷ m) (fresh, d) h = elim (Bool-cases (key.beq j k)) [
    | inl y ↦
        let same : w ≡ v = some-injective w v (rw y at h) in
        let gone : get k m ≡ none = ap (λ i. get i m) (sym ((key.beq_iff j k).0 y)) ∙ fresh in
        rw y (rw same (omega (arith, total-remove_absent k m gone)))
    | inr n ↦ rw n (omega (arith, total-remove k v m d (rw n at h)))
  ]

  pub remove-IsHeavy :
      (n : ℕ) (k : K) (m : HashMap K V) → IsHeavy weight n m → IsHeavy weight n (remove k m)
  unfolding remove
  remove-IsHeavy n k [] h = tt
  remove-IsHeavy n k ((j, v) ∷ m) (h, hs) = elim (Bool-cases (key.beq j k)) [
    | inl y ↦ rw y (remove-IsHeavy n k m hs)
    | inr other ↦ rw other (h, remove-IsHeavy n k m hs)
  ]

  -- A map from which nothing can be read is empty.
  pub empty_of_get : (m : HashMap K V) → ((k : K) → get k m ≡ none) → m ≡ []
  unfolding get
  empty_of_get [] h = refl
  empty_of_get ((j, v) ∷ m) h = absurd (cc (rw ((key.beq_iff j j).1 refl) at (h j)))
