-- ===== src/Collections/Distinct.antt =====
-- Maps that list no key twice, as every map that starts empty does.
use mathlib.Core.Option.{some-injective}
use solid_server_rs.Prelude.{
  Any, ◌≡◌, refl, sym, ap, ◌∙◌, ◌↔◌, inl, inr, Bool, true, none, some, [], ◌∷◌, Bool-cases,
  Option-cases,
}
use solid_server_rs.Collections.{HashMap, Eq, get, remove, insert, retain}
use solid_server_rs.Collections.Laws.{get-remove}

module _ {K V : Type 0} ⦃key : Eq K⦄ where
  abbrev pub IsDistinct : HashMap K V → Type 0
  IsDistinct [] = Unit
  IsDistinct ((k, v) ∷ m) = (get k m ≡ none) × IsDistinct m

  get-remove-none : (k j : K) (m : HashMap K V) → get j m ≡ none → get j (remove k m) ≡ none
  get-remove-none k j m h = elim (Bool-cases (key.beq k j)) [
    | inl same ↦ rw (get-remove k j m, same) refl
    | inr other ↦ rw (get-remove k j m, other) h
  ]

  pub remove-IsDistinct : (k : K) (m : HashMap K V) → IsDistinct m → IsDistinct (remove k m)
  unfolding remove
  remove-IsDistinct k [] d = tt
  remove-IsDistinct k ((j, v) ∷ m) (fresh, d) = elim (Bool-cases (key.beq j k)) [
    | inl same ↦ rw same (remove-IsDistinct k m d)
    | inr other ↦ rw other (get-remove-none k j m fresh, remove-IsDistinct k m d)
  ]

  pub insert-IsDistinct :
      (k : K) (v : V) (m : HashMap K V) → IsDistinct m → IsDistinct (insert k v m)
  unfolding insert
  insert-IsDistinct k v m d =
      (rw (get-remove k k m, (key.beq_iff k k).1 refl) refl, remove-IsDistinct k m d)

  pub get-retain :
      (p : V → Bool) (k : K) (m : HashMap K V)
      → IsDistinct m
      → ((v : V) → (get k (retain p m) ≡ some v) ↔ ((get k m ≡ some v) × (p v ≡ true)))
  unfolding get retain
  get-retain p k [] d v = (λ h. absurd (cc h), λ h. absurd (cc h.0))
  get-retain p k ((j, w) ∷ m) (fresh, d) v =
      let (to, from) = get-retain p k m d v in
      elim (Bool-cases (key.beq j k)) [
        | inr other ↦ elim (Bool-cases (p w)) [
          | inl kept ↦ rw (other, kept) (rw other (to, from))
          | inr gone ↦ rw (other, gone) (to, from)
        ]
        | inl same ↦ elim (Bool-cases (p w)) [
          | inl kept ↦
              rw (same, kept)
                (rw same (λ h. (h, ap p (sym (some-injective w v h)) ∙ kept), λ h. h.0))
          | inr gone ↦
              rw (same, gone)
                (
                  λ h. absurd (
                      cc (
                        sym (ap (λ i. get i m) ((key.beq_iff j k).0 same)) ∙ fresh ∙ refl,
                        (to h).0,
                      )),
                  λ h. absurd (cc (ap p (some-injective w v h.0), gone, h.1)),
                )
        ]
      ]

  pub retain-IsDistinct : (p : V → Bool) (m : HashMap K V) → IsDistinct m → IsDistinct (retain p m)
  unfolding retain
  retain-IsDistinct p [] d = tt
  retain-IsDistinct p ((j, w) ∷ m) (fresh, d) = elim (Bool-cases (p w)) [
    | inr gone ↦ rw gone (retain-IsDistinct p m d)
    | inl kept ↦ rw kept (
      elim (Option-cases (get j (retain p m))) [
        | inl none_there ↦ none_there
        | inr (v, found) ↦ absurd (cc (((get-retain p j m d v).0 found).0, fresh))
      ],
      retain-IsDistinct p m d,
    )
  ]

  -- What a map without duplicates lists is what is read from it.
  pub get_of_listed :
      (k : K) (v : V) (m : HashMap K V) → IsDistinct m → Any (λ e. e ≡ (k, v)) m → get k m ≡ some v
  unfolding get
  get_of_listed k v [] d h = absurd h
  get_of_listed k v ((j, w) ∷ m) (fresh, d) (inl same) =
      rw ((key.beq_iff j k).1 (ap (λ e. e.0) same)) (ap (λ e. some e.1) same)
  get_of_listed k v ((j, w) ∷ m) (fresh, d) (inr later) =
      let found = get_of_listed k v m d later in
      elim (Bool-cases (key.beq j k)) [
        | inr other ↦ rw other found
        | inl same ↦ absurd (cc (sym (ap (λ i. get i m) ((key.beq_iff j k).0 same)) ∙ fresh, found))
      ]
