-- ===== src/Ldp/Patch/Apply/Sets.antt =====
-- src/ldp/patch.rs: the triples of the patched graph as a set.
use solid_server_rs.Prelude.{
  ◌≡◌, refl, sym, ◌∙◌, ap, ◌⊎◌, inl, inr, ◌↔◌, true, false, List, [], ◌∷◌, ◌++◌, Any, All, any_iff,
  Bool-cases,
}
use solid_server_rs.Collections.{Eq}
use solid_server_rs.Error.{ok}
use solid_server_rs.Ldp.Patch.Terms.{Triple, triple_eq, triple_eq_iff}
use solid_server_rs.Ldp.Patch.Apply.{contains, check_deletes, push_new, keep_survivors, add_inserts}

module _ {A : Type 0} where
  abbrev pub In : A → List A → Type 0
  In t ts = Any (λ u. u ≡ t) ts

  pub In-snoc : (t u : A) (ts : List A) → In t (ts ++ u ∷ []) ↔ (In t ts ⊎ (u ≡ t))
  In-snoc t u [] =
      (elim [ inl e ↦ inr e | inr h ↦ absurd h ], elim [ inl h ↦ absurd h | inr e ↦ inl e ])
  In-snoc t u (x ∷ ts) =
      let (to, from) = In-snoc t u ts in
      (
        elim [
          | inl e ↦ inl (inl e)
          | inr h ↦ elim (to h) [ inl later ↦ inl (inr later) | inr e ↦ inr e ]
        ],
        elim [
          | inl h ↦ elim h [ inl e ↦ inl e | inr later ↦ inr (from (inl later)) ]
          | inr e ↦ inr (from (inr e))
        ],
      )

  -- No element is listed twice.
  abbrev pub IsUnique : List A → Type 0
  IsUnique [] = Unit
  IsUnique (x ∷ xs) = ¬ In x xs × IsUnique xs

  pub IsUnique-snoc : (u : A) (ts : List A) → ¬ In u ts → IsUnique ts → IsUnique (ts ++ u ∷ [])
  IsUnique-snoc u [] n h = (λ i. i, tt)
  IsUnique-snoc u (x ∷ ts) n (fresh, h) = (
    λ i. elim ((In-snoc x u ts).0 i) [ inl later ↦ fresh later | inr e ↦ n (inl (sym e)) ],
    IsUnique-snoc u ts (λ i. n (inr i)) h,
  )

module _ {Literal : Type 0} ⦃same : Eq Literal⦄ where
  pub contains_iff :
      (ts : List (Triple Literal)) (t : Triple Literal) → (contains ts t ≡ true) ↔ In t ts
  unfolding contains
  contains_iff ts t = any_iff (λ u. triple_eq u t) (λ u. triple_eq_iff u t) ts

  pub not_contains :
      (ts : List (Triple Literal)) (t : Triple Literal) → contains ts t ≡ false → ¬ In t ts
  not_contains ts t n i = cc ((contains_iff ts t).1 i, n)

  In-push_new :
      (result : List (Triple Literal)) (t u : Triple Literal)
      → In t (push_new result u) ↔ (In t result ⊎ (u ≡ t))
  In-push_new result t u = elim (Bool-cases (contains result u)) [
    | inr n ↦ rw n (In-snoc t u result)
    | inl y ↦ rw y (
      λ i. inl i,
      elim [
        | inl i ↦ i
        | inr e ↦ (contains_iff result t).0 (ap (λ v. contains result v) (sym e) ∙ y)
      ],
    )
  ]

  push_new-IsUnique :
      (result : List (Triple Literal)) (u : Triple Literal)
      → IsUnique result
      → IsUnique (push_new result u)
  push_new-IsUnique result u h = elim (Bool-cases (contains result u)) [
    | inr n ↦ rw n (IsUnique-snoc u result (not_contains result u n) h)
    | inl y ↦ rw y h
  ]

  In-add_inserts :
      (is result : List (Triple Literal)) (t : Triple Literal)
      → In t (add_inserts is result) ↔ (In t result ⊎ In t is)
  unfolding add_inserts
  In-add_inserts [] result t = (λ i. inl i, elim [ inl i ↦ i | inr h ↦ absurd h ])
  In-add_inserts (i ∷ is) result t =
      let (to, from) = In-add_inserts is (push_new result i) t in
      let (out, back) = In-push_new result t i in
      (
        λ h. elim (to h) [
          | inl pushed ↦ elim (out pushed) [ inl old ↦ inl old | inr e ↦ inr (inl e) ]
          | inr later ↦ inr (inr later)
        ],
        elim [
          | inl old ↦ from (inl (back (inl old)))
          | inr h ↦ elim h [ inl e ↦ from (inl (back (inr e))) | inr later ↦ from (inr later) ]
        ],
      )

  add_inserts-IsUnique :
      (is result : List (Triple Literal)) → IsUnique result → IsUnique (add_inserts is result)
  unfolding add_inserts
  add_inserts-IsUnique [] result h = h
  add_inserts-IsUnique (i ∷ is) result h =
      add_inserts-IsUnique is (push_new result i) (push_new-IsUnique result i h)

  In-keep_survivors :
      (ds ts result : List (Triple Literal)) (t : Triple Literal)
      → In t (keep_survivors ds ts result) ↔ (In t result ⊎ (In t ts × ¬ In t ds))
  unfolding keep_survivors
  In-keep_survivors ds [] result t = (λ i. inl i, elim [ inl i ↦ i | inr h ↦ absurd h.0 ])
  In-keep_survivors ds (u ∷ ts) result t = elim (Bool-cases (contains ds u)) [
    | inl y ↦
        let (to, from) = In-keep_survivors ds ts result t in
        rw y (
          λ h. elim (to h) [ inl old ↦ inl old | inr (later, n) ↦ inr (inr later, n) ],
          elim [
            | inl old ↦ from (inl old)
            | inr (h, n) ↦ elim h [
              | inl e ↦ absurd (n ((contains_iff ds t).0 (ap (λ v. contains ds v) (sym e) ∙ y)))
              | inr later ↦ from (inr (later, n))
            ]
          ],
        )
    | inr gone ↦
        let (to, from) = In-keep_survivors ds ts (push_new result u) t in
        let (out, back) = In-push_new result t u in
        rw gone (
          λ h. elim (to h) [
            | inl pushed ↦ elim (out pushed) [
              | inl old ↦ inl old
              | inr e ↦ inr (inl e, not_contains ds t (ap (λ v. contains ds v) (sym e) ∙ gone))
            ]
            | inr (later, n) ↦ inr (inr later, n)
          ],
          elim [
            | inl old ↦ from (inl (back (inl old)))
            | inr (h, n) ↦ elim h [
              | inl e ↦ from (inl (back (inr e)))
              | inr later ↦ from (inr (later, n))
            ]
          ],
        )
  ]

  keep_survivors-IsUnique :
      (ds ts result : List (Triple Literal))
      → IsUnique result
      → IsUnique (keep_survivors ds ts result)
  unfolding keep_survivors
  keep_survivors-IsUnique ds [] result h = h
  keep_survivors-IsUnique ds (u ∷ ts) result h = elim (Bool-cases (contains ds u)) [
    | inl y ↦ rw y (keep_survivors-IsUnique ds ts result h)
    | inr n ↦
        rw n (keep_survivors-IsUnique ds ts (push_new result u) (push_new-IsUnique result u h))
  ]

  pub patched-In :
      (ds is existing : List (Triple Literal)) (t : Triple Literal)
      → In t (add_inserts is (keep_survivors ds existing []))
        ↔ ((In t existing × ¬ In t ds) ⊎ In t is)
  patched-In ds is existing t =
      let (to, from) = In-add_inserts is (keep_survivors ds existing []) t in
      let (out, back) = In-keep_survivors ds existing [] t in
      (
        λ h. elim (to h) [
          | inl kept ↦ elim (out kept) [ inl nothing ↦ absurd nothing | inr k ↦ inl k ]
          | inr i ↦ inr i
        ],
        elim [ inl k ↦ from (inl (back (inr k))) | inr i ↦ from (inr i) ],
      )

  pub patched-IsUnique :
      (ds is existing : List (Triple Literal))
      → IsUnique (add_inserts is (keep_survivors ds existing []))
  patched-IsUnique ds is existing =
      add_inserts-IsUnique is (keep_survivors ds existing [])
        (keep_survivors-IsUnique ds existing [] tt)

  pub check_deletes_iff :
      (existing ds : List (Triple Literal))
      → (check_deletes existing ds ≡ ok tt) ↔ All (λ d. In d existing) ds
  unfolding check_deletes
  check_deletes_iff existing [] = (λ h. tt, λ h. refl)
  check_deletes_iff existing (d ∷ ds) =
      let (to, from) = check_deletes_iff existing ds in
      elim (Bool-cases (contains existing d)) [
        | inl y ↦ rw y (λ h. ((contains_iff existing d).0 y, to h), λ h. from h.1)
        | inr n ↦ rw n (λ h. absurd (cc h), λ h. absurd (not_contains existing d n h.0))
      ]
