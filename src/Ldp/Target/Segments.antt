-- ===== src/Ldp/Target/Segments.antt =====
-- src/ldp/target.rs: what every target that is accepted has, and which are accepted.
use mathlib.Core.Path.{subst}
use mathlib.Core.List.{reverse-cons, reverse-reverse}
use solid_server_rs.Prelude.{
  ℕ, ◌≡◌, ◌≢◌, refl, ap, inl, inr, Bool, true, false, not, ◌||◌, none, List, [], ◌∷◌, ◌++◌, Str,
  codes, str_eq, str_eq_iff, split, starts_with, ends_with, until, contains_char, split-append,
  drop_while, trim_start_matches, trim_end_matches, All, reverse, ==_iff, All-append, Bool-cases,
  Option-cases, arith, if◌then◌else◌, ◌==◌,
}
use solid_server_rs.Error.{ok}
use solid_server_rs.Identity.{is_reserved_identity_path}
use solid_server_rs.Ldp.Target.{LdpTarget, is_empty, check_segments, starts_query, parse_target}

-- A segment that does not step to another container.
abbrev pub IsStill : Str → Type 0
IsStill seg = (seg ≢ codes "..") × (seg ≢ codes ".")

check_segments-IsStill : (segs : List Str) → check_segments segs ≡ none → All IsStill segs
unfolding check_segments
check_segments-IsStill [] h = tt
check_segments-IsStill (seg ∷ segs) h = elim (Bool-cases (is_empty seg)) [
  | inl y ↦ absurd (cc (rw y at h))
  | inr n ↦ elim (Bool-cases (str_eq seg (codes "..") || str_eq seg (codes "."))) [
    | inl bad ↦ absurd (cc (rw (n, bad) at h))
    | inr good ↦
        let up = str_eq_iff seg (codes "..") in
        let here = str_eq_iff seg (codes ".") in
        (ground (arith, up, here), check_segments-IsStill segs (rw (n, good) at h))
  ]
]

module _ (c : ℕ) (P : Str → Type 0) (empty : P []) where
  -- Separators at either end only add segments that are empty.
  split-drop_while : (s : Str) → All P (split c (drop_while (λ x. x == c) s)) → All P (split c s)
  unfolding split drop_while
  split-drop_while [] h = h
  split-drop_while (x ∷ s) h = elim (Bool-cases (x == c)) [
    | inl y ↦ rw y (empty, split-drop_while s (rw y at h))
    | inr n ↦
        let kept : drop_while (λ x. x == c) (x ∷ s) ≡ x ∷ s = rw n refl in
        subst (λ s. All P (split c s)) kept h
  ]

  -- the same at the end, where the text is given reversed
  split-drop_end :
      (r : Str)
      → All P (split c (reverse (drop_while (λ x. x == c) r)))
      → All P (split c (reverse r))
  unfolding split drop_while
  split-drop_end [] h = h
  split-drop_end (x ∷ r) h = elim (Bool-cases (x == c)) [
    | inl y ↦
        let rest = split-drop_end r (rw y at h) in
        let end = All-append P (split c (reverse r)) ([] ∷ []) rest (empty, tt) in
        rw (reverse-cons, (==_iff x c).0 y, split-append c (reverse r) []) end
    | inr n ↦
        let kept : drop_while (λ x. x == c) (x ∷ r) ≡ x ∷ r = rw n refl in
        subst (λ r. All P (split c (reverse r))) kept h
  ]

  split-trim :
      (s : Str) → All P (split c (trim_end_matches c (trim_start_matches c s))) → All P (split c s)
  unfolding trim_start_matches trim_end_matches
  split-trim s h =
      let r = reverse (drop_while (λ x. x == c) s) in
      split-drop_while s (
        subst (λ t. All P (split c t)) (reverse-reverse (drop_while (λ x. x == c) s))
          (split-drop_end r h))

until-absent : (p : ℕ → Bool) (c : ℕ) (s : Str) → p c ≡ true → contains_char c (until p s) ≡ false
unfolding until contains_char
until-absent p c [] h = refl
until-absent p c (x ∷ s) h = elim (Bool-cases (p x)) [
  | inl y ↦ rw y refl
  | inr n ↦ elim (Bool-cases (x == c)) [
    | inl same ↦ absurd (ground (arith, ap p ((==_iff x c).0 same)))
    | inr other ↦ rw n (rw other (until-absent p c s h))
  ]
]

empty-IsStill : IsStill []
empty-IsStill = (λ e. cc e, λ e. cc e)

unrefused-IsStill :
    (trimmed : Str)
    → (if not (is_empty trimmed) then check_segments (split b'/' trimmed) else none) ≡ none
    → All IsStill (split b'/' trimmed)
unfolding split
unrefused-IsStill [] h = (empty-IsStill, tt)
unrefused-IsStill (c ∷ s) h = check_segments-IsStill (split b'/' (c ∷ s)) h

-- What an accepted target has: the IRI is the base and the path without query and fragment, the path
-- is absolute, outside the reserved namespace, and no segment of it is `.` or `..`.
pub record IsAccepted (base_url path : Str) (t : LdpTarget) : Type 0 where
  pub iri : t.iri ≡ trim_end_matches b'/' base_url ++ until starts_query path
  pub htu : t.htu ≡ t.iri
  pub is_container : t.is_container ≡ ends_with (until starts_query path) (codes "/")
  pub absolute : starts_with (until starts_query path) (codes "/") ≡ true
  pub addressable : is_reserved_identity_path (until starts_query path) ≡ false
  pub still : All IsStill (split b'/' (until starts_query path))
  pub no_query : contains_char b'?' (until starts_query path) ≡ false
  pub no_fragment : contains_char b'#' (until starts_query path) ≡ false

-- Every target that `parse_target` returns has the IRI of the base and the path without query and
-- fragment, and its path is absolute, not reserved and without a segment `.` or `..`.
pub parse_target-IsAccepted :
    (base_url path : Str) (t : LdpTarget)
    → parse_target base_url path ≡ ok t
    → IsAccepted base_url path t
unfolding parse_target
parse_target-IsAccepted base_url path t h =
    let path_only = until starts_query path in
    let trimmed = trim_end_matches b'/' (trim_start_matches b'/' path_only) in
    elim (Bool-cases (is_empty (trim_end_matches b'/' base_url))) [
      | inl y ↦ absurd (cc (rw y at h))
      | inr base ↦ elim (Bool-cases (starts_with path_only (codes "/"))) [
        | inr y ↦ absurd (cc (rw (base, y) at h))
        | inl absolute ↦ elim (Bool-cases (is_reserved_identity_path path_only)) [
          | inl y ↦ absurd (cc (rw (base, absolute, y) at h))
          | inr addressable ↦
              elim (Option-cases
                (if not (is_empty trimmed) then check_segments (split b'/' trimmed) else none)) [
                  | inr (e, bad) ↦ absurd (cc (rw (base, absolute, addressable, bad) at h))
                  | inl good ↦
                      let same : ◌≡◌ {A = LdpTarget} _ t =
                        cc (rw (base, absolute, addressable, good) at h) in
                      subst (IsAccepted base_url path) same (record {
                        iri = refl;
                        htu = refl;
                        is_container = refl;
                        absolute = absolute;
                        addressable = addressable;
                        still =
                            split-trim b'/' IsStill empty-IsStill path_only
                              (unrefused-IsStill trimmed good);
                        no_query = until-absent starts_query b'?' path refl;
                        no_fragment = until-absent starts_query b'#' path refl;
                      })
                ]
        ]
      ]
    ]
