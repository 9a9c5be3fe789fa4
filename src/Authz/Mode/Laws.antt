-- ===== src/Authz/Mode/Laws.antt =====
-- src/authz/mode.rs: what the mode mapping and the `.acl` guards promise.
use mathlib.Core.List.{map-append, reverse-append}
use solid_server_rs.Prelude.{
  ℕ, List, [], ◌∷◌, ◌==◌, Bool-cases, Option-cases, eq-append_of_strip_suffix, split, contains_char,
  ap, ends_with, to_ascii_lowercase, lower, map, strip_prefix, Bool, true, false, none, some, ◌≡◌,
  refl, ◌↔◌, ◌⊎◌, inl, inr, Str, codes, ◌++◌, str_eq, str_eq_iff, is_some, strip_suffix,
  strip_suffix-append, ends_with, arith,
}
use solid_server_rs.Authz.Mode.{
  AccessMode, read, write, append, control, acl_iri, from_acl_iri, acl_suffix, is_acl_resource,
  mode_for_operation, is_acl_auxiliary_suffix, last_part, ModeSet, contains, insert,
}

pub from_acl_iri-acl_iri : (m : AccessMode) → from_acl_iri (acl_iri m) ≡ some m
unfolding from_acl_iri acl_iri str_eq
from_acl_iri-acl_iri read = refl
from_acl_iri-acl_iri _ = refl

pub from_acl_iri-eq-some_iff :
    (iri : Str) (m : AccessMode) → (from_acl_iri iri ≡ some m) ↔ (iri ≡ acl_iri m)
unfolding from_acl_iri acl_iri
from_acl_iri-eq-some_iff iri m = (
  λ h. ground (
    arith,
    str_eq_iff iri (acl_iri read),
    str_eq_iff iri (acl_iri write),
    str_eq_iff iri (acl_iri append),
    str_eq_iff iri (acl_iri control),
  ),
  λ e. rw e (from_acl_iri-acl_iri m),
)

pub is_acl_resource-append : (s : Str) → is_acl_resource (s ++ acl_suffix) ≡ true
unfolding is_acl_resource ends_with is_some
is_acl_resource-append s = rw (strip_suffix-append s acl_suffix)

pub contains-insert :
    (s : ModeSet) (m n : AccessMode)
    → (contains (insert s m) n ≡ true) ↔ ((m ≡ n) ⊎ (contains s n ≡ true))
contains-insert s m n = ground arith

-- ACL resources, and they alone, need Control; among the others the safe methods, and they alone,
-- need Read; Append is what a POST to a container needs, and nothing else.
pub mode_for_operation_iff :
    (method target : Str) (is_container : Bool)
    → ((mode_for_operation method target is_container ≡ control) ↔ (is_acl_resource target ≡ true))
      × ((mode_for_operation method target is_container ≡ read) ↔ (
          (is_acl_resource target ≡ false)
          × ((method ≡ codes "GET") ⊎ ((method ≡ codes "HEAD") ⊎ (method ≡ codes "OPTIONS")))))
      × ((mode_for_operation method target is_container ≡ append)
          ↔ ((is_acl_resource target ≡ false) × (method ≡ codes "POST") × (is_container ≡ true)))
unfolding mode_for_operation
mode_for_operation_iff method target is_container =
    let get = str_eq_iff method (codes "GET") in
    let head = str_eq_iff method (codes "HEAD") in
    let options = str_eq_iff method (codes "OPTIONS") in
    let post = str_eq_iff method (codes "POST") in
    (
      ground (arith, get, head, options, post),
      ground (arith, get, head, options, post),
      ground (arith, get, head, options, post),
    )

-- `split` never returns an empty list, and text without the separator joins the last part.
split-cons : (c : ℕ) (s : Str) → (p : Str) × (ps : List Str) × (split c s ≡ p ∷ ps)
unfolding split
split-cons c [] = ([], [], refl)
split-cons c (x ∷ s) =
    let (p, ps, e) = split-cons c s in
    elim (Bool-cases (x == c)) [
      | inl same ↦ ([], p ∷ ps, rw (same, e) refl)
      | inr other ↦ (x ∷ p, ps, rw (other, e) refl)
    ]

split_of_contains_char : (c : ℕ) (t : Str) → contains_char c t ≡ false → split c t ≡ t ∷ []
unfolding split contains_char
split_of_contains_char c [] h = refl
split_of_contains_char c (x ∷ t) h = ground (arith, split_of_contains_char c t)

last_part-cons :
    (x : ℕ) (q : Str) (qs : List Str) (p t : Str)
    → last_part q qs ≡ p ++ t
    → (p' : Str) × (last_part (x ∷ q) qs ≡ p' ++ t)
unfolding last_part
last_part-cons x q [] p t h = (x ∷ p, ap (◌∷◌ x) h)
last_part-cons x q (r ∷ rs) p t h = (p, h)

last_part-split-append :
    (c : ℕ) (d s t : Str)
    → contains_char c t ≡ false
    → (p : Str) × (last_part d (split c (s ++ t)) ≡ p ++ t)
unfolding last_part split
last_part-split-append c d [] t h = ([], rw (split_of_contains_char c t h) refl)
last_part-split-append c d (x ∷ s) t h =
    let (q, qs, e) = split-cons c (s ++ t) in
    let (p, ih) = last_part-split-append c d s t h in
    let (p', longer) = last_part-cons x q qs p t (rw e at ih) in
    elim (Bool-cases (x == c)) [
      | inl same ↦ (p, rw (same, e) (rw e at ih))
      | inr other ↦ (p', rw (other, e) longer)
    ]

ends_with-append : (s t : Str) → ends_with (s ++ t) t ≡ true
unfolding ends_with is_some
ends_with-append s t = rw (strip_suffix-append s t)

segment-ends :
    (d s suffix : Str)
    → contains_char b'/' suffix ≡ false
    → to_ascii_lowercase suffix ≡ acl_suffix
    → ends_with (to_ascii_lowercase (last_part d (split b'/' (s ++ suffix)))) acl_suffix ≡ true
unfolding to_ascii_lowercase
segment-ends d s suffix plain low =
    let (p, last) = last_part-split-append b'/' d s suffix plain in
    rw last (rw map-append (rw low (ends_with-append (map lower p) acl_suffix)))

-- A case variant of `.acl` holds no slash and does not end in one.
variant-plain :
    (suffix : Str) → to_ascii_lowercase suffix ≡ acl_suffix → contains_char b'/' suffix ≡ false
unfolding to_ascii_lowercase contains_char
variant-plain (a ∷ b ∷ c ∷ d ∷ []) low = ground arith
variant-plain suffix low = ground arith

no_slash :
    (s suffix : Str)
    → to_ascii_lowercase suffix ≡ acl_suffix
    → strip_suffix (s ++ suffix) (codes "/") ≡ none
unfolding to_ascii_lowercase strip_suffix strip_prefix
no_slash s (a ∷ b ∷ c ∷ d ∷ []) low =
    rw (reverse-append s (a ∷ b ∷ c ∷ d ∷ []))
      (let other : (d == b'/') ≡ false = ground arith in rw other refl)
no_slash s suffix low = ground arith

-- The guard on minted names catches `.acl` in every case, as the name of a resource or of a
-- container, whatever comes before it; so it covers all that `is_acl_resource` holds of.
pub is_acl_auxiliary_suffix-append :
    (s suffix : Str)
    → to_ascii_lowercase suffix ≡ acl_suffix
    → (is_acl_auxiliary_suffix (s ++ suffix) ≡ true)
      × (is_acl_auxiliary_suffix ((s ++ suffix) ++ codes "/") ≡ true)
unfolding is_acl_auxiliary_suffix
is_acl_auxiliary_suffix-append s suffix low =
    let plain = variant-plain suffix low in
    (
      rw (no_slash s suffix low) (segment-ends (s ++ suffix) s suffix plain low),
      rw (strip_suffix-append (s ++ suffix) (codes "/"))
          (segment-ends (s ++ suffix) s suffix plain low),
    )

pub is_acl_auxiliary_suffix_of_resource :
    (iri : Str) → is_acl_resource iri ≡ true → is_acl_auxiliary_suffix iri ≡ true
unfolding is_acl_resource ends_with is_some to_ascii_lowercase
is_acl_auxiliary_suffix_of_resource iri h = elim (Option-cases (strip_suffix iri acl_suffix)) [
  | inl missing ↦ absurd (ground arith)
  | inr (s, found) ↦
      rw (eq-append_of_strip_suffix iri acl_suffix s found)
        ((is_acl_auxiliary_suffix-append s acl_suffix refl).0)
]
