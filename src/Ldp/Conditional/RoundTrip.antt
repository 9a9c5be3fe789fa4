-- ===== src/Ldp/Conditional/RoundTrip.antt =====
-- src/ldp/conditional.rs: a client writes with the tag of what it read, in whatever format it read it.
use mathlib.Core.Option.{some-injective}
use solid_server_rs.Prelude.{
  ◌≡◌, ◌≢◌, ◌↔◌, refl, ◌∙◌, inl, inr, true, false, Option, none, some, ◌∷◌, ◌++◌, Str, all, Any,
  any_iff, str_eq, str_eq_iff, str_eq_self, contains_char, as_bytes, Bool-cases,
}
use solid_server_rs.Ldp.Conditional.{
  proceed, failed, InboundTag, state_part, is_etagc, is_wildcard, parse_current,
  matches_strong_state, matches_weak_state, same_state, tag_list, any_current, matched, if_match_ok,
  evaluate, variant_etag,
}
use solid_server_rs.Ldp.Conditional.Tags.{
  or_false, quoted, IsOpaque, tag_list-quoted, is_wildcard-quoted, parse_current-quoted,
  state_part-plain, state_part-variant, variant_etag-quoted, variant-IsOpaque,
}

-- A header of one variant tag, against a current tag.
strong_match :
    (part cur : Str)
    → IsOpaque part
    → all is_etagc (as_bytes cur) ≡ true
    → matched matches_strong_state (quoted part) (some (quoted cur))
      ≡ str_eq (state_part part) (state_part cur)
unfolding matches_strong_state
strong_match part cur o h =
    rw (is_wildcard-quoted part)
      (rw (tag_list-quoted part o) (rw (parse_current-quoted cur h) (or_false _)))

weak_match :
    (part cur : Str)
    → IsOpaque part
    → all is_etagc (as_bytes cur) ≡ true
    → matched matches_weak_state (quoted part) (some (quoted cur))
      ≡ str_eq (state_part part) (state_part cur)
unfolding matches_weak_state
weak_match part cur o h =
    rw (is_wildcard-quoted part)
      (rw (tag_list-quoted part o) (rw (parse_current-quoted cur h) (or_false _)))

no_current : (part : Str) → matched matches_strong_state (quoted part) none ≡ false
no_current part = rw (is_wildcard-quoted part) refl

-- With the tag of a negotiated variant of the stored state a client may write under `If-Match` and is
-- stopped by `If-None-Match`; once the state has another tag, or is gone, `If-Match` fails.
pub evaluate-variant_etag :
    (inner other variant : Str)
    → IsOpaque inner
    → IsOpaque variant
    → all is_etagc (as_bytes other) ≡ true
    → contains_char b'+' inner ≡ false
    → contains_char b'+' other ≡ false
    → inner ≢ other
    → (evaluate (some (variant_etag (quoted inner) variant)) none (some (quoted inner)) ≡ proceed)
      × (evaluate none (some (variant_etag (quoted inner) variant)) (some (quoted inner)) ≡ failed)
      × (evaluate (some (variant_etag (quoted inner) variant)) none (some (quoted other)) ≡ failed)
      × (evaluate (some (variant_etag (quoted inner) variant)) none none ≡ failed)
unfolding evaluate
evaluate-variant_etag inner other variant o v h plain other_plain ne =
    let part = inner ++ b'+' ∷ variant in
    let whole = variant-IsOpaque inner variant o v in
    let state = state_part-variant inner variant plain in
    let same : str_eq (state_part part) (state_part inner) ≡ true =
      rw (state, state_part-plain inner plain) (str_eq_self inner) in
    let differs : str_eq (state_part part) (state_part other) ≡ false =
      rw (state, state_part-plain other other_plain)
        (elim (Bool-cases (str_eq inner other)) [
          | inl y ↦ absurd (ne ((str_eq_iff inner other).0 y))
          | inr n ↦ n
        ]) in
    rw (variant_etag-quoted inner variant) (
      rw (strong_match part inner whole o.0 ∙ same) refl,
      rw (weak_match part inner whole o.0 ∙ same) refl,
      rw (strong_match part other whole h ∙ differs) refl,
      rw (no_current part) refl,
    )

-- A strong tag of the state that is current.
abbrev pub IsCurrentState : Str → InboundTag → Type 0
IsCurrentState cur tag =
    (tag.weak ≡ false)
    × (part : Str) × (parse_current cur ≡ some part)
    × (state_part tag.opaque_part ≡ state_part part)

same_state_iff :
    (tag_part : Str) (current : Option Str)
    → (same_state tag_part current ≡ true)
      ↔ ((part : Str) × (current ≡ some part) × (state_part tag_part ≡ state_part part))
same_state_iff tag_part none = (λ h. absurd (cc h), λ x. absurd (cc x.1))
same_state_iff tag_part (some cur) =
    let (to, from) = str_eq_iff (state_part tag_part) (state_part cur) in
    (
      λ h. (cur, refl, to h),
      λ x. let (part, e, same) = x in from (rw (some-injective cur part e) same),
    )

strong_iff :
    (cur : Str) (tag : InboundTag) → (matches_strong_state tag cur ≡ true) ↔ IsCurrentState cur tag
unfolding matches_strong_state
strong_iff cur tag =
    let (to, from) = same_state_iff tag.opaque_part (parse_current cur) in
    elim (Bool-cases tag.weak) [
      | inl y ↦ rw y (λ h. absurd (cc h), λ x. absurd (cc x.0))
      | inr n ↦
          rw n (λ h. let (part, e, same) = to h in (refl, part, e, same), λ x. from (x.1, x.2, x.3))
    ]

passes_if_match :
    (im : Str) (if_none_match current : Option Str)
    → evaluate (some im) if_none_match current ≡ proceed
    → if_match_ok (some im) current ≡ true
unfolding evaluate
passes_if_match im if_none_match current h = elim (Bool-cases (if_match_ok (some im) current)) [
  | inl y ↦ y
  | inr n ↦ absurd (cc (rw n at h))
]

current_listed :
    (im : Str) (current : Option Str)
    → any_current matches_strong_state im current ≡ true
    → (cur : Str) × (current ≡ some cur) × Any (IsCurrentState cur) (tag_list im)
current_listed im none h = absurd (cc h)
current_listed im (some cur) h =
    (cur, refl, (any_iff (λ t. matches_strong_state t cur) (strong_iff cur) (tag_list im)).0 h)

-- A write under an `If-Match` other than `*` goes ahead only where the resource is there and the
-- header lists a tag that is not weak and names the state that is current.
pub evaluate-proceed :
    (im : Str) (if_none_match current : Option Str)
    → is_wildcard im ≡ false
    → evaluate (some im) if_none_match current ≡ proceed
    → (cur : Str) × (current ≡ some cur) × Any (IsCurrentState cur) (tag_list im)
evaluate-proceed im if_none_match current concrete h =
    let passes = passes_if_match im if_none_match current h in
    current_listed im current (rw concrete at passes)
